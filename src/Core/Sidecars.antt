-- ===== src/Core/Sidecars.antt =====
-- The sidecar files of go/core.go beside a stored profile, and purgeCloud, which removes them.
use caravel.Prelude.{ℕ, suc, Bool, List, [], ◌∷◌, ◌++◌, map, if◌then◌else◌}
use caravel.Prelude.Text.{Text, bytes, has_suffix, trim_suffix}
use caravel.Disk
use caravel.Disk.{Disk}
use caravel.Profile.Types.{extension}

-- deviceid.Extension
abbrev pub pid_extension : Text
pid_extension = bytes ".pharosid"

abbrev pub synced_extension : Text
synced_extension = bytes ".synced"

-- syncedPath and pidPath, as names in the store's directory.
abbrev pub synced_path : Text → Text
synced_path name = name ++ synced_extension

abbrev pub pid_path : Text → Text
pid_path name = name ++ pid_extension

-- isCloud
unfoldable pub is_cloud : Text → Disk → Bool
is_cloud name d = Disk.exists d (synced_path name)

-- The suffixes that purgeCloud removes from a marker's base.
unfoldable pub sidecars : Text → List Text
sidecars base =
    map (λ suf. base ++ suf) (extension ∷ synced_extension ∷ bytes ".disabled" ∷ pid_extension ∷ [])

-- os.Remove of several names, its errors ignored.
unfoldable pub remove_all : List Text → Disk → Disk
remove_all [] d = d
remove_all (k ∷ ks) d = remove_all ks (Disk.remove d k).0

-- The loop of purgeCloud over the directory's entries.
unfoldable pub purge_entries : List Text → Disk → ℕ × Disk
unfolding remove_all sidecars
purge_entries [] d = (0, d)
purge_entries (f ∷ fs) d =
    let skipped = purge_entries fs d in
    let (n, d') = purge_entries fs (remove_all (sidecars (trim_suffix f synced_extension)) d) in
    if has_suffix f synced_extension then (suc n, d') else skipped

-- purgeCloud; the flag says whether the directory can be listed.
unfoldable pub purge_cloud : Bool → Disk → ℕ × Disk
unfolding purge_entries
purge_cloud can_list d = if can_list then purge_entries (Disk.names d) d else (0, d)
