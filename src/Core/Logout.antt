-- ===== src/Core/Logout.antt =====
-- What a logout after a sync leaves of the synced profile.
use mathlib.Core.Path.{subst}
use mathlib.Core.List.{reverse, reverse-append}
use caravel.Prelude.{
  ℕ, ◌≡◌, ◌≢◌, refl, sym, ap, ◌∙◌, Bool, true, false, not, none, some, [], ◌∷◌, ◌++◌, any_of, arith,
  if◌then◌else◌, Bool-cases, inl, inr, length, length-append, &&-left, &&-right, ok, ok-injective,
}
use caravel.Prelude.Text.{Text, bytes, ◌==◌, eq_iff, eq_refl, has_byte, has_suffix, trim_suffix}
use caravel.Prelude.TextLaws.{
  has_suffix-append, trim_suffix-append, trim_suffix-restore, trim_suffix-absent,
}
use caravel.Disk.{Disk, content, names}
use caravel.Disk.Laws.{any_of-names, names-content}
use caravel.Profile.Store.{Store, path}
use caravel.Profile.Store.Laws.{base-plain}
use caravel.Json.{Codec}
use caravel.DeviceId.{Bundle}
use caravel.Profile.Parse.{wrap_plaintext}
use caravel.Profile.Types.{ProfileJson, extension}
use caravel.Sync.{Fetched}
use caravel.Core.{Marker, Host, marker_bytes, sync_bundle, logout}
use caravel.Core.Laws.{sync_bundle-stored}
use caravel.Core.Names.{sanitize_name_lem, slash, first_non_empty}
use caravel.Core.Sidecars.{
  synced_path, pid_path, synced_extension, pid_extension, sidecars, purge_cloud,
}
use caravel.Core.Purge.{marks, purge_cloud_lem, purge_cloud-no_marker}

by_contra : (b : Bool) → (b ≡ true → ⊥) → b ≡ false
by_contra true h = absurd (h refl)
by_contra false h = refl

ends : (s t p q : Text) → s ++ p ≡ t ++ q → reverse p ++ reverse s ≡ reverse q ++ reverse t
ends s t p q e = sym (reverse-append s p) ∙ (ap reverse e ∙ reverse-append t q)

abbrev first : Text → ℕ
first [] = 0
first (c ∷ _) = c

abbrev second : Text → ℕ
second [] = 0
second (_ ∷ s) = first s

synced_not_pid : (s t : Text) → s ++ synced_extension ≢ t ++ pid_extension
synced_not_pid s t e =
    let h : 101 ≡ 105 = ap second (ends s t synced_extension pid_extension e) in omega (arith, h)

pub pid-not-synced : (n : Text) → (pid_path n == synced_path n) ≡ false
pid-not-synced n =
    by_contra (pid_path n == synced_path n)
      (λ same. synced_not_pid n n (sym ((eq_iff (pid_path n) (synced_path n)).0 same)))

pub synced_not_profile : (s t : Text) → s ++ synced_extension ≢ t ++ extension
synced_not_profile s t e =
    let h : 100 ≡ 115 = ap first (ends s t synced_extension extension e) in omega (arith, h)

pub longer : (n : Text) (c : ℕ) (s : Text) → (n ++ c ∷ s == n) ≡ false
longer n c s = elim (Bool-cases (n ++ c ∷ s == n)) [
  | inl e ↦
      let same = ap length ((eq_iff (n ++ c ∷ s) n).0 e) in
      let sum = length-append n (c ∷ s) in absurd (omega (arith, same, sum))
  | inr e ↦ e
]

pub path-plain :
    (n : Text)
    → has_byte b'/' n ≡ false
    → (n == []) ≡ false
    → path n ≡ trim_suffix n extension ++ extension
unfolding path
path-plain n h e = ap (λ (b : Text). trim_suffix b extension ++ extension) (base-plain n h e)

pub pid_not_profile : (s t : Text) → s ++ pid_extension ≢ t ++ extension
pid_not_profile s t e =
    let h : 100 ≡ 115 = ap first (ends s t pid_extension extension e) in omega (arith, h)

-- No sidecar of a name is the name.
sidecars-own : (n : Text) → any_of (λ k. k == n) (sidecars n) ≡ false
unfolding sidecars
sidecars-own n =
    rw
      (
        longer n 46 (bytes "pharos"),
        longer n 46 (bytes "synced"),
        longer n 46 (bytes "disabled"),
        longer n 46 (bytes "pharosid"),
      )
      refl

sidecars-profile : (n : Text) → any_of (λ k. k == n ++ extension) (sidecars n) ≡ true
unfolding sidecars
sidecars-profile n = rw (eq_refl (n ++ extension)) refl

not_marked :
    (n f : Text)
    → any_of (λ k. k == n) (sidecars (trim_suffix f synced_extension)) ≡ true
    → synced_path n ≢ f
not_marked n f h e =
    let base : trim_suffix f synced_extension ≡ n =
      ap (λ (t : Text). trim_suffix t synced_extension) (sym e)
      ∙ trim_suffix-append n synced_extension in
    let own = sidecars-own n in
    let h' = subst (λ (b : Text). any_of (λ k. k == n) (sidecars b) ≡ true) base h in cc (h', own)

marks-synced : (n : Text) → marks (n ++ extension) (synced_path n) ≡ true
marks-synced n =
    rw (has_suffix-append n synced_extension)
      (rw (trim_suffix-append n synced_extension) (sidecars-profile n))

-- The disk of a sync: three files on a disk without markers.
module _ (d0 d : Disk) (n env marker pharosid : Text) (no_slash : has_byte b'/' n ≡ false)
    (not_empty : (n == []) ≡ false)
    (clean : (f : Text) → has_suffix f synced_extension ≡ true → content d0 f ≡ none)
    (stored : (j : Text)
      → content d j ≡ (
          if pid_path n == j
          then some pharosid
          else if synced_path n == j
          then some marker
          else if path n == j
          then some env
          else content d0 j)) where
  -- The one marker on that disk is the synced one.
  one_marker :
      (f v : Text) → has_suffix f synced_extension ≡ true → content d f ≡ some v → synced_path n ≡ f
  one_marker f v h e =
      let own = trim_suffix-restore f synced_extension h in
      elim (Bool-cases (synced_path n == f)) [
        | inl same ↦ (eq_iff (synced_path n) f).0 same
        | inr other ↦
            let not_pid : (pid_path n == f) ≡ false = by_contra (pid_path n == f) (λ same.
              synced_not_pid (trim_suffix f synced_extension) n
                (own ∙ sym ((eq_iff (pid_path n) f).0 same))) in
            let not_profile : (path n == f) ≡ false = by_contra (path n == f) (λ same.
              synced_not_profile (trim_suffix f synced_extension) (trim_suffix n extension)
                (own ∙ (sym ((eq_iff (path n) f).0 same) ∙ path-plain n no_slash not_empty))) in
            let gone : content d f ≡ none =
              stored f ∙ rw (not_pid, other, not_profile) (clean f h) in
            absurd (cc (gone, e))
      ]

  has_marker : content d (synced_path n) ≡ some marker
  has_marker = stored (synced_path n) ∙ rw (pid-not-synced n, eq_refl (synced_path n)) refl

  pub has_profile : content d (path n) ≡ some env
  has_profile =
      let plain = path-plain n no_slash not_empty in
      stored (path n)
      ∙ rw
          (
            by_contra (pid_path n == path n) (λ same.
                pid_not_profile n (trim_suffix n extension)
                  ((eq_iff (pid_path n) (path n)).0 same ∙ plain)),
            by_contra (synced_path n == path n) (λ same.
                synced_not_profile n (trim_suffix n extension)
                  ((eq_iff (synced_path n) (path n)).0 same ∙ plain)),
            eq_refl (path n),
          )
          refl

  -- The marker covers the synced profile's file just where the name has no extension.
  pub marked_lem : any_of (marks (path n)) (names d) ≡ not (has_suffix n extension)
  marked_lem = elim (Bool-cases (has_suffix n extension)) [
    | inl e ↦
        let own : path n ≡ n =
          path-plain n no_slash not_empty ∙ trim_suffix-restore n extension e in
        rw (e, own)
          (by_contra (any_of (marks n) (names d)) (λ t.
            let (f, v, at_f, m) = names-content d (marks n) t in
            not_marked n f (&&-right (has_suffix f synced_extension) _ m)
              (one_marker f v (&&-left (has_suffix f synced_extension) _ m) at_f)))
    | inr e ↦
        let own : path n ≡ n ++ extension =
          path-plain n no_slash not_empty
          ∙ ap (λ (t : Text). t ++ extension) (trim_suffix-absent n extension e) in
        rw (e, own)
          (any_of-names d (synced_path n) marker (marks (n ++ extension)) has_marker
            (marks-synced n))
  ]

  pub profile_kept :
      (if any_of (marks (path n)) (names d) then none else content d (path n))
      ≡ (if has_suffix n extension then some env else none)
  profile_kept = rw (marked_lem, has_profile) (ground (arith, has_suffix n extension))

module _ (J : ProfileJson) (M : Codec Marker) (host : Host) (can_list : host.can_list ≡ true)
    (s : Store) where
  logout-content :
      (d : Disk) (j : Text)
      → d.is_locked j ≡ false
      → content (logout host (some s) d).1 j
        ≡ (if any_of (marks j) (names d) then none else content d j)
  unfolding logout
  logout-content d j unlocked =
      ap (λ (c : Bool). content (purge_cloud c d).1 j) can_list
      ∙ ((purge_cloud_lem d j).0 ∙ rw unlocked refl)

  -- A logout right after a sync, where the store's directory can be listed and the disk refuses no
  -- write and no removal, removes the synced profile, unless its name ends in the extension `.pharos`:
  -- then the profile stays.
  pub logout-sync_bundle :
      (b : Bundle) (pharosid email env name : Text) (res : Fetched) (d : Disk)
      → ((k : Text) → d.is_locked k ≡ false)
      → wrap_plaintext J res.plaintext ≡ ok env
      → (sync_bundle J M host b pharosid email (ok res) d).0 ≡ ok name
      → content
          (logout host (some s) (sync_bundle J M host b pharosid email (ok res) d).1).1
          (path name)
        ≡ (if has_suffix name extension then some env else none)
  logout-sync_bundle b pharosid email env name res d unlocked wrapped h =
      let d' = (sync_bundle J M host b pharosid email (ok res) d).1 in
      let (env', wrapped', same, stored, still) =
        sync_bundle-stored J M host can_list b pharosid email res d name unlocked h in
      let safe =
        sanitize_name_lem (first_non_empty (b.alias ∷ email ∷ bytes "account" ∷ [])) b'/' slash in
      logout-content d' (path name) (still (path name))
      ∙ (profile_kept (purge_cloud true d).1 d' name env' (marker_bytes M host b email res.revision)
            pharosid (ap (has_byte b'/') same ∙ safe.0) (ap (λ (n : Text). n == []) same ∙ safe.1)
            (λ f t. purge_cloud-no_marker d f (unlocked f) t) stored
          ∙ ap (λ (x : Text). if has_suffix name extension then some x else none)
              (ok-injective env' env (sym wrapped' ∙ wrapped)))
