-- ===== src/Core/Tests.antt =====
-- The package at concrete inputs.
use caravel.Prelude.{◌≡◌, refl, some, none, [], ◌∷◌, any_of, ok, if◌then◌else◌}
use caravel.Prelude.Text.{Text, bytes, ◌==◌, has_suffix, trim_suffix, trim_space}
use caravel.Disk
use caravel.Disk.{Disk, content, write}
use caravel.DeviceId.{Bundle}
use caravel.Profile.Parse.{wrap_plaintext, header}
use caravel.Profile.Store.{path, base, import}
use caravel.Profile.Types.{extension}
use caravel.Core.{marker_bytes, synced_name, sync_bundle, logout, store_synced}
use caravel.Core.Laws.{sync_bundle-content}
use caravel.Core.Logout.{logout-sync_bundle}
use caravel.Core.Names.{sanitize_name, first_non_empty}
use caravel.Core.Purge.{marks}
use caravel.Core.Sidecars.{synced_path, pid_path, purge_cloud, remove_all, purge_entries, sidecars}
use caravel.Samples.Devices.{bundle, bundle_text}
use caravel.Samples.Hosts.{host, store, markers, fetched, envelope}
use caravel.Samples.Profiles.{blank, json}

-- A disk with a synced profile and an imported one.
abbrev two : Disk
two = record blank {
  files =
      (bytes "old.pharos", bytes "x")
      ∷ (bytes "old.synced", bytes "y")
      ∷ (bytes "mine.pharos", bytes "z")
      ∷ [];
}

sync_bundle-content_example :
    (env : Text) × (wrap_plaintext json fetched.plaintext ≡ ok env)
    × (bytes "laptop" ≡ synced_name bundle [])
    × (content
          (sync_bundle json markers host bundle bundle_text [] (ok fetched) two).1
          (bytes "laptop.pharos")
        ≡ (if pid_path (bytes "laptop") == bytes "laptop.pharos"
            then some bundle_text
            else if synced_path (bytes "laptop") == bytes "laptop.pharos"
            then some (marker_bytes markers host bundle [] fetched.revision)
            else if path (bytes "laptop") == bytes "laptop.pharos"
            then some env
            else if any_of (marks (bytes "laptop.pharos")) (Disk.names two)
            then none
            else content two (bytes "laptop.pharos")))
unfolding sync_bundle store_synced import header wrap_plaintext purge_cloud purge_entries remove_all
    Disk.write Disk.remove sanitize_name first_non_empty trim_space path base trim_suffix has_suffix
    sidecars Disk.names ◌==◌
sync_bundle-content_example =
    sync_bundle-content json markers host refl bundle bundle_text [] fetched two (bytes "laptop")
      (bytes "laptop.pharos") (λ k. refl) refl

-- A device whose name ends in the extension.
abbrev doubled : Bundle
doubled = record bundle { alias = bytes "laptop.pharos" }

logout-sync_bundle_example :
    content
      (logout host
        (some store)
        (sync_bundle json markers host doubled bundle_text [] (ok fetched) two).1).1
      (path (bytes "laptop.pharos"))
    ≡ (if has_suffix (bytes "laptop.pharos") extension then some envelope else none)
unfolding sync_bundle store_synced import header wrap_plaintext purge_cloud purge_entries remove_all
    Disk.write Disk.remove sanitize_name first_non_empty trim_space path base trim_suffix has_suffix
    sidecars Disk.names ◌==◌ envelope
logout-sync_bundle_example =
    logout-sync_bundle json markers host refl store doubled bundle_text [] envelope
      (bytes "laptop.pharos") fetched two (λ k. refl) refl refl
