-- ===== src/Core/Listing/Tests.antt =====
-- ListProfiles at a concrete store.
use caravel.Prelude.{refl, List, true, [], ◌∷◌}
use caravel.Prelude.Text.{bytes, ◌==◌, trim_suffix, has_suffix}
use caravel.Disk
use caravel.Disk.{Disk}
use caravel.Profile.Parse.{wrap_plaintext, header, parse}
use caravel.Profile.Store
use caravel.Profile.Store.Listing.{IsListing}
use caravel.Profile.Store.{Store, Entry, path, base, raw_of}
use caravel.Core.Listing.{
  JsonProfile, Rows, list_profiles, list_profiles-Rows, read_bundle, json_profile,
}
use caravel.Core.Sidecars.{is_cloud}
use caravel.Samples.Ciphers.{ciphers}
use caravel.Samples.Hosts.{envelope}
use caravel.Samples.Profiles.{blank, json, document, cascade}

-- A synced bundle, and a file that is no profile.
abbrev stocked : Disk
unfolding envelope
stocked = record blank {
  files =
      (bytes "home.pharos", envelope)
      ∷ (bytes "home.synced", bytes "y")
      ∷ (bytes "other.pharos", bytes "x")
      ∷ [];
}

abbrev store : Store
store = record { dir = bytes "/etc/pharos/profiles" }

abbrev entry : JsonProfile
unfolding json_profile
entry = json_profile (bytes "home") true document cascade

list_profiles-Rows_example :
    (es : List Entry) × IsListing json stocked es × Rows ciphers json stocked es (entry ∷ [])
unfolding list_profiles Store.list raw_of parse wrap_plaintext header path base trim_suffix
    has_suffix Disk.read Disk.names is_cloud Disk.exists ◌==◌ stocked envelope read_bundle
    json_profile Store.text_lt Store.entry_for
list_profiles-Rows_example = list_profiles-Rows ciphers json stocked store (entry ∷ []) refl
