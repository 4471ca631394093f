-- ===== src/Samples/Hosts.antt =====
-- A host, its store, and the marker of the one sync that it has seen.
use caravel.Prelude.{pos, true, none, [], ◌∷◌}
use caravel.Prelude.Text.{Text, bytes, ◌==◌}
use caravel.Json.{Codec}
use caravel.Disk.{Disk}
use caravel.Profile.Endpoint.{Words}
use caravel.Profile.Parse.{wrap_plaintext}
use caravel.Profile.Store.{Store}
use caravel.Sync.{Fetched}
use caravel.Core.{Marker, Host}
use caravel.Samples.Codecs.{only}
use caravel.Samples.Sealed.{value_of, device_key, sealed_text, signer}
use caravel.Samples.Profiles.{blank, json}

abbrev pub host : Host
host = record { file = λ p. none; can_list = true; now = bytes "2026-01-01T00:00:00Z" }

abbrev pub store : Store
store = record { dir = bytes "/etc/pharos/profiles" }

abbrev pub markers : Codec Marker
unfolding ◌==◌
markers =
    only (bytes "marker")
      (record { user = []; revision = pos 3; relay = []; controller = []; synced_at = [] })

abbrev pub fetched : Fetched
fetched = record {
  user_id = bytes "user";
  revision = pos 3;
  plaintext = bytes "profile";
  sealed = sealed_text;
  signer_public = signer;
  device_key = device_key;
}

-- A stored document, the disk that holds it, and the random words.
unfoldable pub envelope : Text
unfolding wrap_plaintext
envelope = value_of (wrap_plaintext json (bytes "profile"))

unfoldable pub stocked : Disk
unfolding envelope
stocked = record blank { files = (bytes "home.pharos", envelope) ∷ [] }

abbrev pub words : Words
words = record { entry = 0; port = 2 }
