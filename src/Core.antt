-- ===== src/Core.antt =====
-- go/core.go: the engine over its profile store. An operation takes the opened store, if InitStore
-- opened one, and the disk; it returns its result with the disk after it.
pub mod Names
pub mod Sidecars
pub mod Purge
pub mod Resolve
pub mod Listing
pub mod Reading
pub mod Status
pub mod Enrolling
pub mod Succeeding
pub mod Connect
pub mod Laws
pub mod Logout
pub mod Tests
use caravel.Prelude.{
  ℕ, ℤ, pos_part, ltb, Bool, false, not, Option, none, some, List, [], ◌∷◌, ◌++◌, if◌then◌else◌,
  Result, ok, err, panic, ◌>>=◌, or_err, as_err, not_initialized, read_file, Error,
}
use caravel.Prelude.Text.{Text, bytes, ◌==◌, trim_suffix}
use caravel.Json.{Codec}
use caravel.Crypto.{Primitives}
use caravel.DeviceId
use caravel.DeviceId.{Bundle, Pem}
use caravel.Disk
use caravel.Disk.{Disk}
use caravel.Enroll.Claim.{Device, Relay, claim}
use caravel.Enroll.Link.{Link, UrlParser, parse_link}
use caravel.Enroll.Pin.{Pki}
use caravel.Profile.Parse.{wrap_plaintext}
use caravel.Profile.Store.{Store, base, new_store, import}
use caravel.Profile.Types.{ProfileJson, extension}
use caravel.Sync.{Fetched, Network, Randomness, fetch}
use caravel.Sync.Calls.{Service}
use caravel.Core.Names.{sanitize_name, first_non_empty}
use caravel.Core.Sidecars.{synced_path, pid_path, purge_cloud}

-- The marker that is written beside a synced profile.
pub record Marker : Type 0 where
  pub user : Text
  pub revision : ℤ
  pub relay : Text
  pub controller : Text
  pub synced_at : Text

-- What the system around the engine answers: the content of a file elsewhere, whether the store's
-- directory can be listed, and the time of day.
pub record Host : Type 0 where
  pub file : Text → Option Text
  pub can_list : Bool
  pub now : Text

-- InitStore
unfoldable pub init_store : (Text → Bool) → Text → Result Store
init_store mkdir_all dir = new_store mkdir_all dir

-- ensureStore
unfoldable pub ensure_store : Option Store → Result Store
ensure_store s = or_err s not_initialized

-- ImportBundle after ensureStore
import_file : ProfileJson → Host → Text → Disk → Result Text × Disk
import_file J host path d = elim (host.file path) [
  | none ↦ (err read_file, d)
  | some bundle ↦
      let name = sanitize_name (trim_suffix (base path) extension) in
      let (r, d') = import J name bundle d in
      elim r [ ok _ ↦ (ok name, d') | err e ↦ (err e, d') | panic ↦ (panic, d') ]
]

-- ImportBundle
unfoldable pub import_bundle : ProfileJson → Host → Option Store → Text → Disk → Result Text × Disk
unfolding import_file
import_bundle J host none path d = (err not_initialized, d)
import_bundle J host (some s) path d = import_file J host path d

-- The bytes of a marker; json.Marshal's error is dropped.
abbrev pub marker_bytes : Codec Marker → Host → Bundle → Text → ℤ → Text
marker_bytes M host b email revision =
    elim (M.marshal (record {
      user = email;
      revision = revision;
      relay = b.relay_addr;
      controller = b.ca_fingerprint;
      synced_at = host.now;
    })) [ ok t ↦ t | _ ↦ [] ]

-- The name under which syncBundle stores.
abbrev pub synced_name : Bundle → Text → Text
synced_name b email = sanitize_name (first_non_empty (b.alias ∷ email ∷ bytes "account" ∷ []))

module _ (J : ProfileJson) (M : Codec Marker) (host : Host) where
  -- The two files that syncBundle writes beside the profile, whether or not the system lets it.
  unfoldable pub write_sidecars : Text → Text → Text → Disk → Disk
  write_sidecars name marker pharosid d =
      (Disk.write (Disk.write d (synced_path name) marker).0 (pid_path name) pharosid).0

  -- syncBundle after store.Import
  abbrev pub after_import : Text → Text → Text → Result Text × Disk → Result Text × Disk
  after_import name marker pharosid (ok _, d) = (ok name, write_sidecars name marker pharosid d)
  after_import name marker pharosid (err e, d) = (err e, d)
  after_import name marker pharosid (panic, d) = (panic, d)

  -- syncBundle after purgeCloud
  unfoldable pub store_synced : Bundle → Text → Text → Fetched → Disk → Result Text × Disk
  unfolding write_sidecars
  store_synced b pharosid email res d = elim (wrap_plaintext J res.plaintext) [
    | err e ↦ (err e, d)
    | panic ↦ (panic, d)
    | ok env ↦
        after_import (synced_name b email) (marker_bytes M host b email res.revision) pharosid
          (import J (synced_name b email) env d)
  ]

  -- syncBundle, on what Fetch returned.
  unfoldable pub sync_bundle : Bundle → Text → Text → Result Fetched → Disk → Result Text × Disk
  unfolding store_synced
  sync_bundle b pharosid email (err e) d = (err e, d)
  sync_bundle b pharosid email panic d = (panic, d)
  sync_bundle b pharosid email (ok res) d =
      store_synced b pharosid email res (purge_cloud host.can_list d).1

-- Logout
unfoldable pub logout : Host → Option Store → Disk → ℕ × Disk
logout host none d = (0, d)
logout host (some s) d = purge_cloud host.can_list d

module _ (P : Primitives) (E : Pem) (J : ProfileJson) (B : Codec Bundle) (M : Codec Marker)
    (K : Pki) (net : Network) (host : Host) where
  -- syncBundle with its Fetch
  unfoldable pub fetch_and_store :
      Service → Randomness → Bundle → Text → Text → Text → Disk → Result Text × Disk
  unfolding sync_bundle
  fetch_and_store S rand b pharosid email password d =
      sync_bundle J M host b pharosid email (fetch P E J.crypto K net S rand b email password []).0
        d

  -- SyncAndStore
  unfoldable pub sync_and_store :
      Option Store → Service → Randomness → Text → Text → Text → Disk → Result Text × Disk
  unfolding fetch_and_store
  sync_and_store none S rand pharosid email password d = (err not_initialized, d)
  sync_and_store (some s) S rand pharosid email password d = elim (DeviceId.parse B pharosid) [
    | err e ↦ (err e, d)
    | panic ↦ (panic, d)
    | ok b ↦ fetch_and_store S rand b pharosid email password d
  ]

  -- The bundle of Enroll and its marshalled form.
  enrolled_bundle : UrlParser → Device → Relay → Text → Text → Text → Result (Bundle × Text)
  enrolled_bundle U device relay link device_name platform = do
    l ← parse_link U link
    b ←
        claim P E B K device relay l
          (if device_name == [] then bytes "caravel-device" else device_name)
          (if platform == [] then bytes "caravel" else platform)
    pharosid ← DeviceId.marshal B b
    ok (b, pharosid)

  -- Enroll
  unfoldable pub enroll :
      Option Store
      → UrlParser
      → Device
      → Relay
      → Service
      → Randomness
      → Text
      → Text
      → Text
      → Disk
      → Result Text × Disk
  unfolding enrolled_bundle fetch_and_store
  enroll none U device relay S rand link device_name platform d = (err not_initialized, d)
  enroll (some s) U device relay S rand link device_name platform d =
      elim (enrolled_bundle U device relay link device_name platform) [
        | err e ↦ (err e, d)
        | panic ↦ (panic, d)
        | ok (b, pharosid) ↦ fetch_and_store S rand b pharosid [] [] d
      ]
