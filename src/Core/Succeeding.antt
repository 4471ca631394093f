-- ===== src/Core/Succeeding.antt =====
-- SyncAndStore of go/core.go with a relay and a service that do their part.
pub mod Tests
use caravel.Prelude.{
  ◌≡◌, ◌≢◌, refl, sym, ap, ◌∙◌, Bool, true, false, some, [], ◌∷◌, Result, ok, err, panic, as_err,
  decode_payload, ok-injective,
}
use caravel.Prelude.Text.{Text, ◌==◌, eq_refl}
use caravel.Json.{Codec}
use caravel.Crypto.{Primitives, IsLawful, SealedBundle}
use caravel.Crypto.Seal.{SealedTo}
use caravel.DeviceId
use caravel.DeviceId.{Bundle, Pem, encryption_private_key}
use caravel.Disk
use caravel.Disk.{Disk}
use caravel.Enroll.Pin.{Pki}
use caravel.Profile.Parse.{wrap_plaintext, header}
use caravel.Profile.Store.{Store, path, import}
use caravel.Profile.Types.{ProfileJson, EnvelopeLaws}
use caravel.Sync.{Fetched, Network, Randomness, auth_pass, dial, fetch}
use caravel.Sync.Calls.{Service, Login, RemoteProfile, authenticate, issued}
use caravel.Sync.Fetch.{fetch-SealedTo}
use caravel.Core.{
  Marker, Host, synced_name, marker_bytes, after_import, store_synced, sync_bundle, fetch_and_store,
  sync_and_store,
}
use caravel.Core.Purge.{is_locked-purge_entries}
use caravel.Core.Listing.{read_bundle}
use caravel.Core.Reading.{fetch_and_store-IsFetched}
use caravel.Core.Sidecars.{purge_cloud}

module _ (J : ProfileJson) (M : Codec Marker) (host : Host) (laws : EnvelopeLaws J) where
  import-wrapped :
      (name pt env : Text) (d : Disk)
      → wrap_plaintext J pt ≡ ok env
      → d.is_locked (path name) ≡ false
      → (import J name env d).0 ≡ ok (path name)
  unfolding import header wrap_plaintext Disk.write
  import-wrapped name pt env d wrapped unlocked =
      rw (laws.unmarshal-marshal _ env wrapped, import) (simp (eq_refl, unlocked) refl)

  after_import-ok :
      (name marker pharosid p : Text) (r : Result Text × Disk)
      → r.0 ≡ ok p
      → (after_import J M host name marker pharosid r).0 ≡ ok name
  after_import-ok name marker pharosid p (ok _, d) h = refl
  after_import-ok name marker pharosid p (err e, d) h = cc
  after_import-ok name marker pharosid p (panic, d) h = cc

  is_locked-purge_cloud :
      (can_list : Bool) (d : Disk) → (purge_cloud can_list d).1.is_locked ≡ d.is_locked
  unfolding purge_cloud
  is_locked-purge_cloud true d = is_locked-purge_entries (Disk.names d) d
  is_locked-purge_cloud false d = refl

  store_synced-succeeds :
      (b : Bundle) (pharosid email env : Text) (res : Fetched) (d : Disk)
      → wrap_plaintext J res.plaintext ≡ ok env
      → d.is_locked (path (synced_name b email)) ≡ false
      → (store_synced J M host b pharosid email res d).0 ≡ ok (synced_name b email)
  unfolding store_synced
  store_synced-succeeds b pharosid email env res d wrapped unlocked =
      let name = synced_name b email in
      rw (wrapped, store_synced)
        (after_import-ok name (marker_bytes M host b email res.revision) pharosid (path name)
          (import J name env d) (import-wrapped name res.plaintext env d wrapped unlocked))

  sync_bundle-succeeds :
      (b : Bundle) (pharosid email env : Text) (res : Fetched) (d : Disk)
      → wrap_plaintext J res.plaintext ≡ ok env
      → d.is_locked (path (synced_name b email)) ≡ false
      → (sync_bundle J M host b pharosid email (ok res) d).0 ≡ ok (synced_name b email)
  unfolding sync_bundle
  sync_bundle-succeeds b pharosid email env res d wrapped unlocked =
      store_synced-succeeds b pharosid email env res (purge_cloud host.can_list d).1 wrapped (
        ap (λ (f : Text → Bool). f (path (synced_name b email)))
          (is_locked-purge_cloud host.can_list d)
        ∙ unlocked)

module _ (P : Primitives) (E : Pem) (J : ProfileJson) (B : Codec Bundle) (M : Codec Marker)
    (K : Pki) (net : Network) (host : Host) (laws : EnvelopeLaws J) (S : Service)
    (rand : Randomness) where
  fetch_and_store-succeeds :
      (b : Bundle) (pharosid email password env : Text) (res : Fetched) (d : Disk)
      → (fetch P E J.crypto K net S rand b email password []).0 ≡ ok res
      → wrap_plaintext J res.plaintext ≡ ok env
      → d.is_locked (path (synced_name b email)) ≡ false
      → d.is_unreadable (path (synced_name b email)) ≡ false
      → ((fetch_and_store P E J B M K net host S rand b pharosid email password d).0
          ≡ ok (synced_name b email))
        × (read_bundle P J
              (fetch_and_store P E J B M K net host S rand b pharosid email password d).1
              (synced_name b email)
            ≡ as_err (J.profile.unmarshal res.plaintext) decode_payload)
  unfolding fetch_and_store
  fetch_and_store-succeeds b pharosid email password env res d fetched wrapped unlocked readable =
      let done : (fetch_and_store P E J B M K net host S rand b pharosid email password d).0
          ≡ ok (synced_name b email) =
        rw (fetched, fetch_and_store)
          (sync_bundle-succeeds J M host laws b pharosid email env res d wrapped unlocked) in
      let (found, e, read) =
        fetch_and_store-IsFetched P E J B M K net host laws S rand b pharosid email password d
          (synced_name b email) readable done in
      let same = ok-injective found res (sym e ∙ fetched) in
      (done, rw (ap (λ (r : Fetched). r.plaintext) same) at read)

  -- With lawful ciphers and envelopes that decode to what was encoded, SyncAndStore succeeds when
  -- everything it depends on does its part: the text parses to a bundle with a key of its own, the
  -- relay is dialled, the service answers the login with a session token and then gives a profile
  -- sealed to that key, the plaintext can be wrapped, and the profile's file may be written and read.
  -- It returns the synced name, and reading that name afterwards gives what the sealed plaintext
  -- decodes to.
  pub sync_and_store-succeeds :
      (lawful : IsLawful P) (s : Store) (b : Bundle) (pharosid key email password pt env : Text)
      (l : Login) (rp : RemoteProfile) (sb : SealedBundle) (d : Disk)
      → DeviceId.parse B pharosid ≡ ok b
      → encryption_private_key E b ≡ ok (some key)
      → dial K net b ≡ ok tt
      → S.authenticates [] email (auth_pass email password) ≡ some l
      → l.session_token ≢ []
      → S.gives (authenticate email (auth_pass email password) ∷ []) l.session_token ≡ issued rp
      → J.crypto.sealed.unmarshal rp.ciphertext ≡ ok sb
      → SealedTo P J.crypto sb key rp.signing_public_key pt
      → wrap_plaintext J pt ≡ ok env
      → d.is_locked (path (synced_name b email)) ≡ false
      → d.is_unreadable (path (synced_name b email)) ≡ false
      → ((sync_and_store P E J B M K net host (some s) S rand pharosid email password d).0
          ≡ ok (synced_name b email))
        × (read_bundle P J
              (sync_and_store P E J B M K net host (some s) S rand pharosid email password d).1
              (synced_name b email)
            ≡ as_err (J.profile.unmarshal pt) decode_payload)
  unfolding sync_and_store
  sync_and_store-succeeds lawful s b pharosid key email password pt env l rp sb d parsed own dialled
        answered token given sealed to_key wrapped unlocked readable =
      rw (parsed, sync_and_store)
        (fetch_and_store-succeeds b pharosid email password env _ d
          (fetch-SealedTo P E J.crypto K net S lawful rand b key email password pt l rp sb own
            dialled answered token given sealed to_key)
          wrapped unlocked readable)
