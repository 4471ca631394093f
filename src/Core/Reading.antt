-- ===== src/Core/Reading.antt =====
-- A synced profile as it is read from the store afterwards.
pub mod Tests
use caravel.Prelude.{
  ◌≡◌, refl, sym, ap, ◌∙◌, Bool, true, false, none, some, List, [], ◌∷◌, arith, if◌then◌else◌,
  Bool-cases, inl, inr, Option, Result, ok, err, panic, ◌>>=◌, as_err, ok-injective, Result-cases,
  decode_payload,
}
use caravel.Prelude.Text.{Text, ◌==◌, eq_iff, eq_refl, has_suffix, trim_suffix}
use caravel.Json.{Codec}
use caravel.Crypto.{Primitives}
use caravel.DeviceId
use caravel.DeviceId.{Bundle, Pem}
use caravel.Disk
use caravel.Disk.{Disk, found}
use caravel.Disk.Laws.{read-write, read-write_other}
use caravel.Enroll.Claim.{Device, Relay}
use caravel.Enroll.Link.{UrlParser}
use caravel.Enroll.Pin.{Pki}
use caravel.Profile.Parse.{wrap_plaintext, parse}
use caravel.Profile.Parse.Laws.{parse-wrap_plaintext}
use caravel.Profile.Store.{Store, base, import, path, raw_of}
use caravel.Profile.Store.Laws.{import-eq-ok, import-disk}
use caravel.Profile.Types.{ProfileJson, Profile, EnvelopeLaws, extension}
use caravel.Sync.{Fetched, Network, Randomness, fetch}
use caravel.Sync.Calls.{Service}
use caravel.Core.{
  Marker, Host, marker_bytes, synced_name, write_sidecars, store_synced, sync_bundle,
  fetch_and_store, sync_and_store, enroll,
}
use caravel.Core.Laws.{after_import-eq-ok, store_synced-eq-ok}
use caravel.Core.Listing.{read_bundle}
use caravel.Core.Logout.{synced_not_profile, pid_not_profile}
use caravel.Core.Resolve.{no_options}
use caravel.Core.Sidecars.{
  synced_extension, synced_path, pid_path, remove_all, purge_entries, purge_cloud, sidecars,
}

is_unreadable-remove : (d : Disk) (k : Text) → (Disk.remove d k).0.is_unreadable ≡ d.is_unreadable
unfolding Disk.remove
is_unreadable-remove d k = ground arith

is_unreadable-remove_all :
    (ks : List Text) (d : Disk) → (remove_all ks d).is_unreadable ≡ d.is_unreadable
unfolding remove_all
is_unreadable-remove_all [] d = refl
is_unreadable-remove_all (k ∷ ks) d =
    is_unreadable-remove_all ks (Disk.remove d k).0 ∙ is_unreadable-remove d k

is_unreadable-purge_entries :
    (fs : List Text) (d : Disk) → (purge_entries fs d).1.is_unreadable ≡ d.is_unreadable
unfolding purge_entries
is_unreadable-purge_entries [] d = refl
is_unreadable-purge_entries (f ∷ fs) d = elim (Bool-cases (has_suffix f synced_extension)) [
  | inl e ↦ rw e (
      is_unreadable-purge_entries fs (remove_all (sidecars (trim_suffix f synced_extension)) d)
      ∙ is_unreadable-remove_all (sidecars (trim_suffix f synced_extension)) d)
  | inr e ↦ rw e (is_unreadable-purge_entries fs d)
]

pub is_unreadable-purge_cloud :
    (can_list : Bool) (d : Disk) → (purge_cloud can_list d).1.is_unreadable ≡ d.is_unreadable
unfolding purge_cloud
is_unreadable-purge_cloud true d = is_unreadable-purge_entries (Disk.names d) d
is_unreadable-purge_cloud false d = refl

is_unreadable-write : (d : Disk) (k v : Text) → (Disk.write d k v).0.is_unreadable ≡ d.is_unreadable
unfolding Disk.write
is_unreadable-write d k v = ground arith

ne_path : (s t : Text) → (s ≡ t → ⊥) → (s == t) ≡ false
ne_path s t h = elim (Bool-cases (s == t)) [ inl e ↦ absurd (h ((eq_iff s t).0 e)) | inr e ↦ e ]

pid-not-path : (n : Text) → (pid_path n == path n) ≡ false
unfolding path
pid-not-path n = ne_path _ _ (pid_not_profile n (trim_suffix (base n) extension))

synced-not-path : (n : Text) → (synced_path n == path n) ≡ false
unfolding path
synced-not-path n = ne_path _ _ (synced_not_profile n (trim_suffix (base n) extension))

module _ (J : ProfileJson) (M : Codec Marker) (host : Host) where
  sidecars-raw_of :
      (name marker pharosid env : Text) (d : Disk) (p : Text)
      → d.is_unreadable (path name) ≡ false
      → (import J name env d).0 ≡ ok p
      → raw_of name (write_sidecars J M host name marker pharosid (import J name env d).1) ≡ ok env
  unfolding write_sidecars raw_of
  sidecars-raw_of name marker pharosid env d p readable h =
      let d1 = (import J name env d).1 in
      let d2 = (Disk.write d1 (synced_path name) marker).0 in
      let (done, _) = import-eq-ok J name env d p h in
      let third = read-write_other d2 (pid_path name) pharosid (path name) (pid-not-path name) in
      let second =
        read-write_other d1 (synced_path name) marker (path name) (synced-not-path name) in
      let first = read-write d (path name) env (path name) done in
      rw (third, raw_of)
        (rw (second, raw_of)
          (rw (import-disk J name env d p h, raw_of)
            (rw (first, raw_of) (rw (eq_refl (path name), readable, raw_of) refl))))

  -- The profile's file after a sync that stored it, whatever became of the files beside it.
  store_synced-raw_of :
      (b : Bundle) (pharosid email : Text) (res : Fetched) (d : Disk) (name : Text)
      → d.is_unreadable (path name) ≡ false
      → (store_synced J M host b pharosid email res d).0 ≡ ok name
      → (env : Text) × (wrap_plaintext J res.plaintext ≡ ok env)
        × (raw_of name (store_synced J M host b pharosid email res d).1 ≡ ok env)
  unfolding store_synced
  store_synced-raw_of b pharosid email res d name readable h =
      let stored = synced_name b email in
      let marker = marker_bytes M host b email res.revision in
      elim (Result-cases (wrap_plaintext J res.plaintext)) [
        | inl (env, e) ↦
            let (p, imported, same, after) =
              after_import-eq-ok J M host stored marker pharosid name (import J stored env d)
                (rw (e, store_synced) at h) in
            let read : raw_of name
                  (write_sidecars J M host stored marker pharosid (import J stored env d).1)
                ≡ ok env =
              rw same
                (sidecars-raw_of stored marker pharosid env d p (rw same at readable) imported) in
            (env, e, rw (e, store_synced) (ap (raw_of name) after ∙ read))
        | inr (inl (x, e)) ↦ let q = rw (e, store_synced) at h in cc
        | inr (inr e) ↦ let q = rw (e, store_synced) at h in cc
      ]

  -- A sync that stored its profile leaves as readable what was readable.
  store_synced-readable :
      (b : Bundle) (pharosid email : Text) (res : Fetched) (d : Disk) (name : Text)
      → (store_synced J M host b pharosid email res d).0 ≡ ok name
      → (store_synced J M host b pharosid email res d).1.is_unreadable ≡ d.is_unreadable
  unfolding write_sidecars
  store_synced-readable b pharosid email res d name h =
      let stored = synced_name b email in
      let marker = marker_bytes M host b email res.revision in
      let (env, _, _, after) = store_synced-eq-ok J M host b pharosid email res d name h in
      ap (λ (x : Disk). x.is_unreadable) after
      ∙ (is_unreadable-write _ (pid_path stored) pharosid
          ∙ (is_unreadable-write _ (synced_path stored) marker
              ∙ is_unreadable-write d (path stored) env))

  pub sync_bundle-readable :
      (b : Bundle) (pharosid email : Text) (res : Fetched) (d : Disk) (name : Text)
      → (sync_bundle J M host b pharosid email (ok res) d).0 ≡ ok name
      → (sync_bundle J M host b pharosid email (ok res) d).1.is_unreadable ≡ d.is_unreadable
  unfolding sync_bundle
  sync_bundle-readable b pharosid email res d name h =
      store_synced-readable b pharosid email res (purge_cloud host.can_list d).1 name h
      ∙ is_unreadable-purge_cloud host.can_list d

  pub sync_bundle-raw_of :
      (b : Bundle) (pharosid email : Text) (r : Result Fetched) (d : Disk) (name : Text)
      → d.is_unreadable (path name) ≡ false
      → (sync_bundle J M host b pharosid email r d).0 ≡ ok name
      → (res : Fetched) × (r ≡ ok res)
        × (env : Text) × (wrap_plaintext J res.plaintext ≡ ok env)
        × (raw_of name (sync_bundle J M host b pharosid email r d).1 ≡ ok env)
  unfolding sync_bundle
  sync_bundle-raw_of b pharosid email (err e) d name readable h = cc
  sync_bundle-raw_of b pharosid email panic d name readable h = cc
  sync_bundle-raw_of b pharosid email (ok res) d name readable h =
      let kept =
        ap (λ (f : Text → Bool). f (path name)) (is_unreadable-purge_cloud host.can_list d) in
      let (env, wrapped, read) =
        store_synced-raw_of b pharosid email res (purge_cloud host.can_list d).1 name
          (kept ∙ readable) h in
      (res, refl, env, wrapped, read)

module _ (P : Primitives) (E : Pem) (J : ProfileJson) (B : Codec Bundle) (M : Codec Marker)
    (K : Pki) (net : Network) (host : Host) (laws : EnvelopeLaws J) (S : Service)
    (rand : Randomness) where
  -- A stored profile that is read as what was fetched with a bundle.
  abbrev pub IsFetched : Bundle → Text → Text → Disk → Text → Type 0
  IsFetched b email password d name =
      (res : Fetched) × ((fetch P E J.crypto K net S rand b email password []).0 ≡ ok res)
      × (read_bundle P J d name ≡ as_err (J.profile.unmarshal res.plaintext) decode_payload)

  pub fetch_and_store-IsFetched :
      (b : Bundle) (pharosid email password : Text) (d : Disk) (name : Text)
      → d.is_unreadable (path name) ≡ false
      → (fetch_and_store P E J B M K net host S rand b pharosid email password d).0 ≡ ok name
      → IsFetched b email password
          (fetch_and_store P E J B M K net host S rand b pharosid email password d).1
          name
  unfolding fetch_and_store read_bundle
  fetch_and_store-IsFetched b pharosid email password d name readable h =
      let r = (fetch P E J.crypto K net S rand b email password []).0 in
      let (res, fetched, env, wrapped, read) =
        sync_bundle-raw_of J M host b pharosid email r d name readable h in
      (
        res,
        fetched,
        ap (λ (x : Result Text). x >>= λ raw. parse P J raw no_options) read
            ∙ parse-wrap_plaintext P J laws res.plaintext env no_options wrapped,
      )

  -- After a SyncAndStore that returned a name, reading that name gives the profile that the plaintext
  -- of a Fetch with the parsed bundle decodes to, and needs no password: fetching, wrapping, the
  -- purge, the two files beside the profile and the reading compose.
  pub sync_and_store-IsFetched :
      (s : Option Store) (pharosid email password : Text) (d : Disk) (name : Text)
      → d.is_unreadable (path name) ≡ false
      → (sync_and_store P E J B M K net host s S rand pharosid email password d).0 ≡ ok name
      → (b : Bundle) × (DeviceId.parse B pharosid ≡ ok b)
        × IsFetched b email password
            (sync_and_store P E J B M K net host s S rand pharosid email password d).1
            name
  unfolding sync_and_store
  sync_and_store-IsFetched none pharosid email password d name readable h = cc
  sync_and_store-IsFetched (some s) pharosid email password d name readable h =
      elim (Result-cases (DeviceId.parse B pharosid)) [
        | inl (b, e) ↦ (
          b,
          e,
          rw (e, sync_and_store)
              (fetch_and_store-IsFetched b pharosid email password d name readable
                (rw (e, sync_and_store) at h)),
        )
        | inr (inl (x, e)) ↦ let q = rw (e, sync_and_store) at h in cc
        | inr (inr e) ↦ let q = rw (e, sync_and_store) at h in cc
      ]
