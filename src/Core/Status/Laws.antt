-- ===== src/Core/Status/Laws.antt =====
-- ControllerStatus after a sync.
use caravel.Prelude.{
  ◌≡◌, refl, sym, ap, ◌∙◌, Bool, true, false, some, Result, ok, ◌>>=◌, as_err, decode_payload,
  ok-injective,
}
use caravel.Prelude.Text.{Text, eq_refl}
use caravel.Json.{Codec}
use caravel.Crypto.{Primitives}
use caravel.DeviceId
use caravel.DeviceId.{Bundle}
use caravel.Disk
use caravel.Disk.{Disk, content, found}
use caravel.Enroll.Pin.{Pki}
use caravel.Profile.Parse.{parse}
use caravel.Profile.Parse.Laws.{parse-wrap_plaintext}
use caravel.Profile.Store.{Store, path}
use caravel.Profile.Types.{ProfileJson, Profile, EnvelopeLaws}
use caravel.Sync
use caravel.Sync.{Fetched, Network}
use caravel.Sync.Checks.{TakesConnection, reachable_iff}
use caravel.Core.{Marker, Host, marker_bytes, sync_bundle}
use caravel.Core.Laws.{sync_bundle-stored}
use caravel.Core.Logout.{pid-not-synced}
use caravel.Core.Listing.{read_bundle}
use caravel.Core.Reading.{sync_bundle-raw_of, sync_bundle-readable}
use caravel.Core.Resolve.{no_options}
use caravel.Core.Sidecars.{synced_path, pid_path}
use caravel.Core.Status.{MarkerView, marker_of, controller_of, probe, probe_file, controller_status}

-- A marker is always marshalled, and its `relay` and `synced_at` are read back from its text.
pub record MarkerLaws (M : Codec Marker) (view : MarkerView) : Type 0 where
  pub text_of : Marker → Text
  pub marshals : (m : Marker) → M.marshal m ≡ ok (text_of m)
  pub view-marshal : (m : Marker) (t : Text) → M.marshal m ≡ ok t → view t ≡ (m.relay, m.synced_at)

read-content :
    (d : Disk) (k v : Text)
    → content d k ≡ some v
    → d.is_unreadable k ≡ false
    → Disk.read d k ≡ found v
unfolding Disk.read
read-content d k v h readable = rw (h, Disk.read) (rw readable refl)

view-marker_bytes :
    (M : Codec Marker) (view : MarkerView) (laws : MarkerLaws M view) (host : Host) (b : Bundle)
    (email : Text) (res : Fetched)
    → view (marker_bytes M host b email res.revision) ≡ (b.relay_addr, host.now)
view-marker_bytes M view laws host b email res =
    let m : Marker = record {
      user = email;
      revision = res.revision;
      relay = b.relay_addr;
      controller = b.ca_fingerprint;
      synced_at = host.now;
    } in
    rw (laws.marshals m, marker_bytes) (laws.view-marshal m (laws.text_of m) (laws.marshals m))

module _ (P : Primitives) (J : ProfileJson) (view : MarkerView) (B : Codec Bundle) (K : Pki)
    (net : Network) where
  -- What ControllerStatus makes of a document, a bundle and a marker.
  controller_status-found :
      (s : Store) (d : Disk) (name pharosid marker : Text) (p : Profile) (b : Bundle)
      (v : Text × Text)
      → read_bundle P J d name ≡ ok p
      → Disk.read d (pid_path name) ≡ found pharosid
      → DeviceId.parse B pharosid ≡ ok b
      → Disk.read d (synced_path name) ≡ found marker
      → view marker ≡ v
      → controller_status B K net P J view (some s) d name
        ≡ ok (record {
          reachable = Sync.reachable K net b;
          last_synced_at = v.1;
          relay = v.0;
          controller = p.control;
        })
  unfolding controller_status controller_of marker_of probe_file probe
  controller_status-found s d name pharosid marker p b v document pid parsed synced viewed =
      rw (document, controller_status)
        (rw (pid, controller_status)
          (rw (synced, controller_status) (rw (parsed, probe) (rw viewed refl))))

module _ (P : Primitives) (J : ProfileJson) (laws : EnvelopeLaws J) (M : Codec Marker)
    (view : MarkerView) (markers : MarkerLaws M view) (B : Codec Bundle) (K : Pki) (net : Network)
    (host : Host) (can_list : host.can_list ≡ true) where
  -- After a sync that stored its profile, on a disk whose directory can be listed and that refuses
  -- nothing, ControllerStatus of the stored name gives the relay of the bundle, the time of the sync,
  -- the control endpoint of the fetched document, and whether the relay of the bundle takes a
  -- connection now: a TLS dial of its address, with the fleet CA's certificates as the roots, the
  -- bundle's leaf, which has the bundle's key, and the bundle's server name.
  pub controller_status-sync_bundle :
      (s : Store) (b : Bundle) (pharosid email name : Text) (res : Fetched) (p : Profile) (d : Disk)
      → ((k : Text) → d.is_locked k ≡ false)
      → ((k : Text) → d.is_unreadable k ≡ false)
      → DeviceId.parse B pharosid ≡ ok b
      → J.profile.unmarshal res.plaintext ≡ ok p
      → (sync_bundle J M host b pharosid email (ok res) d).0 ≡ ok name
      → (reachable : Bool) × (controller_status B K net P J view
            (some s)
            (sync_bundle J M host b pharosid email (ok res) d).1
            name
          ≡ ok (record {
            reachable = reachable;
            last_synced_at = host.now;
            relay = b.relay_addr;
            controller = p.control;
          }))
        × (reachable ≡ true → TakesConnection K net b)
        × (TakesConnection K net b → reachable ≡ true)
  unfolding controller_status read_bundle
  controller_status-sync_bundle s b pharosid email name res p d unlocked readable parsed decoded h =
      let d' = (sync_bundle J M host b pharosid email (ok res) d).1 in
      let marker = marker_bytes M host b email res.revision in
      let (env, wrapped, same, stored, _) =
        sync_bundle-stored J M host can_list b pharosid email res d name unlocked h in
      let (res', e, env', wrapped', read) =
        sync_bundle-raw_of J M host b pharosid email (ok res) d name (readable (path name)) h in
      let still : (k : Text) → d'.is_unreadable k ≡ false = λ k.
        ap (λ (f : Text → Bool). f k) (sync_bundle-readable J M host b pharosid email res d name h)
        ∙ readable k in
      let pid : Disk.read d' (pid_path name) ≡ found pharosid =
        read-content d' (pid_path name) pharosid
          (stored (pid_path name) ∙ rw (eq_refl (pid_path name)) refl) (still (pid_path name)) in
      let synced : Disk.read d' (synced_path name) ≡ found marker =
        read-content d' (synced_path name) marker
          (stored (synced_path name) ∙ rw (pid-not-synced name, eq_refl (synced_path name)) refl)
          (still (synced_path name)) in
      let document : read_bundle P J d' name ≡ ok p =
        ap (λ (x : Result Text). x >>= λ raw. parse P J raw no_options) read
        ∙ (parse-wrap_plaintext P J laws res'.plaintext env' no_options wrapped'
            ∙ ap (λ (x : Result Profile). as_err x decode_payload)
                (ap (λ (r : Fetched). J.profile.unmarshal r.plaintext)
                    (sym (ok-injective res res' e))
                  ∙ decoded)) in
      (
        Sync.reachable K net b,
        controller_status-found P J view B K net s d' name pharosid marker p b
            (b.relay_addr, host.now) document pid parsed synced
            (view-marker_bytes M view markers host b email res),
        (reachable_iff K net b).0,
        (reachable_iff K net b).1,
      )
