-- ===== src/Core/Laws.antt =====
-- What a sync leaves in the store.
use caravel.Prelude.{
  ◌≡◌, refl, sym, ap, ◌∙◌, Bool, true, false, none, some, any_of, arith, if◌then◌else◌, inl, inr,
  Result, ok, err, panic, ok-injective, Result-cases,
}
use caravel.Prelude.Text.{Text, ◌==◌}
use caravel.Json.{Codec}
use caravel.DeviceId.{Bundle}
use caravel.Disk
use caravel.Disk.{Disk, content}
use caravel.Disk.Laws.{content-write}
use caravel.Profile.Parse.{wrap_plaintext}
use caravel.Profile.Store.{import, path}
use caravel.Profile.Store.Laws.{import-disk}
use caravel.Profile.Types.{ProfileJson}
use caravel.Sync.{Fetched}
use caravel.Core.{
  Marker, Host, after_import, marker_bytes, synced_name, store_synced, sync_bundle, write_sidecars,
}
use caravel.Core.Sidecars.{synced_path, pid_path, purge_cloud}
use caravel.Core.Purge.{marks, purge_cloud_lem, is_locked-purge_entries}

is_locked-write : (d : Disk) (k v : Text) → (Disk.write d k v).0.is_locked ≡ d.is_locked
unfolding Disk.write
is_locked-write d k v = ground arith

-- Three writes on a disk that refuses none.
three_writes :
    (d : Disk) (a x b y c z j : Text)
    → ((k : Text) → d.is_locked k ≡ false)
    → content (Disk.write (Disk.write (Disk.write d a x).0 b y).0 c z).0 j ≡ (
        if c == j
        then some z
        else if b == j
        then some y
        else if a == j
        then some x
        else content d j)
three_writes d a x b y c z j unlocked =
    let d1 = (Disk.write d a x).0 in
    let d2 = (Disk.write d1 b y).0 in
    let l1 : d1.is_locked ≡ d.is_locked = is_locked-write d a x in
    let l2 : d2.is_locked ≡ d.is_locked = is_locked-write d1 b y ∙ l1 in
    let at_c : d2.is_locked c ≡ false = ap (λ (f : Text → Bool). f c) l2 ∙ unlocked c in
    let at_b : d1.is_locked b ≡ false = ap (λ (f : Text → Bool). f b) l1 ∙ unlocked b in
    content-write d2 c z j
    ∙ (rw at_c
        (rw (content-write d1 b y j) (rw at_b (rw (content-write d a x j) (rw (unlocked a) refl)))))

module _ (J : ProfileJson) (M : Codec Marker) (host : Host) where
  pub after_import-eq-ok :
      (stored marker pharosid name : Text) (r : Result Text × Disk)
      → (after_import J M host stored marker pharosid r).0 ≡ ok name
      → (p : Text) × (r.0 ≡ ok p)
        × (name ≡ stored)
        × ((after_import J M host stored marker pharosid r).1
            ≡ write_sidecars J M host stored marker pharosid r.1)
  after_import-eq-ok stored marker pharosid name (ok p, d) h =
      (p, refl, sym (ok-injective stored name h), refl)
  after_import-eq-ok stored marker pharosid name (err e, d) h = cc
  after_import-eq-ok stored marker pharosid name (panic, d) h = cc

  -- The disk after a sync that stored its profile.
  pub store_synced-eq-ok :
      (b : Bundle) (pharosid email : Text) (res : Fetched) (d : Disk) (name : Text)
      → (store_synced J M host b pharosid email res d).0 ≡ ok name
      → (env : Text) × (wrap_plaintext J res.plaintext ≡ ok env)
        × (name ≡ synced_name b email)
        × ((store_synced J M host b pharosid email res d).1
            ≡ write_sidecars J M host
                (synced_name b email)
                (marker_bytes M host b email res.revision)
                pharosid
                (Disk.write d (path (synced_name b email)) env).0)
  unfolding store_synced
  store_synced-eq-ok b pharosid email res d name h =
      let stored = synced_name b email in
      let marker = marker_bytes M host b email res.revision in
      elim (Result-cases (wrap_plaintext J res.plaintext)) [
        | inl (env, e) ↦
            let (p, imported, same, after) =
              after_import-eq-ok stored marker pharosid name (import J stored env d)
                (rw (e, store_synced) at h) in
            (
              env,
              e,
              same,
              rw (e, store_synced)
                  (after
                    ∙ ap (λ (x : Disk). write_sidecars J M host stored marker pharosid x)
                        (import-disk J stored env d p imported)),
            )
        | inr (inl (x, e)) ↦ let q = rw (e, store_synced) at h in cc
        | inr (inr e) ↦ let q = rw (e, store_synced) at h in cc
      ]

  module _ (can_list : host.can_list ≡ true) where
    is_locked-purged :
        (d : Disk) (k : Text) → d.is_locked k ≡ false → (purge_cloud true d).1.is_locked k ≡ false
    unfolding purge_cloud
    is_locked-purged d k h =
        ap (λ (f : Text → Bool). f k) (is_locked-purge_entries (Disk.names d) d) ∙ h

    sync_bundle-purge_cloud :
        (b : Bundle) (pharosid email : Text) (res : Fetched) (d : Disk)
        → sync_bundle J M host b pharosid email (ok res) d
          ≡ store_synced J M host b pharosid email res (purge_cloud true d).1
    unfolding sync_bundle
    sync_bundle-purge_cloud b pharosid email res d =
        ap (λ (c : Bool). store_synced J M host b pharosid email res (purge_cloud c d).1) can_list

    -- The disk of a sync by its contents and its locks, before the earlier markers are spelled out.
    pub sync_bundle-stored :
        (b : Bundle) (pharosid email : Text) (res : Fetched) (d : Disk) (name : Text)
        → ((k : Text) → d.is_locked k ≡ false)
        → (sync_bundle J M host b pharosid email (ok res) d).0 ≡ ok name
        → (env : Text) × (wrap_plaintext J res.plaintext ≡ ok env)
          × (name ≡ synced_name b email)
          × ((j : Text)
              → content (sync_bundle J M host b pharosid email (ok res) d).1 j ≡ (
                  if pid_path name == j
                  then some pharosid
                  else if synced_path name == j
                  then some (marker_bytes M host b email res.revision)
                  else if path name == j
                  then some env
                  else content (purge_cloud true d).1 j))
          × ((k : Text) → (sync_bundle J M host b pharosid email (ok res) d).1.is_locked k ≡ false)
    unfolding write_sidecars
    sync_bundle-stored b pharosid email res d name unlocked h =
        let whole = sync_bundle-purge_cloud b pharosid email res d in
        let marker = marker_bytes M host b email res.revision in
        let (env, wrapped, same, after) =
          store_synced-eq-ok b pharosid email res (purge_cloud true d).1 name
            (ap (λ (r : Result Text × Disk). r.0) (sym whole) ∙ h) in
        let final : (sync_bundle J M host b pharosid email (ok res) d).1
            ≡ write_sidecars J M host name marker pharosid
                (Disk.write (purge_cloud true d).1 (path name) env).0 =
          ap (λ (r : Result Text × Disk). r.1) whole
          ∙ (after
              ∙ ap
                  (λ (n : Text).
                    write_sidecars J M host n marker pharosid
                      (Disk.write (purge_cloud true d).1 (path n) env).0)
                  (sym same)) in
        (
          env,
          wrapped,
          same,
          λ j.
              ap (λ (x : Disk). content x j) final
              ∙ three_writes (purge_cloud true d).1 (path name) env (synced_path name) marker
                  (pid_path name) pharosid j (λ k. is_locked-purged d k (unlocked k)),
          λ k.
              ap (λ (x : Disk). x.is_locked k) final
              ∙ (ap (λ (f : Text → Bool). f k)
                    (is_locked-write _ (pid_path name) pharosid
                      ∙ (is_locked-write _ (synced_path name) marker
                          ∙ is_locked-write _ (path name) env))
                  ∙ is_locked-purged d k (unlocked k)),
        )

    -- A sync that stored its profile leaves this disk, where the store's directory can be listed and the
    -- disk refuses no write and no removal: the profile's envelope, its marker and the raw `.pharosid`
    -- under the synced name, and of the other files those that no earlier marker was for.
    pub sync_bundle-content :
        (b : Bundle) (pharosid email : Text) (res : Fetched) (d : Disk) (name j : Text)
        → ((k : Text) → d.is_locked k ≡ false)
        → (sync_bundle J M host b pharosid email (ok res) d).0 ≡ ok name
        → (env : Text) × (wrap_plaintext J res.plaintext ≡ ok env)
          × (name ≡ synced_name b email)
          × (content (sync_bundle J M host b pharosid email (ok res) d).1 j ≡ (
              if pid_path name == j
              then some pharosid
              else if synced_path name == j
              then some (marker_bytes M host b email res.revision)
              else if path name == j
              then some env
              else if any_of (marks j) (Disk.names d)
              then none
              else content d j))
    sync_bundle-content b pharosid email res d name j unlocked h =
        let (env, wrapped, same, stored, _) =
          sync_bundle-stored b pharosid email res d name unlocked h in
        (env, wrapped, same, stored j ∙ rw (purge_cloud_lem d j).0 (rw (unlocked j) refl))
