-- ===== src/Cli/Removal.antt =====
-- `caravel rm` of go/cmd/caravel after a sync.
use caravel.Prelude.{
  ◌≡◌, refl, ap, ◌∙◌, true, false, none, some, [], ◌∷◌, ◌++◌, not, any_of, arith, if◌then◌else◌,
  Bool-cases, inl, inr, ok, Result,
}
use caravel.Prelude.Text.{Text, bytes, ◌==◌, eq_refl, has_byte, has_suffix}
use caravel.Prelude.TextLaws.{trim_suffix-restore, trim_suffix-absent}
use caravel.DeviceId.{Bundle}
use caravel.Disk.{Disk, content}
use caravel.Profile.Parse.{wrap_plaintext}
use caravel.Profile.Store.{Store, path}
use caravel.Profile.Types.{extension}
use caravel.Sync.{Fetched}
use caravel.Core.{sync_bundle, marker_bytes}
use caravel.Core.Laws.{sync_bundle-stored}
use caravel.Core.Logout.{path-plain, longer}
use caravel.Core.Names.{sanitize_name_lem, slash, first_non_empty}
use caravel.Core.Purge.{content-remove_all}
use caravel.Core.Sidecars.{synced_path, pid_path, remove_all, purge_cloud}
use caravel.Cli.{open_store, forgotten, cmd_remove, dispatch}
use caravel.Cli.Process.{World, State, Output, or_stop, removed}

-- What rm does once the store is there.
cmd_remove-disk :
    (W : World) (name : Text) (st : State) (s : Store)
    → open_store W ≡ ok s
    → dispatch W (bytes "rm" ∷ name ∷ []) st
      ≡ (ok (removed name), record st { disk = remove_all (forgotten W name) st.disk })
unfolding dispatch cmd_remove or_stop ◌==◌
cmd_remove-disk W name st s h = rw (h, cmd_remove) refl

-- Where the profile of a name without slashes lies: beside its name, unless it ends in the extension.
path-forgotten :
    (W : World) (n : Text)
    → has_byte b'/' n ≡ false
    → (n == []) ≡ false
    → any_of (λ k. k == path n) (forgotten W n) ≡ not (has_suffix n extension)
path-forgotten W n no_slash not_empty = elim (Bool-cases (has_suffix n extension)) [
  | inl e ↦
      let own : path n ≡ n = path-plain n no_slash not_empty ∙ trim_suffix-restore n extension e in
      rw (e, own)
        (rw
          (
            longer n 46 (bytes "pharos"),
            longer n 46 (bytes "synced"),
            longer n 46 (bytes "pharosid"),
          )
          refl)
  | inr e ↦
      let own : path n ≡ n ++ extension =
        path-plain n no_slash not_empty
        ∙ ap (λ (t : Text). t ++ extension) (trim_suffix-absent n extension e) in
      rw (e, own) (rw (eq_refl (n ++ extension)) refl)
]

module _ (W : World) (can_list : W.host.can_list ≡ true) (s : Store)
    (opens : open_store W ≡ ok s) where
  -- The host after a sync and an rm of a name.
  abbrev pub synced_then_removed : Bundle → Text → Text → Fetched → State → Text → State
  synced_then_removed b pharosid email res st name =
      (dispatch W (bytes "rm" ∷ name ∷ []) (record st {
        disk =
            (sync_bundle W.profile_json W.marker_json W.host b pharosid email (ok res) st.disk).1;
      })).1

  -- An rm of the name that a sync has stored, where the store's directory can be listed and the disk
  -- refuses nothing, removes its marker, its raw `.pharosid` and the profile of its name, and leaves of
  -- the other files what the sync's purge left. That profile is the synced one unless the name ends in the extension `.pharos`: then the
  -- synced profile stays.
  pub dispatch-sync_bundle :
      (b : Bundle) (pharosid email name j : Text) (res : Fetched) (st : State)
      → ((k : Text) → st.disk.is_locked k ≡ false)
      → (sync_bundle W.profile_json W.marker_json W.host b pharosid email (ok res) st.disk).0
        ≡ ok name
      → (env : Text) × (wrap_plaintext W.profile_json res.plaintext ≡ ok env)
        × (content (synced_then_removed b pharosid email res st name).disk j ≡ (
            if any_of (λ k. k == j) (forgotten W name)
            then none
            else if path name == j
            then some env
            else content (purge_cloud true st.disk).1 j))
        × (any_of (λ k. k == path name) (forgotten W name) ≡ not (has_suffix name extension))
  dispatch-sync_bundle b pharosid email name j res st unlocked h =
      let d' =
        (sync_bundle W.profile_json W.marker_json W.host b pharosid email (ok res) st.disk).1 in
      let (env, wrapped, same, stored, still) =
        sync_bundle-stored W.profile_json W.marker_json W.host can_list b pharosid email res st.disk
          name unlocked h in
      let safe =
        sanitize_name_lem (first_non_empty (b.alias ∷ email ∷ bytes "account" ∷ [])) b'/' slash in
      let after = cmd_remove-disk W name (record st { disk = d' }) s opens in
      (
        env,
        wrapped,
        ap (λ (r : Result Output × State). content r.1.disk j) after
            ∙ (content-remove_all (forgotten W name) d' j
                ∙ rw (still j) (
                    kept d' (purge_cloud true st.disk).1 env
                      (marker_bytes W.marker_json W.host b email res.revision) pharosid
                      (stored j))),
        path-forgotten W name (ap (has_byte b'/') same ∙ safe.0)
            (ap (λ (n : Text). n == []) same ∙ safe.1),
      )
    where
      kept :
          (d d0 : Disk) (env marker pid : Text)
          → content d j ≡ (
              if pid_path name == j
              then some pid
              else if synced_path name == j
              then some marker
              else if path name == j
              then some env
              else content d0 j)
          → (if any_of (λ k. k == j) (forgotten W name) then none else content d j) ≡ (
              if any_of (λ k. k == j) (forgotten W name)
              then none
              else if path name == j
              then some env
              else content d0 j)
      kept d d0 env marker pid stored = ground (arith, stored)
