-- ===== src/Core/Resolve/Laws.antt =====
-- What Prepare tells the platform.
use mathlib.Core.Path.{subst}
use caravel.Prelude.{
  ℤ, pos, pos_part, ltb, ◌≡◌, refl, sym, ap, ◌∙◌, Bool, true, false, Option, List, [], ◌∷◌,
  is_empty, if◌then◌else◌, ok, or_err, ok-injective, >>=-eq-ok, not_initialized,
}
use caravel.Prelude.Text.{Text}
use caravel.Crypto.{Primitives}
use caravel.Disk.{Disk}
use caravel.Profile.Endpoint.{Words}
use caravel.Profile.Parse.{parse}
use caravel.Profile.Select.{select, node}
use caravel.Profile.Store.{Store, raw_of}
use caravel.Profile.Tunnel.{tunnel, xray_tunnel, amnezia_wg, xray_reality, dial_endpoint}
use caravel.Profile.Endpoint.{pick_endpoint}
use caravel.Profile.Types.{
  ProfileJson, ClientProfile, Node, Tunnel, XrayTunnel, all_routes, protocol_xray_reality,
  protocol_amnezia_wg,
}
use caravel.Core.Resolve.{
  NetParams, no_options, use_xray, mtu_over, resolve, tunnel_params, prepare,
}

pub mtu_over-default : (m : ℤ) → m ≡ pos 1420 → mtu_over m (pos 1420) ≡ pos 1420
mtu_over-default m e = rw e refl

module _ (P : Primitives) (J : ProfileJson) where
  pub xray_tunnel-mtu :
      (w : Words) (n : Node) (t : XrayTunnel) → xray_tunnel J w n ≡ ok t → t.mtu ≡ pos 1420
  unfolding xray_tunnel
  xray_tunnel-mtu w n t h =
      let (x, _, h1) = >>=-eq-ok (xray_reality J n) _ h in
      let (e, _, h2) = >>=-eq-ok (pick_endpoint w x.endpoints n.endpoints) _ h1 in
      sym (ap (λ (r : XrayTunnel). r.mtu) (ok-injective _ t h2))

  pub tunnel-mtu : (w : Words) (n : Node) (t : Tunnel) → tunnel J w n ≡ ok t → t.mtu ≡ pos 1420
  unfolding tunnel
  tunnel-mtu w n t h =
      let (a, _, h1) = >>=-eq-ok (amnezia_wg J n) _ h in
      let (e, _, h2) = >>=-eq-ok (dial_endpoint w a n.endpoints) _ h1 in
      sym (ap (λ (r : Tunnel). r.mtu) (ok-injective _ t h2))

  tunnel_params-mtu :
      (w : Words) (n : Node) (xray : Bool) (np : NetParams)
      → tunnel_params P J w n xray ≡ ok np
      → (np.mtu ≡ pos 1420)
        × (np.proto ≡ (if xray then protocol_xray_reality else protocol_amnezia_wg))
  unfolding tunnel_params
  tunnel_params-mtu w n true np h =
      let (t, e, h1) = >>=-eq-ok (xray_tunnel J w n) _ h in
      let same = ok-injective _ np h1 in
      (
        sym (ap (λ (r : NetParams). r.mtu) same) ∙ mtu_over-default t.mtu (xray_tunnel-mtu w n t e),
        sym (ap (λ (r : NetParams). r.proto) same),
      )
  tunnel_params-mtu w n false np h =
      let (t, e, h1) = >>=-eq-ok (tunnel J w n) _ h in
      let same = ok-injective _ np h1 in
      (
        sym (ap (λ (r : NetParams). r.mtu) same) ∙ mtu_over-default t.mtu (tunnel-mtu w n t e),
        sym (ap (λ (r : NetParams). r.proto) same),
      )

  routes_some :
      (routes : List Text) → is_empty (if is_empty routes then all_routes else routes) ≡ false
  routes_some [] = refl
  routes_some (r ∷ rs) = refl

  resolve-use_xray :
      (s : Option Store) (d : Disk) (bundle_name profile_name proto_pref : Text)
      (r : ClientProfile × Node × Bool)
      → resolve P J s d bundle_name profile_name proto_pref ≡ ok r
      → r.2 ≡ use_xray r.0 proto_pref
  unfolding resolve
  resolve-use_xray s d bundle_name profile_name proto_pref r h =
      let (_, _, h1) = >>=-eq-ok (or_err s not_initialized) _ h in
      let (raw, _, h2) = >>=-eq-ok (raw_of bundle_name d) _ h1 in
      let (p, _, h3) = >>=-eq-ok (parse P J raw no_options) _ h2 in
      let (cp, _, h4) = >>=-eq-ok (select p profile_name) _ h3 in
      let (n, _, h5) = >>=-eq-ok (node cp []) _ h4 in
      let same =
        ok-injective {A = ClientProfile × Node × Bool} (cp, n, use_xray cp proto_pref) r h5 in
      subst (λ (q : ClientProfile × Node × Bool). q.2 ≡ use_xray q.0 proto_pref) same refl

  -- What Prepare returns is for the profile and the node that `resolve` decides on: the MTU is the
  -- profile's where it is positive and 1420 elsewhere, there is a route, and the protocol is XRay
  -- just where `resolve` decides on it, for a profile of both protocols by the preference, and for
  -- any other by its own protocol.
  pub prepare-params :
      (s : Option Store) (d : Disk) (w : Words) (bundle_name profile_name proto_pref : Text)
      (np : NetParams)
      → prepare P J s d w bundle_name profile_name proto_pref ≡ ok np
      → (cp : ClientProfile) × (n : Node) × (resolve P J s d bundle_name profile_name proto_pref
          ≡ ok (cp, n, use_xray cp proto_pref))
        × (np.mtu ≡ (if ltb 0 (pos_part cp.mtu) then cp.mtu else pos 1420))
        × (is_empty np.routes ≡ false)
        × (np.proto
            ≡ (if use_xray cp proto_pref then protocol_xray_reality else protocol_amnezia_wg))
  unfolding prepare
  prepare-params s d w bundle_name profile_name proto_pref np h =
      let ((cp, n, x), e, h1) =
        >>=-eq-ok (resolve P J s d bundle_name profile_name proto_pref) _ h in
      let (base, e2, h2) = >>=-eq-ok (tunnel_params P J w n x) _ h1 in
      let same = ok-injective _ np h2 in
      let chosen = resolve-use_xray s d bundle_name profile_name proto_pref (cp, n, x) e in
      let (mtu, proto) = tunnel_params-mtu w n x base e2 in
      (
        cp,
        n,
        e ∙ ap (λ (b : Bool). ok (cp, n, b)) chosen,
        sym (ap (λ (r : NetParams). r.mtu) same) ∙ ap (mtu_over cp.mtu) mtu,
        ap (λ (r : NetParams). is_empty r.routes) (sym same) ∙ routes_some base.routes,
        ap (λ (r : NetParams). r.proto) (sym same)
            ∙ (proto
                ∙ ap (λ (b : Bool). if b then protocol_xray_reality else protocol_amnezia_wg)
                    chosen),
      )
