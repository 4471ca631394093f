-- ===== src/Profile/Tunnel.antt =====
-- (*Node).Tunnel and XRayTunnel: a node's protocol entry resolved into what a shell dials.
pub mod Laws
use caravel.Prelude.{
  Bool, Option, none, some, List, [], find_first, any_of, is_empty, if◌then◌else◌, Result, ok, err,
  ◌>>=◌, as_err, no_amnezia_wg, no_xray_reality, decode_amneziawg, decode_xray_reality,
}
use caravel.Prelude.Text.{Text, bytes, ◌==◌}
use caravel.Profile.Endpoint.{Words, pick_endpoint, bare_ip}
use caravel.Profile.Types.{
  Node, Protocol, AmneziaWg, XrayReality, Tunnel, XrayTunnel, ProfileJson, protocol_amnezia_wg,
  protocol_xray_reality, all_routes, default_keepalive, default_mtu,
}

-- The protocol entry of a type: the first one.
abbrev pub entry_of : Text → Node → Option Protocol
entry_of type n = find_first (λ pr. pr.type == type) n.protocols

-- (*Node).HasXRayReality
unfoldable pub has_xray_reality : Node → Bool
has_xray_reality n = any_of (λ pr. pr.type == protocol_xray_reality) n.protocols

-- The routes of a tunnel: those of the profile, or all.
abbrev pub routes_or_all : List Text → List Text
routes_or_all allowed = if is_empty allowed then all_routes else allowed

-- (*AmneziaWG).dialEndpoint
unfoldable pub dial_endpoint : Words → AmneziaWg → List Text → Result Text
dial_endpoint w a fallback_ips = pick_endpoint w a.endpoints fallback_ips

module _ (J : ProfileJson) where
  -- (*Node).amneziaWG
  unfoldable pub amnezia_wg : Node → Result AmneziaWg
  amnezia_wg n = elim (entry_of protocol_amnezia_wg n) [
    | none ↦ err no_amnezia_wg
    | some pr ↦ as_err (J.amnezia_wg.unmarshal pr.params) decode_amneziawg
  ]

  -- (*Node).xrayReality
  unfoldable pub xray_reality : Node → Result XrayReality
  xray_reality n = elim (entry_of protocol_xray_reality n) [
    | none ↦ err no_xray_reality
    | some pr ↦ as_err (J.xray_reality.unmarshal pr.params) decode_xray_reality
  ]

  -- (*Node).Tunnel
  unfoldable pub tunnel : Words → Node → Result Tunnel
  unfolding dial_endpoint
  tunnel w n = do
    a ← amnezia_wg n
    endpoint ← dial_endpoint w a n.endpoints
    ok (record {
      node_id = n.id;
      node_name = n.name;
      private_key = a.private_key;
      server_public_key = a.public_key;
      preshared_key = a.preshared_key;
      endpoint = endpoint;
      address = bare_ip a.address;
      allowed_ips = routes_or_all a.allowed_ips;
      keepalive = default_keepalive;
      mtu = default_mtu;
      obfuscation = a.obfuscation;
    })

  -- (*Node).XRayTunnel
  unfoldable pub xray_tunnel : Words → Node → Result XrayTunnel
  xray_tunnel w n = do
    x ← xray_reality n
    endpoint ← pick_endpoint w x.endpoints n.endpoints
    ok (record {
      node_id = n.id;
      node_name = n.name;
      uuid = x.uuid;
      flow = x.flow;
      endpoint = endpoint;
      address = bare_ip x.address;
      public_key = x.public_key;
      server_name = x.server_name;
      short_id = x.short_id;
      fingerprint = if x.fingerprint == [] then bytes "chrome" else x.fingerprint;
      allowed_ips = routes_or_all x.allowed_ips;
      mtu = default_mtu;
    })
