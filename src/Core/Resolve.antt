-- ===== src/Core/Resolve.antt =====
-- resolve and Prepare of go/core.go: what a connection dials and the parameters of its TUN device.
pub mod Laws
use caravel.Prelude.{
  ℕ, ℤ, pos, pos_part, ltb, Bool, ◌||◌, Option, none, some, List, [], ◌∷◌, is_empty, if◌then◌else◌,
  Result, ok, err, ◌>>=◌, or_err, not_initialized,
}
use caravel.Prelude.Text.{Text, bytes, ◌==◌}
use caravel.Crypto.{Primitives}
use caravel.Disk.{Disk}
use caravel.Profile.Endpoint.{Words}
use caravel.Profile.Parse.{parse}
use caravel.Profile.Select.{select, node}
use caravel.Profile.Store.{Store, raw_of}
use caravel.Profile.Tunnel.{tunnel, xray_tunnel}
use caravel.Profile.Types.{
  ProfileJson, Profile, ClientProfile, Node, Options, all_routes, protocol_both,
  protocol_xray_reality, protocol_amnezia_wg,
}

-- profile.Options{}
abbrev pub no_options : Options
no_options = record { password = []; device_key = []; signer_public = [] }

-- The protocol that resolve decides on.
unfoldable pub use_xray : ClientProfile → Text → Bool
use_xray cp proto_pref =
    if cp.protocol == protocol_both
    then proto_pref == bytes "xray" || proto_pref == protocol_xray_reality
    else cp.protocol == protocol_xray_reality

-- netParams
pub record NetParams : Type 0 where
  pub address : Text
  pub mtu : ℤ
  pub dns : List Text
  pub routes : List Text
  pub endpoint : Text
  pub proto : Text

-- `if m > 0 { mtu = m }`
abbrev pub mtu_over : ℤ → ℤ → ℤ
mtu_over m mtu = if ltb 0 (pos_part m) then m else mtu

module _ (P : Primitives) (J : ProfileJson) where
  -- resolve
  unfoldable pub resolve :
      Option Store → Disk → Text → Text → Text → Result (ClientProfile × Node × Bool)
  resolve s d bundle_name profile_name proto_pref = do
    _ ← or_err s not_initialized
    data_of ← raw_of bundle_name d
    p ← parse P J data_of no_options
    cp ← select p profile_name
    n ← node cp []
    ok (cp, n, use_xray cp proto_pref)

  -- The address, routes, endpoint, protocol and MTU of the chosen tunnel.
  unfoldable pub tunnel_params : Words → Node → Bool → Result NetParams
  tunnel_params w n xray =
      if xray
      then (do
        xt ← xray_tunnel J w n
        ok (record {
          address = xt.address;
          mtu = mtu_over xt.mtu (pos 1420);
          dns = bytes "1.1.1.1" ∷ [];
          routes = xt.allowed_ips;
          endpoint = xt.endpoint;
          proto = protocol_xray_reality;
        }))
      else (do
        t ← tunnel J w n
        ok (record {
          address = t.address;
          mtu = mtu_over t.mtu (pos 1420);
          dns = bytes "1.1.1.1" ∷ [];
          routes = t.allowed_ips;
          endpoint = t.endpoint;
          proto = protocol_amnezia_wg;
        }))

  -- Prepare, before its result is marshalled.
  unfoldable pub prepare : Option Store → Disk → Words → Text → Text → Text → Result NetParams
  unfolding resolve tunnel_params
  prepare s d w bundle_name profile_name proto_pref = do
    (cp, n, xray) ← resolve s d bundle_name profile_name proto_pref
    np ← tunnel_params w n xray
    ok (record np {
      mtu = mtu_over cp.mtu np.mtu;
      routes = if is_empty np.routes then all_routes else np.routes;
    })
