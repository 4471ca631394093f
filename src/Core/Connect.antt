-- ===== src/Core/Connect.antt =====
-- Connect and Stop of go/core.go. The TUN descriptor's events go along, the newest first.
pub mod Laws
pub mod Tests
use caravel.Prelude.{
  ℤ, pos, pos_part, ltb, Bool, true, false, Option, none, some, List, [], ◌∷◌, if◌then◌else◌,
  Result, ok, err, panic, dup_tun_fd, tun_from_fd,
}
use caravel.Prelude.Text.{Text}
use caravel.Json.{Codec}
use caravel.Crypto.{Primitives}
use caravel.Disk.{Disk}
use caravel.Profile.Endpoint.{Words}
use caravel.Profile.Store.{Store}
use caravel.Profile.Tunnel.{tunnel, xray_tunnel}
use caravel.Profile.Types
use caravel.Profile.Types.{
  ProfileJson, ClientProfile, Node, protocol_amnezia_wg, protocol_xray_reality,
}
use caravel.Core.Resolve.{resolve, mtu_over}
use caravel.Vp.Device.{Event, Io, dup_fd, close_fd, open_dev, close_dev, Awg, up}
use caravel.Vp.Engine
use caravel.Vp.Engine.{Config}
use caravel.Vp.Xray.{Xray, XrayConfig, ClientConfig, up_xray}

-- Session: the engine that runs, none of the two after Stop.
pub record Session : Type 0 where
  pub awg : Bool
  pub xray : Bool
  pub proto : Text
  pub endpoint : Text

-- The platform: whether unix.Dup and CreateTUNFromFile succeed, base64, and the engines.
pub record Platform : Type 0 where
  pub dups : Bool
  pub makes_tun : ℤ → Bool
  pub decode_base64 : Text → Option Text
  pub awg : Awg
  pub xray : Xray
  pub xray_json : Codec ClientConfig

-- toVPObfuscation
unfoldable pub to_vp_obfuscation : Types.Obfuscation → Engine.Obfuscation
to_vp_obfuscation o = record {
  jc = o.jc;
  jmin = o.jmin;
  jmax = o.jmax;
  s1 = o.s1;
  s2 = o.s2;
  s3 = o.s3;
  s4 = o.s4;
  h1 = o.h1;
  h2 = o.h2;
  h3 = o.h3;
  h4 = o.h4;
  i1 = o.i1;
  i2 = o.i2;
  i3 = o.i3;
  i4 = o.i4;
  i5 = o.i5;
}

-- The vp.Config of a tunnel.
unfoldable pub config_of : Types.Tunnel → Config
unfolding to_vp_obfuscation
config_of t = record {
  private_key = t.private_key;
  server_public_key = t.server_public_key;
  preshared_key = t.preshared_key;
  endpoint = t.endpoint;
  allowed_ips = t.allowed_ips;
  keepalive = t.keepalive;
  obfuscation = to_vp_obfuscation t.obfuscation;
}

-- The vp.XRayConfig of a tunnel, with the MTU of its device.
unfoldable pub xray_config_of : Types.XrayTunnel → ℤ → XrayConfig
xray_config_of t mtu = record {
  uuid = t.uuid;
  flow = t.flow;
  endpoint = t.endpoint;
  public_key = t.public_key;
  server_name = t.server_name;
  short_id = t.short_id;
  fingerprint = t.fingerprint;
  allowed_ips = t.allowed_ips;
  mtu = mtu;
}

-- `if err != nil { _ = dev.Close(); return nil, err }`, and otherwise the session.
abbrev pub started : Session → Result (Unit {0}) × List Event → Result Session × List Event
started s (ok _, events) = (ok s, events)
started s (err e, events) = (err e, close_dev ∷ events)
started s (panic, events) = (panic, events)

-- CreateTUNFromFile and what is started on its device.
unfoldable pub on_tun :
    Bool → ℤ → Io (Unit {0}) → Session → List Event → Result Session × List Event
on_tun makes_tun mtu run s events =
    if makes_tun then started s (run (open_dev mtu ∷ events)) else (err tun_from_fd, events)

module _ (F : Platform) where
  -- Connect from the XRay tunnel on
  unfoldable pub start_xray : Result Types.XrayTunnel → List Event → Result Session × List Event
  unfolding xray_config_of on_tun
  start_xray (err e) events = (err e, close_fd ∷ events)
  start_xray panic events = (panic, events)
  start_xray (ok t) events =
      let mtu = mtu_over t.mtu (pos 1420) in
      on_tun (F.makes_tun mtu) mtu
        (λ held. (up_xray F.xray_json F.xray (xray_config_of t mtu), held))
        (record { awg = false; xray = true; proto = protocol_xray_reality; endpoint = t.endpoint })
        events

  -- Connect from the AmneziaWG tunnel on
  unfoldable pub start_awg : Result Types.Tunnel → List Event → Result Session × List Event
  unfolding config_of on_tun
  start_awg (err e) events = (err e, close_fd ∷ events)
  start_awg panic events = (panic, events)
  start_awg (ok t) events =
      let mtu = mtu_over t.mtu (pos 1420) in
      on_tun (F.makes_tun mtu) mtu (up F.decode_base64 F.awg (config_of t))
        (record { awg = true; xray = false; proto = protocol_amnezia_wg; endpoint = t.endpoint })
        events

module _ (J : ProfileJson) (F : Platform) where
  -- Connect after resolve, on whether unix.Dup succeeds and on the protocol.
  unfoldable pub after_dup : Bool → Words → Node → Bool → Result Session × List Event
  unfolding start_xray start_awg
  after_dup false w n xray = (err dup_tun_fd, [])
  after_dup true w n true = start_xray F (xray_tunnel J w n) (dup_fd ∷ [])
  after_dup true w n false = start_awg F (tunnel J w n) (dup_fd ∷ [])

  unfoldable pub connect_resolved :
      Words → Result (ClientProfile × Node × Bool) → Result Session × List Event
  unfolding after_dup
  connect_resolved w (err e) = (err e, [])
  connect_resolved w panic = (panic, [])
  connect_resolved w (ok (cp, n, xray)) = after_dup F.dups w n xray

module _ (P : Primitives) (J : ProfileJson) (F : Platform) where
  -- Connect
  unfoldable pub connect :
      Option Store → Disk → Words → Text → Text → Text → Result Session × List Event
  unfolding connect_resolved
  connect s d w bundle_name profile_name proto_pref =
      connect_resolved J F w (resolve P J s d bundle_name profile_name proto_pref)

-- (*Session).Stop: the AmneziaWG device's Close closes the TUN, the XRay tunnel's does not.
unfoldable pub stop : Session → List Event → Session × List Event
stop s events =
    (record s { awg = false; xray = false }, if s.awg then close_dev ∷ events else events)
