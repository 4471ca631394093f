-- ===== src/Vp/Xray.antt =====
-- go/vp/xray.go: the configuration of the embedded XRay client, and UpXRay. xray-core, the netstack
-- and the search for a free port are parameters.
use caravel.Prelude.{
  ℕ, ℤ, pos, negsuc, pos_part, ltb, leb, eqb, ◌-◌, Bool, true, Option, none, some, List, [], ◌∷◌,
  if◌then◌else◌, Result, ◌>>=◌, ◌>>◌, or_err, reject_if, not, bad_xray_endpoint, bad_xray_port,
  reserve_socks_port, start_xray_failed, socks_bridge,
}
use caravel.Prelude.Decimal.{atoi, itoa}
use caravel.Prelude.Text.{Text, bytes, ◌==◌}
use caravel.Json.{Codec}
use caravel.Profile.HostPort.{split_host_port, join_host_port}

abbrev pub default_xray_fingerprint : Text
default_xray_fingerprint = bytes "chrome"

abbrev pub default_tun_mtu : ℤ
default_tun_mtu = pos 1500

-- XRayConfig
pub record XrayConfig : Type 0 where
  pub uuid : Text
  pub flow : Text
  pub endpoint : Text
  pub public_key : Text
  pub server_name : Text
  pub short_id : Text
  pub fingerprint : Text
  pub allowed_ips : List Text
  pub mtu : ℤ

-- xrayInbound with its settings
pub record Inbound : Type 0 where
  pub listen : Text
  pub port : ℕ
  pub protocol : Text
  pub udp : Bool

-- xrayUser
pub record User : Type 0 where
  pub id : Text
  pub flow : Text
  pub encryption : Text

-- xrayVNext
pub record Vnext : Type 0 where
  pub address : Text
  pub port : ℤ
  pub users : List User

-- xrayRealityClient
pub record RealityClient : Type 0 where
  pub server_name : Text
  pub fingerprint : Text
  pub public_key : Text
  pub short_id : Text
  pub spider_x : Text

-- xrayOutbound with its settings and its stream
pub record Outbound : Type 0 where
  pub protocol : Text
  pub vnext : List Vnext
  pub network : Text
  pub security : Text
  pub reality : RealityClient

-- xrayClientConfig
pub record ClientConfig : Type 0 where
  pub log_level : Text
  pub inbounds : List Inbound
  pub outbounds : List Outbound

-- strconv.Atoi of a magnitude: the numbers that a 64-bit int has.
signed : Bool → Option ℕ → Option ℤ
signed neg none = none
signed neg (some n) =
    if neg
    then if eqb n 0
      then some (pos 0)
      else if leb n 9223372036854775808
      then some (negsuc (n - 1))
      else none
    else if ltb n 9223372036854775808
    then some (pos n)
    else none

-- strconv.Atoi
unfoldable pub atoi_int : Text → Option ℤ
unfolding signed
atoi_int [] = none
atoi_int (c ∷ s) =
    if eqb c b'-'
    then signed true (atoi s)
    else if eqb c b'+'
    then signed Bool.false (atoi s)
    else signed Bool.false (atoi (c ∷ s))

-- The configuration that clientJSON marshals.
unfoldable pub client_config : XrayConfig → ℕ → Text → ℤ → ClientConfig
client_config cfg socks_port host port = record {
  log_level = bytes "warning";
  inbounds =
      record { listen = bytes "127.0.0.1"; port = socks_port; protocol = bytes "socks"; udp = true }
      ∷ [];
  outbounds =
      record {
        protocol = bytes "vless";
        vnext =
            record {
              address = host;
              port = port;
              users = record { id = cfg.uuid; flow = cfg.flow; encryption = bytes "none" } ∷ [];
            }
            ∷ [];
        network = bytes "tcp";
        security = bytes "reality";
        reality = record {
          server_name = cfg.server_name;
          fingerprint = if cfg.fingerprint == [] then default_xray_fingerprint else cfg.fingerprint;
          public_key = cfg.public_key;
          short_id = cfg.short_id;
          spider_x = bytes "/";
        };
      }
      ∷ [];
}

-- The third-party side: a free loopback port, whether xray-core starts with a configuration, and
-- whether the bridge stands up on a TUN of an MTU for a SOCKS address.
pub record Xray : Type 0 where
  pub free_port : Option ℕ
  pub starts : Text → Bool
  pub bridges : ℤ → Text → Bool

module _ (J : Codec ClientConfig) where
  -- clientJSON
  unfoldable pub client_json : XrayConfig → ℕ → Result Text
  unfolding atoi_int client_config
  client_json cfg socks_port = do
    (host, port_text) ← or_err (split_host_port cfg.endpoint) bad_xray_endpoint
    port ← or_err (atoi_int port_text) bad_xray_port
    J.marshal (client_config cfg socks_port host port)

  -- UpXRay. It never closes the TUN device.
  unfoldable pub up_xray : Xray → XrayConfig → Result (Unit {0})
  unfolding client_json
  up_xray X cfg = do
    socks_port ← or_err X.free_port reserve_socks_port
    cfg_json ← client_json cfg socks_port
    reject_if (not (X.starts cfg_json)) start_xray_failed
    reject_if
        (not (
          X.bridges (if ltb 0 (pos_part cfg.mtu) then cfg.mtu else default_tun_mtu)
            (join_host_port (bytes "127.0.0.1") (itoa socks_port))))
        socks_bridge
