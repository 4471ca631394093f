-- ===== src/Profile/Types.antt =====
-- The shapes of go/profile/pharos.go, and the format constants.
use caravel.Prelude.{ℕ, ℤ, pos, Option, List, [], ◌∷◌, ◌≡◌, ok}
use caravel.Prelude.Text.{Text, bytes}
use caravel.Json.{Codec}
use caravel.Crypto.{CryptoJson}

abbrev pub format_tag : Text
format_tag = bytes "pharos-profile"

abbrev pub format_version : ℕ
format_version = 1

abbrev pub extension : Text
extension = bytes ".pharos"

abbrev pub enc_none : Text
enc_none = bytes "none"

abbrev pub enc_password : Text
enc_password = bytes "password"

abbrev pub enc_account : Text
enc_account = bytes "account"

abbrev pub protocol_amnezia_wg : Text
protocol_amnezia_wg = bytes "amneziawg"

abbrev pub protocol_xray_reality : Text
protocol_xray_reality = bytes "xray-reality"

abbrev pub protocol_both : Text
protocol_both = bytes "both"

abbrev pub default_client_port : ℕ
default_client_port = 443

abbrev pub default_keepalive : ℤ
default_keepalive = pos 25

abbrev pub default_mtu : ℤ
default_mtu = pos 1420

-- []string{"0.0.0.0/0", "::/0"}
abbrev pub all_routes : List Text
all_routes = bytes "0.0.0.0/0" ∷ bytes "::/0" ∷ []

pub record KdfParams : Type 0 where
  pub algo : Text
  pub time : ℕ
  pub memory : ℕ
  pub threads : ℕ
  pub salt : Text

-- `payload` is the raw JSON text of the field, [] where it is missing.
pub record Envelope : Type 0 where
  pub fmt : Text
  pub v : ℤ
  pub enc : Text
  pub kdf : Option KdfParams
  pub nonce : Text
  pub payload : Text

pub record Options : Type 0 where
  pub password : Text
  pub device_key : Text
  pub signer_public : Text

pub record PathHop : Type 0 where
  pub id : Text
  pub name : Text
  pub region : Text
  pub role : Text
  pub ips : List Text

pub record PathView : Type 0 where
  pub name : Text
  pub hops : List PathHop

-- `params` is the raw JSON text of the field.
pub record Protocol : Type 0 where
  pub type : Text
  pub v : ℤ
  pub params : Text

pub record Node : Type 0 where
  pub id : Text
  pub name : Text
  pub region : Text
  pub endpoints : List Text
  pub protocols : List Protocol

pub record ClientProfile : Type 0 where
  pub id : Text
  pub name : Text
  pub protocol : Text
  pub nodes : List Node
  pub path : Option PathView
  pub mtu : ℤ

-- Coordinates and times are kept as their JSON texts: the program only passes them on.
pub record ControlEndpoint : Type 0 where
  pub label : Text
  pub city : Text
  pub lat : Text
  pub lon : Text

pub record Profile : Type 0 where
  pub fleet_id : Text
  pub user : Text
  pub revision : ℤ
  pub issued_at : Text
  pub expires_at : Text
  pub profiles : List ClientProfile
  pub control : Option ControlEndpoint

pub record EndpointPool : Type 0 where
  pub ip : Text
  pub port_min : ℤ
  pub port_max : ℤ

pub record Obfuscation : Type 0 where
  pub jc : ℕ
  pub jmin : ℕ
  pub jmax : ℕ
  pub s1 : ℕ
  pub s2 : ℕ
  pub s3 : ℕ
  pub s4 : ℕ
  pub h1 : ℕ
  pub h2 : ℕ
  pub h3 : ℕ
  pub h4 : ℕ
  pub i1 : Text
  pub i2 : Text
  pub i3 : Text
  pub i4 : Text
  pub i5 : Text

pub record AmneziaWg : Type 0 where
  pub private_key : Text
  pub address : Text
  pub public_key : Text
  pub preshared_key : Text
  pub endpoints : List EndpointPool
  pub allowed_ips : List Text
  pub obfuscation : Obfuscation

pub record XrayReality : Type 0 where
  pub uuid : Text
  pub flow : Text
  pub address : Text
  pub public_key : Text
  pub server_name : Text
  pub short_id : Text
  pub fingerprint : Text
  pub endpoints : List EndpointPool
  pub allowed_ips : List Text

pub record Tunnel : Type 0 where
  pub node_id : Text
  pub node_name : Text
  pub private_key : Text
  pub server_public_key : Text
  pub preshared_key : Text
  pub endpoint : Text
  pub address : Text
  pub allowed_ips : List Text
  pub keepalive : ℤ
  pub mtu : ℤ
  pub obfuscation : Obfuscation

pub record XrayTunnel : Type 0 where
  pub node_id : Text
  pub node_name : Text
  pub uuid : Text
  pub flow : Text
  pub endpoint : Text
  pub address : Text
  pub public_key : Text
  pub server_name : Text
  pub short_id : Text
  pub fingerprint : Text
  pub allowed_ips : List Text
  pub mtu : ℤ

-- The JSON codecs that the package calls. `payload` reads a base64 string into its bytes; `compact` is
-- what Marshal makes of a raw JSON text.
pub record ProfileJson : Type 0 where
  pub envelope : Codec Envelope
  pub profile : Codec Profile
  pub payload : Codec Text
  pub crypto : CryptoJson
  pub amnezia_wg : Codec AmneziaWg
  pub xray_reality : Codec XrayReality
  pub compact : Text → Text

-- Envelopes come back from JSON with their payload compacted, which does not change its meaning.
pub record EnvelopeLaws (J : ProfileJson) : Type 0 where
  pub unmarshal-marshal :
      (e : Envelope) (t : Text)
      → J.envelope.marshal e ≡ ok t
      → J.envelope.unmarshal t ≡ ok (record e { payload = J.compact e.payload })
  pub profile-compact : (t : Text) → J.profile.unmarshal (J.compact t) ≡ J.profile.unmarshal t
