-- ===== src/Samples/Profiles.antt =====
-- A profile document with two nodes, its envelopes and the store that holds them.
use caravel.Prelude.{pos, some, none, List, [], ◌∷◌, ◌++◌, false}
use caravel.Prelude.Text.{Text, bytes}
use caravel.Disk.{Disk}
use caravel.Profile.Types.{
  Profile, ClientProfile, Node, PathHop, Protocol, EndpointPool, AmneziaWg, XrayReality,
  Obfuscation, ProfileJson, Envelope, KdfParams, Options, format_tag, enc_password, protocol_both,
  protocol_amnezia_wg, protocol_xray_reality,
}
use caravel.Samples.Ciphers.{pad}
use caravel.Samples.Codecs.{profile_json}
use caravel.Samples.Sealed.{value_of, nonce24, salt16}

abbrev pub pool : List EndpointPool
pool =
    record { ip = []; port_min = pos 0; port_max = pos 0 }
    ∷ record { ip = bytes "192.0.2.1"; port_min = pos 1000; port_max = pos 1003 }
    ∷ []

abbrev pub obfuscation : Obfuscation
obfuscation = record {
  jc = 4;
  jmin = 40;
  jmax = 70;
  s1 = 0;
  s2 = 0;
  s3 = 0;
  s4 = 0;
  h1 = 1;
  h2 = 2;
  h3 = 3;
  h4 = 4;
  i1 = [];
  i2 = [];
  i3 = [];
  i4 = [];
  i5 = [];
}

abbrev pub awg : AmneziaWg
awg = record {
  private_key = bytes "priv";
  address = bytes "10.0.0.2/32";
  public_key = bytes "pub";
  preshared_key = [];
  endpoints = pool;
  allowed_ips = [];
  obfuscation = obfuscation;
}

abbrev pub xray : XrayReality
xray = record {
  uuid = bytes "uuid";
  flow = [];
  address = bytes "10.0.0.2";
  public_key = bytes "pub";
  server_name = bytes "example.org";
  short_id = [];
  fingerprint = [];
  endpoints = [];
  allowed_ips = [];
}

abbrev pub protocols : List Protocol
protocols =
    record { type = protocol_amnezia_wg; v = pos 1; params = bytes "awg" }
    ∷ record { type = protocol_xray_reality; v = pos 1; params = bytes "xray" }
    ∷ []

abbrev pub exit_node : Node
exit_node = record {
  id = bytes "exit";
  name = bytes "Exit";
  region = [];
  endpoints = bytes "192.0.2.9" ∷ [];
  protocols = protocols;
}

abbrev pub entry_node : Node
entry_node = record exit_node { id = bytes "entry"; name = bytes "Entry" }

abbrev pub hop : PathHop
hop = record {
  id = bytes "entry";
  name = bytes "Entry";
  region = [];
  role = bytes "entry";
  ips = [];
}

-- A cascade whose entry hop is its second node.
abbrev pub cascade : ClientProfile
cascade = record {
  id = bytes "p1";
  name = bytes "Cascade";
  protocol = protocol_both;
  nodes = exit_node ∷ entry_node ∷ [];
  path = some (record { name = bytes "path"; hops = hop ∷ [] });
  mtu = pos 1280;
}

-- The same cascade without the node of its entry hop.
abbrev pub broken_cascade : ClientProfile
broken_cascade = record cascade { nodes = exit_node ∷ [] }

abbrev pub document : Profile
document = record {
  fleet_id = bytes "fleet";
  user = bytes "user";
  revision = pos 3;
  issued_at = [];
  expires_at = [];
  profiles = cascade ∷ [];
  control = none;
}

abbrev pub json : ProfileJson
json = profile_json document awg xray

abbrev pub no_options : Options
no_options = record { password = []; device_key = []; signer_public = [] }

abbrev pub with_password : Options
with_password = record no_options { password = bytes "pass" }

abbrev pub kdf : KdfParams
kdf = record { algo = bytes "argon2id"; time = 1; memory = 65536; threads = 4; salt = salt16 }

-- A password envelope and its additional data.
abbrev pub locked_header : Envelope
locked_header = record {
  fmt = format_tag;
  v = pos 1;
  enc = enc_password;
  kdf = some kdf;
  nonce = nonce24;
  payload = [];
}

abbrev pub locked_ad : Text
locked_ad = value_of (json.envelope.marshal locked_header)

abbrev pub locked_key : Text
locked_key = pad 32 (bytes "pass" ++ salt16)

abbrev pub locked : Envelope
locked = record locked_header { payload = (locked_key ++ nonce24 ++ locked_ad) ++ bytes "profile" }

abbrev pub locked_text : Text
locked_text = value_of (json.envelope.marshal locked)

-- The same file with its nonce cut off.
abbrev pub cut : Envelope
cut = record locked { nonce = bytes "short" }

abbrev pub cut_text : Text
cut_text = value_of (json.envelope.marshal cut)

-- An empty disk that refuses nothing.
abbrev pub blank : Disk
blank = record { files = []; is_locked = λ _. false; is_unreadable = λ _. false }
