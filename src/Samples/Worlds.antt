-- ===== src/Samples/Worlds.antt =====
-- The surroundings of a caravel process on a Linux host where everything succeeds.
use caravel.Prelude.{true, false, none, some, []}
use caravel.Prelude.Text.{bytes}
use caravel.Routes.{Linux}
use caravel.Samples.Ciphers.{ciphers}
use caravel.Samples.Codecs.{pem, bundle_codec}
use caravel.Samples.Devices.{pki}
use caravel.Samples.Hosts.{host, markers}
use caravel.Samples.Profiles.{json}
use caravel.Samples.Sealed.{device_key}
use caravel.Samples.Services.{service, network, randomness}
use caravel.Cli.Process.{World}
use caravel.Profile.Store.{globbed}

-- A Linux host on which every command succeeds.
abbrev pub linux : Linux
linux = record {
  accepts = λ ran c. true;
  resolve_ip4 = λ host. some host;
  route_get = λ ip. some (bytes "192.0.2.9 via 10.1.1.1 dev eth0 src 10.1.1.7");
  makes_tun = λ mtu. true;
  dev_name = some (bytes "pharos0");
  decode_base64 = λ s. some device_key;
  awg = record { ipc_set = λ t. true; comes_up = λ t. true };
}

abbrev pub world : World
world = record {
  primitives = ciphers;
  pem = pem;
  profile_json = json;
  bundle_json = bundle_codec;
  marker_json = markers;
  pki = pki;
  network = network;
  host = host;
  urls = λ s. none;
  device = record { make_csr = λ name. none; draw = λ n. some device_key };
  relay = record { dials = λ addr. false; presents = λ addr. []; answer = λ addr req. none };
  service = service;
  randomness = randomness;
  words = record { entry = 0; port = 2 };
  mkdir_all = λ dir. true;
  glob = globbed;
  caravel_home = [];
  stdin = none;
  is_root = true;
  linux = some linux;
}
