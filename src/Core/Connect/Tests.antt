-- ===== src/Core/Connect/Tests.antt =====
-- Connect and Stop at concrete inputs.
use caravel.Prelude.{◌≡◌, refl, true, false, some, [], ok, err, tun_from_fd, bring_up_tunnel}
use caravel.Prelude.Decimal.{itoa, atoi}
use caravel.Prelude.Text.{bytes, ◌==◌, trim_suffix, before_byte}
use caravel.Disk
use caravel.Disk.{Disk}
use caravel.Profile.Endpoint.{pick_endpoint, rand_port, bare_ip}
use caravel.Profile.HostPort.{join_host_port, split_host_port}
use caravel.Profile.Parse.{wrap_plaintext, header, parse}
use caravel.Profile.Select.{select, node}
use caravel.Profile.Store.{path, base, raw_of}
use caravel.Profile.Tunnel.{tunnel, xray_tunnel, amnezia_wg, xray_reality}
use caravel.Profile.Types.{protocol_xray_reality}
use caravel.Core.Connect.{Session, Platform, connect}
use caravel.Core.Connect.Laws.{IsUp, connect-IsUp, connect-is_held}
use caravel.Core.Resolve.{resolve, use_xray}
use caravel.Samples.Ciphers.{ciphers}
use caravel.Samples.Hosts.{store, envelope, stocked, words}
use caravel.Samples.Profiles.{json}
use caravel.Samples.Sealed.{device_key}
use caravel.Vp.Device.{up, is_held}
use caravel.Vp.Engine.{uapi, key_hex}
use caravel.Vp.Xray.{up_xray, atoi_int}

-- A platform on which everything succeeds.
abbrev platform : Platform
platform = record {
  dups = true;
  makes_tun = λ mtu. true;
  decode_base64 = λ s. some device_key;
  awg = record { ipc_set = λ t. true; comes_up = λ t. true };
  xray = record { free_port = some 40000; starts = λ t. true; bridges = λ mtu addr. true };
  xray_json = record { marshal = λ c. ok (bytes "config"); unmarshal = λ t. err tun_from_fd };
}

-- A platform on which the device does not come up.
abbrev down : Platform
down = record platform { awg = record { ipc_set = λ t. true; comes_up = λ t. false } }

abbrev session : Session
session = record {
  awg = false;
  xray = true;
  proto = protocol_xray_reality;
  endpoint = bytes "192.0.2.9:443";
}

connect-IsUp_example :
    IsUp session
      (connect ciphers json platform (some store) stocked words (bytes "home") [] (bytes "xray")).1
unfolding connect resolve raw_of parse select node xray_tunnel pick_endpoint bare_ip join_host_port
    itoa before_byte wrap_plaintext header path base trim_suffix Disk.read use_xray up_xray atoi_int
    atoi split_host_port xray_reality ◌==◌ stocked envelope
connect-IsUp_example =
    connect-IsUp ciphers json platform (some store) stocked words (bytes "home") [] (bytes "xray")
      session refl

connect-is_held_example :
    is_held
      (connect ciphers json down (some store) stocked words (bytes "home") [] (bytes "auto")).1
    ≡ false
unfolding connect resolve raw_of parse select node tunnel pick_endpoint rand_port bare_ip
    join_host_port itoa before_byte wrap_plaintext header path base trim_suffix Disk.read use_xray
    amnezia_wg uapi key_hex up ◌==◌ stocked envelope
connect-is_held_example =
    connect-is_held ciphers json down (some store) stocked words (bytes "home") [] (bytes "auto")
      bring_up_tunnel (λ h. cc) refl
