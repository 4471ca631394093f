-- ===== src/Samples/Devices.antt =====
-- A device's bundle and the relay that it knows.
use caravel.Prelude.{pos, true, some, none, [], ◌∷◌, if◌then◌else◌}
use caravel.Prelude.Text.{Text, bytes, ◌==◌}
use caravel.DeviceId.{Bundle, format_tag, encryption_key_pem_type}
use caravel.Enroll.Pin.{Pki}
use caravel.Samples.Codecs.{pem, bundle_codec}
use caravel.Samples.Sealed.{value_of, device_key}

-- The bundle of an enrolled device with the key of its profiles.
abbrev pub bundle : Bundle
bundle = record {
  fmt = format_tag;
  v = pos 1;
  user = [];
  alias = bytes "laptop";
  relay_addr = bytes "relay:443";
  relay_server_name = bytes "relay";
  ca_fingerprint = bytes "0a0b";
  fleet_ca_pem = bytes "fleet";
  device_cert_pem = bytes "cert";
  device_key_pem = bytes "key";
  signing_public_key = [];
  encryption_key_pem =
      pem.encode (record { type = encryption_key_pem_type; contents = device_key });
}

abbrev pub bundle_text : Text
bundle_text = value_of (bundle_codec.marshal bundle)

-- A certificate's digest is its own text; the fleet CA issues the leaf "leaf".
abbrev pub pki : Pki
unfolding ◌==◌
pki = record {
  sha256 = λ der. der;
  pool_of = λ pem_text. if pem_text == bytes "fleet" then some (bytes "ca" ∷ []) else none;
  issues = λ inter roots leaf. leaf == bytes "leaf";
  is_key_pair = λ cert key. true;
}
