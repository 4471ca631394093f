-- ===== src/Samples/Joins.antt =====
-- A join link, the device that follows it, and the relay that it leads to.
use caravel.Prelude.{true, false, some, none, [], ◌∷◌}
use caravel.Prelude.Text.{bytes, ◌==◌}
use caravel.Enroll.Claim.{Relay, Device}
use caravel.Enroll.Link.{Link, UrlParser}
use caravel.Enroll.Pin.{RelayPin}
use caravel.Samples.Sealed.{device_key}

-- A parser that knows one link.
unfoldable pub url_parse : UrlParser
unfolding ◌==◌
url_parse s = elim (s == bytes "join") [
  | true ↦ some (record {
    scheme = bytes "pharosvpn";
    host = bytes "enroll";
    query =
        (bytes "relay", bytes "relay:443")
        ∷ (bytes "token", bytes " ticket ")
        ∷ (bytes "ca", bytes "0a0b")
        ∷ [];
  })
  | false ↦ none
]

abbrev pub link : Link
link = record { relay = bytes "relay:443"; token = bytes "ticket"; ca_fingerprint = bytes "0a0b" }

-- The leaf and the root whose fingerprint is pinned.
abbrev pub pin : RelayPin
pin = record { want_root = bytes "0a0b"; chain = bytes "leaf" ∷ (10 ∷ 11 ∷ []) ∷ [] }

abbrev pub device : Device
device = record {
  make_csr = λ name. some (record { csr_pem = name; key_pem = bytes "key" });
  draw = λ n. some device_key;
}

abbrev pub relay : Relay
relay = record {
  dials = λ addr. true;
  presents = λ addr. pin.chain;
  answer = λ addr req. some (record {
    device_cert_pem = bytes "cert";
    fleet_ca_pem = bytes "fleet";
    relay_addr = bytes "relay:443";
    relay_server_name = bytes "relay";
    ca_fingerprint = [];
    signing_public_key = [];
  });
}
