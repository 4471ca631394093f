-- ===== src/Samples/Services.antt =====
-- A controller that has issued one profile, and the way to it.
use caravel.Prelude.{pos, true, some, []}
use caravel.Prelude.Text.{bytes}
use caravel.Sync.{Network, Randomness}
use caravel.Sync.Calls.{Login, RemoteProfile, Service, issued}
use caravel.Samples.Sealed.{device_key, nonce24, salt16, sealed_text, signer}

abbrev pub login : Login
login = record { session_token = bytes "token"; user_id = bytes "user"; keys_enrolled = true }

abbrev pub remote : RemoteProfile
remote = record {
  ciphertext = sealed_text;
  revision = pos 3;
  signing_public_key = signer;
  wrapped_private_key = [];
}

abbrev pub service : Service
service = record {
  authenticates = λ calls email password. some login;
  enrolls = λ calls token public_key wrapped. true;
  gives = λ calls token. issued remote;
}

abbrev pub network : Network
network = record { new_client = λ addr. true; dial_tls = λ roots cert name addr. true }

abbrev pub randomness : Randomness
randomness = record {
  key = λ n. some device_key;
  salt = λ n. some salt16;
  nonce = λ n. some nonce24;
}
