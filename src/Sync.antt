-- ===== src/Sync.antt =====
-- go/sync/client.go: Dial, Reachable and Fetch. Crypto randomness and the network are parameters.
pub mod Calls
pub mod CallsLaws
pub mod Laws
pub mod Checks
pub mod Fetch
pub mod Tests
pub mod Open
use caravel.Prelude.{
  ℤ, Bool, true, false, not, ◌&&◌, Option, none, some, List, [], ◌∷◌, if◌then◌else◌, Result, ok,
  err, panic, reject_if, or_err, device_leaf, invalid_fleet_ca, dial_relay,
}
use caravel.Prelude
use caravel.Prelude.Text.{Text, ◌==◌}
use caravel.Crypto.{Primitives, CryptoJson, Draw, KeyPair, generate_key_pair, wrap_private_key}
use caravel.DeviceId.{Bundle, Pem, encryption_private_key}
use caravel.Enroll.Pin.{Cert, Pki}
use caravel.Sync.Calls.{
  Session, Service, Login, RemoteProfile, ◌>>=◌, ◌>>◌, local, log_in, enroll, pull,
}
use caravel.Sync.Open.{decryption_key, open_profile}

-- Result
pub record Fetched : Type 0 where
  pub user_id : Text
  pub revision : ℤ
  pub plaintext : Text
  pub sealed : Text
  pub signer_public : Text
  pub device_key : Text

-- What package net does for the client: whether grpc.NewClient takes an address, and whether a TLS
-- dial of an address succeeds in time with the roots, the leaf and the server name given.
pub record Network : Type 0 where
  pub new_client : Text → Bool
  pub dial_tls : List Cert → Text → Text → Text → Bool

-- Where the first device's key pair and its wrapping come from.
pub record Randomness : Type 0 where
  pub key : Draw
  pub salt : Draw
  pub nonce : Draw

module _ (K : Pki) (net : Network) where
  -- Dial
  unfoldable pub dial : Bundle → Result (Unit {0})
  dial b =
      if not (K.is_key_pair b.device_cert_pem b.device_key_pem)
      then err device_leaf
      else elim (K.pool_of b.fleet_ca_pem) [
        | none ↦ err invalid_fleet_ca
        | some roots ↦ reject_if (not (net.new_client b.relay_addr)) dial_relay
      ]

  -- Reachable
  unfoldable pub reachable : Bundle → Bool
  reachable b =
      if not (K.is_key_pair b.device_cert_pem b.device_key_pem)
      then false
      else elim (K.pool_of b.fleet_ca_pem) [
        | none ↦ false
        | some roots ↦ net.dial_tls roots b.device_cert_pem b.relay_server_name b.relay_addr
      ]

-- The password that Fetch logs in with.
abbrev pub auth_pass : Text → Text → Text
auth_pass email password = if email == [] then [] else password

module _ (P : Primitives) (J : CryptoJson) (S : Service) where
  -- The first-device branch of Fetch.
  unfoldable pub enroll_first_device : Randomness → Option Text → Login → Text → Session (Unit {0})
  enroll_first_device rand (some _) login password = local (ok tt)
  enroll_first_device rand none login password = elim login.keys_enrolled [
    | true ↦ local (ok tt)
    | false ↦ do
      kp ← local (generate_key_pair P rand.key)
      wrapped ← local (wrap_private_key P J rand.salt rand.nonce password kp.private)
      enroll S login.session_token kp.public wrapped
  ]

  -- The end of Fetch: the profile is pulled and opened.
  unfoldable pub pull_and_open : Option Text → Text → Login → Session Fetched
  pull_and_open device_priv password login = do
    rp ← pull S login.session_token
    device_key ← local (decryption_key P J device_priv password rp.wrapped_private_key)
    plaintext ← local (open_profile P J rp device_key)
    local (
        ok (record {
          user_id = login.user_id;
          revision = rp.revision;
          plaintext = plaintext;
          sealed = rp.ciphertext;
          signer_public = rp.signing_public_key;
          device_key = device_key;
        }))

  -- Fetch after its login
  unfoldable pub after_login : Randomness → Option Text → Text → Login → Session Fetched
  unfolding enroll_first_device pull_and_open
  after_login rand device_priv password login = do
    enroll_first_device rand device_priv login password
    pull_and_open device_priv password login

  -- Fetch after Dial
  unfoldable pub exchange : Randomness → Option Text → Text → Text → Session Fetched
  unfolding after_login
  exchange rand device_priv email password = do
    login ← log_in S email (auth_pass email password)
    after_login rand device_priv password login

module _ (P : Primitives) (E : Pem) (J : CryptoJson) (K : Pki) (net : Network) (S : Service) where
  -- Fetch
  unfoldable pub fetch : Randomness → Bundle → Text → Text → Session Fetched
  unfolding exchange
  fetch rand b email password = do
    device_priv ← local (encryption_private_key E b)
    local (dial K net b)
    exchange P J S rand device_priv email password
