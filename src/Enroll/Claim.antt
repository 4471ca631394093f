-- ===== src/Enroll/Claim.antt =====
-- Claim, claimRPC and validateAssembled of go/enroll/claim.go. The relay and the controller behind it
-- are the fields of `Relay`.
pub mod Steps
pub mod Laws
use caravel.Prelude.{
  ℕ, pos, Bool, not, ◌&&◌, ◌||◌, Option, some, none, List, [], ◌∷◌, length, eqb, is_empty,
  if◌then◌else◌, Result, ok, err, ◌>>=◌, ◌>>◌, reject_if, or_err, as_err, bad_encryption_pub_size,
  dial_relay, claim_failed, claim_incomplete, ca_mismatch, key_mismatch,
}
use caravel.Prelude.Text.{Text, ◌==◌}
use caravel.Json.{Codec}
use caravel.Crypto.{
  Primitives, Draw, CsrMaker, KeyPair, DeviceKeypair, generate_device_csr, generate_key_pair,
}
use caravel.DeviceId.{
  Bundle, Pem, format_tag, format_version, encode_encryption_key, encryption_private_key, marshal,
  parse,
}
use caravel.Enroll.Fingerprint.{normalize_fingerprint, equal_fingerprint}
use caravel.Enroll.Link.{Link}
use caravel.Enroll.Pin.{Cert, Pki, RelayPin, verify_connection, verify}

abbrev pub x25519_key_size : ℕ
x25519_key_size = 32

-- accountv1.ClaimEnrollmentRequest
pub record ClaimRequest : Type 0 where
  pub token : Text
  pub csr_pem : Text
  pub encryption_pubkey : Text
  pub device_name : Text
  pub platform : Text

-- accountv1.ClaimEnrollmentResponse
pub record ClaimResponse : Type 0 where
  pub device_cert_pem : Text
  pub fleet_ca_pem : Text
  pub relay_addr : Text
  pub relay_server_name : Text
  pub ca_fingerprint : Text
  pub signing_public_key : Text

-- The other side: whether grpc.NewClient takes an address, the chain that is presented there, and the
-- answer to a claim.
pub record Relay : Type 0 where
  pub dials : Text → Bool
  pub presents : Text → List Cert
  pub answer : Text → ClaimRequest → Option ClaimResponse

-- claimRPC, with the pin that the handshake has filled.
unfoldable pub claim_rpc :
    Relay → Link → Text → Text → Text → Text → RelayPin → Result (ClaimResponse × RelayPin)
claim_rpc relay link csr_pem enc_pub device_name platform pin = do
  reject_if (not (eqb (length enc_pub) x25519_key_size)) bad_encryption_pub_size
  reject_if (not (relay.dials link.relay)) dial_relay
  captured ← as_err (verify_connection (relay.presents link.relay) pin) claim_failed
  resp ←
      or_err
        (relay.answer link.relay (record {
          token = link.token;
          csr_pem = csr_pem;
          encryption_pubkey = enc_pub;
          device_name = device_name;
          platform = platform;
        }))
        claim_failed
  reject_if (is_empty resp.device_cert_pem || (is_empty resp.fleet_ca_pem || resp.relay_addr == []))
      claim_incomplete
  ok (resp, captured)

-- Where the claim gets its randomness and its keys from.
pub record Device : Type 0 where
  pub make_csr : CsrMaker
  pub draw : Draw

module _ (E : Pem) (J : Codec Bundle) (K : Pki) where
  -- validateAssembled
  unfoldable pub validate_assembled : Bundle → Result (Unit {0})
  validate_assembled b = do
    raw ← marshal J b
    parsed ← parse J raw
    reject_if (not (K.is_key_pair parsed.device_cert_pem parsed.device_key_pem)) key_mismatch
    _ ← encryption_private_key E parsed
    ok tt

-- The bundle that Claim assembles.
unfoldable pub assemble : Link → Text → DeviceKeypair → Text → ClaimResponse → Bundle
assemble link device_name dk enc_key_pem resp = record {
  fmt = format_tag;
  v = pos format_version;
  user = [];
  alias = device_name;
  relay_addr = resp.relay_addr;
  relay_server_name = resp.relay_server_name;
  ca_fingerprint = if resp.ca_fingerprint == [] then link.ca_fingerprint else resp.ca_fingerprint;
  fleet_ca_pem = resp.fleet_ca_pem;
  device_cert_pem = resp.device_cert_pem;
  device_key_pem = dk.key_pem;
  signing_public_key = resp.signing_public_key;
  encryption_key_pem = enc_key_pem;
}

module _ (P : Primitives) (E : Pem) (J : Codec Bundle) (K : Pki) where
  -- Claim
  unfoldable pub claim : Device → Relay → Link → Text → Text → Result Bundle
  unfolding claim_rpc assemble
  claim device relay link device_name platform = do
    dk ← generate_device_csr device.make_csr device_name
    enc ← generate_key_pair P device.draw
    let pin : RelayPin = record {
      want_root = normalize_fingerprint link.ca_fingerprint;
      chain = [];
    }
    (resp, captured) ← claim_rpc relay link dk.csr_pem enc.public device_name platform pin
    reject_if
        (not (resp.ca_fingerprint == [])
          && not (equal_fingerprint resp.ca_fingerprint link.ca_fingerprint))
        (ca_mismatch resp.ca_fingerprint link.ca_fingerprint)
    verify K captured resp.fleet_ca_pem
    enc_key_pem ← encode_encryption_key E enc.private
    let b : Bundle = assemble link device_name dk enc_key_pem resp
    validate_assembled E J K b
    ok b
