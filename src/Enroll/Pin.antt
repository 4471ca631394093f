-- ===== src/Enroll/Pin.antt =====
-- relayPin of go/enroll/claim.go: what the claim's connection is checked against.
pub mod Laws
use caravel.Prelude.{
  Bool, not, Option, List, [], ◌∷◌, any_of, is_empty, if◌then◌else◌, Result, ok, err, ◌>>=◌, ◌>>◌,
  reject_if, or_err, no_relay_cert, no_fleet_ca, unparsable_fleet_ca, leaf_not_issued,
}
use caravel.Prelude.Text.{Text, ◌==◌}
use caravel.Enroll.Fingerprint.{cert_fingerprint}

-- A certificate, by its DER.
abbrev pub Cert : Type 0
Cert = Text

-- What crypto/x509, crypto/tls and crypto/sha256 decide.
pub record Pki : Type 0 where
  pub sha256 : Text → Text
  -- AppendCertsFromPEM: the certificates of a PEM text, `none` where it holds none
  pub pool_of : Text → Option (List Cert)
  -- leaf.Verify for server authentication, with intermediates and roots
  pub issues : List Cert → List Cert → Cert → Bool
  -- whether tls.X509KeyPair accepts a certificate and a key
  pub is_key_pair : Text → Text → Bool

-- relayPin
pub record RelayPin : Type 0 where
  pub want_root : Text
  pub chain : List Cert

-- The VerifyConnection callback of tlsConfig: every chain but the empty one is captured.
unfoldable pub verify_connection : List Cert → RelayPin → Result RelayPin
verify_connection [] pin = err no_relay_cert
verify_connection (c ∷ cs) pin = ok (record pin { chain = c ∷ cs })

module _ (K : Pki) where
  -- A presented certificate has the pinned fingerprint.
  abbrev pub reaches_root : RelayPin → Bool
  reaches_root pin = any_of (λ c. cert_fingerprint K.sha256 c == pin.want_root) pin.chain

  verify_leaf : List Cert → List Cert → Result (Unit {0})
  verify_leaf roots [] = err no_relay_cert
  verify_leaf roots (leaf ∷ inter) = reject_if (not (K.issues inter roots leaf)) leaf_not_issued

  verify_issued : RelayPin → Text → Result (Unit {0})
  unfolding verify_leaf
  verify_issued pin fleet_ca_pem = do
    reject_if (is_empty fleet_ca_pem) no_fleet_ca
    roots ← or_err (K.pool_of fleet_ca_pem) unparsable_fleet_ca
    verify_leaf roots pin.chain

  -- (*relayPin).verify
  unfoldable pub verify : RelayPin → Text → Result (Unit {0})
  unfolding verify_issued
  verify pin fleet_ca_pem =
      if is_empty pin.chain
      then err no_relay_cert
      else if reaches_root pin
      then ok tt
      else verify_issued pin fleet_ca_pem
