-- ===== src/Enroll/Claim/Laws.antt =====
-- What an enrolled device holds.
use mathlib.Core.Path.{subst}
use caravel.Prelude.{
  ◌≡◌, refl, true, false, not, ◌&&◌, some, [], ok, >>=-eq-ok, reject_if-eq-ok, ok-injective,
  ca_mismatch, if◌then◌else◌,
}
use caravel.Prelude.Text.{Text, bytes, ◌==◌}
use caravel.Json.{Codec, RoundTrips}
use caravel.Crypto.{Primitives, KeyPair, DeviceKeypair, generate_device_csr, generate_key_pair}
use caravel.DeviceId.{Bundle, Pem, IsLawful, encode_encryption_key, encryption_private_key}
use caravel.DeviceId.Laws.{IsComplete, encryption_private_key-encode}
use caravel.Enroll.Fingerprint.{normalize_fingerprint, equal_fingerprint}
use caravel.Enroll.Link.{Link}
use caravel.Enroll.Pin.Laws.{Accepts, verify-Accepts}
use caravel.Enroll.Pin.{Pki, RelayPin, verify}
use caravel.Enroll.Claim.{
  ClaimRequest, ClaimResponse, Relay, Device, claim_rpc, validate_assembled, assemble, claim,
}
use caravel.Enroll.Claim.Steps.{
  claim_rpc-eq-ok, validate_assembled-eq-ok, assemble-with_defaults, assemble-same_ca,
  generate_device_csr-eq-ok, generate_key_pair-eq-ok,
}

module _ (P : Primitives) (E : Pem) (J : Codec Bundle) (K : Pki) (laws : RoundTrips J) where
  -- What Claim has established of the bundle that it returns.
  pub record Enrolled (device : Device) (relay : Relay) (link : Link) (device_name : Text)
      (b : Bundle) : Type 0 where
    pub mtls : DeviceKeypair
    pub made :
        device.make_csr (if device_name == [] then bytes "caravel-device" else device_name)
        ≡ some mtls
    pub keeps_key : b.device_key_pem ≡ mtls.key_pem
    pub keys : KeyPair
    pub drawn : device.draw 32 ≡ some keys.private
    pub is_public : P.x25519 keys.private P.basepoint ≡ ok keys.public
    pub request : ClaimRequest
    pub sends_token : request.token ≡ link.token
    pub sends_public : (request.csr_pem ≡ mtls.csr_pem) × (request.encryption_pubkey ≡ keys.public)
    pub response : ClaimResponse
    pub answered : relay.answer link.relay request ≡ some response
    pub holds_answer :
        (b.device_cert_pem ≡ response.device_cert_pem)
        × (b.fleet_ca_pem ≡ response.fleet_ca_pem)
        × (b.relay_addr ≡ response.relay_addr)
        × (b.relay_server_name ≡ response.relay_server_name)
        × (b.signing_public_key ≡ response.signing_public_key)
    pub relay_verified :
        Accepts K
          (record {
            want_root = normalize_fingerprint link.ca_fingerprint;
            chain = relay.presents link.relay;
          })
          response.fleet_ca_pem
    pub same_ca : equal_fingerprint b.ca_fingerprint link.ca_fingerprint ≡ true
    pub complete : IsComplete b
    pub matches_leaf : K.is_key_pair b.device_cert_pem b.device_key_pem ≡ true
    pub holds_key : encryption_private_key E b ≡ ok (some keys.private)

  Enrolled-of_parts :
      IsLawful E
      → (device : Device) (relay : Relay) (link : Link) (device_name platform pem : Text)
        (dk : DeviceKeypair) (enc : KeyPair) (resp : ClaimResponse) (captured : RelayPin)
      → generate_device_csr device.make_csr device_name ≡ ok dk
      → generate_key_pair P device.draw ≡ ok enc
      → claim_rpc relay link dk.csr_pem enc.public device_name platform
          (record { want_root = normalize_fingerprint link.ca_fingerprint; chain = [] })
        ≡ ok (resp, captured)
      → (not (resp.ca_fingerprint == [])
          && not (equal_fingerprint resp.ca_fingerprint link.ca_fingerprint))
        ≡ false
      → verify K captured resp.fleet_ca_pem ≡ ok tt
      → encode_encryption_key E enc.private ≡ ok pem
      → validate_assembled E J K (assemble link device_name dk pem resp) ≡ ok tt
      → Enrolled device relay link device_name (assemble link device_name dk pem resp)
  unfolding assemble
  Enrolled-of_parts lawful device relay link device_name platform pem dk enc resp captured certified
        paired sent same kept encoded valid =
      let (answered, captures) =
        claim_rpc-eq-ok relay link dk.csr_pem enc.public device_name platform
          (record { want_root = normalize_fingerprint link.ca_fingerprint; chain = [] }) resp
          captured sent in
      let b : Bundle = assemble link device_name dk pem resp in
      let (complete, matches) =
        validate_assembled-eq-ok E J K laws b (assemble-with_defaults link device_name dk pem resp)
          valid in
      record {
        mtls = dk;
        made = generate_device_csr-eq-ok device.make_csr device_name dk certified;
        keeps_key = refl;
        keys = enc;
        drawn = (generate_key_pair-eq-ok P device.draw enc paired).0;
        is_public = (generate_key_pair-eq-ok P device.draw enc paired).1;
        request = record {
          token = link.token;
          csr_pem = dk.csr_pem;
          encryption_pubkey = enc.public;
          device_name = device_name;
          platform = platform;
        };
        sends_token = refl;
        sends_public = (refl, refl);
        response = resp;
        answered = answered;
        holds_answer = (refl, refl, refl, refl, refl);
        relay_verified =
            subst (λ (p : RelayPin). Accepts K p resp.fleet_ca_pem) captures
              (verify-Accepts K captured resp.fleet_ca_pem kept);
        same_ca = assemble-same_ca link device_name dk pem resp same;
        complete = complete;
        matches_leaf = matches;
        holds_key = encryption_private_key-encode E lawful enc.private pem b encoded refl;
      }

  -- A bundle that Claim returns is complete and holds what the one answered claim gave: the leaf, the
  -- fleet CA, the relay and the signing key. The claim was sent with the link's token, the request that
  -- the device made for its mTLS key, which the bundle keeps and the leaf matches, and the X25519 public
  -- key of the private key that the device drew and the bundle holds. Of the chain that was presented at
  -- the link's address, a certificate has the link's fingerprint or the leaf is issued by the fleet CA;
  -- and the bundle's own fingerprint is the link's up to decoration.
  pub claim-Enrolled :
      IsLawful E
      → (device : Device) (relay : Relay) (link : Link) (device_name platform : Text) (b : Bundle)
      → claim P E J K device relay link device_name platform ≡ ok b
      → Enrolled device relay link device_name b
  unfolding claim
  claim-Enrolled lawful device relay link device_name platform b h =
      let (dk, e1, h1) = >>=-eq-ok (generate_device_csr device.make_csr device_name) _ h in
      let (enc, e2, h2) = >>=-eq-ok (generate_key_pair P device.draw) _ h1 in
      let pin : RelayPin = record {
        want_root = normalize_fingerprint link.ca_fingerprint;
        chain = [];
      } in
      let ((resp, captured), e3, h3) =
        >>=-eq-ok (claim_rpc relay link dk.csr_pem enc.public device_name platform pin) _ h2 in
      let (ca, h4) =
        reject_if-eq-ok
          (not (resp.ca_fingerprint == [])
            && not (equal_fingerprint resp.ca_fingerprint link.ca_fingerprint))
          (ca_mismatch resp.ca_fingerprint link.ca_fingerprint) _ h3 in
      let (_, e5, h5) = >>=-eq-ok (verify K captured resp.fleet_ca_pem) _ h4 in
      let (pem, e6, h6) = >>=-eq-ok (encode_encryption_key E enc.private) _ h5 in
      let a : Bundle = assemble link device_name dk pem resp in
      let (_, e7, h7) = >>=-eq-ok (validate_assembled E J K a) _ h6 in
      subst (Enrolled device relay link device_name) (ok-injective a b h7) (
        Enrolled-of_parts lawful device relay link device_name platform pem dk enc resp captured e1
          e2 e3 ca e5 e6 e7)
