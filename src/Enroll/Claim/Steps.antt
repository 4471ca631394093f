-- ===== src/Enroll/Claim/Steps.antt =====
-- What the steps of Claim in go/enroll/claim.go have done where they let it go on.
use mathlib.Core.Path.{subst}
use caravel.Prelude.{
  List, sym, ap, ◌∙◌, ◌≡◌, refl, true, false, Bool, not, ◌&&◌, ◌||◌, inl, inr, some, [], arith,
  Bool-cases, length, eqb, is_empty, ok, >>=-eq-ok, reject_if-eq-ok, ok-injective, as_err,
  as_err-eq-ok, or_err-eq-ok, key_mismatch, bad_encryption_pub_size, dial_relay, claim_failed,
  claim_incomplete, or_err, ◌∷◌, ℕ, Option-cases, derive_public_key, if◌then◌else◌,
}
use caravel.Prelude.Text.{Text, bytes, ◌==◌, eq_refl}
use caravel.Json.{Codec, RoundTrips}
use caravel.Crypto.{
  Primitives, Draw, CsrMaker, KeyPair, DeviceKeypair, generate_device_csr, generate_key_pair,
  random_bytes,
}
use caravel.DeviceId.{Bundle, Pem, marshal, parse, with_defaults}
use caravel.DeviceId.Laws.{IsComplete, parse-IsComplete}
use caravel.Enroll.Fingerprint.{normalize_fingerprint, equal_fingerprint}
use caravel.Enroll.Link.{Link}
use caravel.Enroll.Pin.{Cert, Pki, RelayPin, verify_connection}
use caravel.Enroll.Claim.{
  ClaimRequest, ClaimResponse, Relay, claim_rpc, validate_assembled, assemble,
}

not-eq-false : (b : Bool) → not b ≡ false → b ≡ true
not-eq-false true h = refl
not-eq-false false h = cc

-- What the handshake captures: the chain that was presented, beside the pinned fingerprint.
captured-record :
    (chain : List Cert) (pin c : RelayPin)
    → verify_connection chain pin ≡ ok c
    → c ≡ record pin { chain = chain }
unfolding verify_connection
captured-record [] pin c h = cc
captured-record (d ∷ ds) pin c h = sym (ok-injective (record pin { chain = d ∷ ds }) c h)

-- An answered claim: the request that was sent, and the pin behind the handshake.
pub claim_rpc-eq-ok :
    (relay : Relay) (link : Link) (csr enc_pub device_name platform : Text) (pin : RelayPin)
    (resp : ClaimResponse) (captured : RelayPin)
    → claim_rpc relay link csr enc_pub device_name platform pin ≡ ok (resp, captured)
    → (relay.answer link.relay (record {
      token = link.token;
      csr_pem = csr;
      encryption_pubkey = enc_pub;
      device_name = device_name;
      platform = platform;
    })
        ≡ some resp)
      × (captured ≡ record pin { chain = relay.presents link.relay })
unfolding claim_rpc
claim_rpc-eq-ok relay link csr enc_pub device_name platform pin resp captured h =
    let req : ClaimRequest = record {
      token = link.token;
      csr_pem = csr;
      encryption_pubkey = enc_pub;
      device_name = device_name;
      platform = platform;
    } in
    let (_, h1) = reject_if-eq-ok (not (eqb (length enc_pub) 32)) bad_encryption_pub_size _ h in
    let (_, h2) = reject_if-eq-ok (not (relay.dials link.relay)) dial_relay _ h1 in
    let (c, e3, h3) =
      >>=-eq-ok (as_err (verify_connection (relay.presents link.relay) pin) claim_failed) _ h2 in
    let (r, e4, h4) = >>=-eq-ok (or_err (relay.answer link.relay req) claim_failed) _ h3 in
    let (_, h5) =
      reject_if-eq-ok
        (is_empty r.device_cert_pem || (is_empty r.fleet_ca_pem || r.relay_addr == []))
        claim_incomplete _ h4 in
    let same = ok-injective {A = ClaimResponse × RelayPin} (r, c) (resp, captured) h5 in
    let kept = captured-record (relay.presents link.relay) pin c (as_err-eq-ok _ claim_failed e3) in
    (
      or_err-eq-ok _ claim_failed e4 ∙ ap (λ (t : ClaimResponse × RelayPin). some t.0) same,
      sym (ap (λ (t : ClaimResponse × RelayPin). t.1) same) ∙ kept,
    )

module _ (E : Pem) (J : Codec Bundle) (K : Pki) (laws : RoundTrips J) where
  unmarshal_of_marshal :
      (b : Bundle) (raw : Text)
      → with_defaults b ≡ b
      → marshal J b ≡ ok raw
      → J.unmarshal raw ≡ ok b
  unfolding marshal
  unmarshal_of_marshal b raw full h =
      laws.unmarshal-marshal b raw (subst (λ (x : Bundle). J.marshal x ≡ ok raw) full h)

  -- A bundle with the tag and the version that passes the last check.
  pub validate_assembled-eq-ok :
      (b : Bundle)
      → with_defaults b ≡ b
      → validate_assembled E J K b ≡ ok tt
      → IsComplete b × (K.is_key_pair b.device_cert_pem b.device_key_pem ≡ true)
  unfolding validate_assembled
  validate_assembled-eq-ok b full h =
      let (raw, m, h1) = >>=-eq-ok (marshal J b) _ h in
      let (p, e, h2) = >>=-eq-ok (parse J raw) _ h1 in
      let (k, _) =
        reject_if-eq-ok (not (K.is_key_pair p.device_cert_pem p.device_key_pem)) key_mismatch _
          h2 in
      let (d, _, _, c) = parse-IsComplete J raw p e in
      let same : p ≡ b = ok-injective p b (sym d ∙ unmarshal_of_marshal b raw full m) in
      (
        subst IsComplete same c,
        subst (λ (q : Bundle). K.is_key_pair q.device_cert_pem q.device_key_pem ≡ true) same
            (not-eq-false _ k),
      )

pub assemble-with_defaults :
    (link : Link) (device_name : Text) (dk : DeviceKeypair) (pem : Text) (resp : ClaimResponse)
    → with_defaults (assemble link device_name dk pem resp) ≡ assemble link device_name dk pem resp
unfolding with_defaults assemble ◌==◌
assemble-with_defaults link device_name dk pem resp = refl

pub assemble-same_ca :
    (link : Link) (device_name : Text) (dk : DeviceKeypair) (pem : Text) (resp : ClaimResponse)
    → (not (resp.ca_fingerprint == [])
        && not (equal_fingerprint resp.ca_fingerprint link.ca_fingerprint))
      ≡ false
    → equal_fingerprint (assemble link device_name dk pem resp).ca_fingerprint link.ca_fingerprint
      ≡ true
unfolding assemble
assemble-same_ca link device_name dk pem resp h = elim (Bool-cases (resp.ca_fingerprint == [])) [
  | inl e ↦ rw e (unfold equal_fingerprint in eq_refl (normalize_fingerprint link.ca_fingerprint))
  | inr e ↦ rw e (ground arith)
]

pub generate_device_csr-eq-ok :
    (make : CsrMaker) (device_name : Text) (dk : DeviceKeypair)
    → generate_device_csr make device_name ≡ ok dk
    → make (if device_name == [] then bytes "caravel-device" else device_name) ≡ some dk
unfolding generate_device_csr
generate_device_csr-eq-ok make device_name dk h =
    let name = if device_name == [] then bytes "caravel-device" else device_name in
    elim (Option-cases (make name)) [
      | inl e ↦ let q = rw (e, generate_device_csr) at h in cc
      | inr (k, e) ↦ e ∙ ap some (ok-injective k dk (rw (e, generate_device_csr) at h))
    ]

random_bytes-eq-ok : (draw : Draw) (n : ℕ) (k : Text) → random_bytes draw n ≡ ok k → draw n ≡ some k
unfolding random_bytes
random_bytes-eq-ok draw n k h = elim (Option-cases (draw n)) [
  | inl e ↦ let q = rw (e, random_bytes) at h in cc
  | inr (b, e) ↦ e ∙ ap some (ok-injective b k (rw (e, random_bytes) at h))
]

pub generate_key_pair-eq-ok :
    (P : Primitives) (draw : Draw) (enc : KeyPair)
    → generate_key_pair P draw ≡ ok enc
    → (draw 32 ≡ some enc.private) × (P.x25519 enc.private P.basepoint ≡ ok enc.public)
unfolding generate_key_pair
generate_key_pair-eq-ok P draw enc h =
    let (priv, e1, h1) = >>=-eq-ok (random_bytes draw 32) _ h in
    let (public, e2, h2) = >>=-eq-ok (as_err (P.x25519 priv P.basepoint) derive_public_key) _ h1 in
    subst
      (λ (k : KeyPair). (draw 32 ≡ some k.private) × (P.x25519 k.private P.basepoint ≡ ok k.public))
      (ok-injective (record { public = public; private = priv }) enc h2)
      (random_bytes-eq-ok draw 32 priv e1, as_err-eq-ok _ derive_public_key e2)
