-- ===== src/Crypto/Seal.antt =====
-- Sealed bundles: only what the signer signed is opened, and what the controller's recipe seals is
-- opened to its plaintext.
use caravel.Prelude.{
  ◌≡◌, true, length, eqb, not, ◌||◌, arith, ok, >>=-eq-ok, reject_if-eq-ok, bad_signature, [],
}
use caravel.Prelude.Text.{Text, bytes}
use caravel.Crypto.{
  Primitives, IsLawful, CryptoJson, SealedBundle, public_key_size, signing_bytes, open_sealed,
  derive_wrap_key, verify_profile_signature,
}
use caravel.Crypto.Wrap.{open_x-seal}

module _ (P : Primitives) (J : CryptoJson) where
  -- A bundle as the controller makes it: the data key sealed under the key that HKDF derives, with the
  -- label of the format, from the secret that an ephemeral key and the recipient's public key agree on;
  -- the plaintext sealed under the data key; and the bundle's text without its signature signed.
  pub record SealedTo (b : SealedBundle) (recipient_private signer_public plaintext : Text)
      : Type 0 where
    pub signed : Text
    pub signing : J.sealed.marshal (record b { signature = [] }) ≡ ok signed
    pub signer_size : length signer_public ≡ 32
    pub verifies : P.ed25519_verify signer_public signed b.signature ≡ true
    pub ephemeral : Text
    pub offered : P.x25519 ephemeral P.basepoint ≡ ok b.eph_public
    pub recipient_public : Text
    pub published : P.x25519 recipient_private P.basepoint ≡ ok recipient_public
    pub shared : Text
    pub agreed : P.x25519 ephemeral recipient_public ≡ ok shared
    pub wrap_key : Text
    pub derived : P.hkdf shared (bytes "pharosvpn/profile/keywrap/v1") ≡ ok wrap_key
    pub wrap_key_size : length wrap_key ≡ 32
    pub wrap_nonce_size : length b.wrap_nonce ≡ 24
    pub data_key : Text
    pub data_key_size : length data_key ≡ 32
    pub nonce_size : length b.nonce ≡ 24
    pub key_sealed : P.aead_seal wrap_key b.wrap_nonce data_key [] ≡ ok b.wrapped_key
    pub text_sealed : P.aead_seal data_key b.nonce plaintext [] ≡ ok b.ciphertext

  -- OpenSealed returns a plaintext only for a signer key of 32 bytes under which the bundle's
  -- signature over its signing bytes verifies.
  pub open_sealed-verified :
      (b : SealedBundle) (priv signer pt : Text)
      → open_sealed P J b priv signer ≡ ok pt
      → (signed : Text) × (signing_bytes J b ≡ ok signed)
        × (verify_profile_signature P signed b.signature signer ≡ true)
  unfolding open_sealed verify_profile_signature
  open_sealed-verified b priv signer pt h =
      let (signed, e, h1) = >>=-eq-ok (signing_bytes J b) _ h in
      let (good, _) =
        reject_if-eq-ok
          (not (eqb (length signer) public_key_size)
            || not (P.ed25519_verify signer signed b.signature))
          bad_signature _ h1 in
      (signed, e, ground (arith, good))

module _ (P : Primitives) (J : CryptoJson) (lawful : IsLawful P) where
  -- With lawful ciphers, a bundle made by the controller's recipe opens to its plaintext with the
  -- private key of the recipient: the data key is sealed under the HKDF key, with the label
  -- "pharosvpn/profile/keywrap/v1", of what the ephemeral key and the recipient's public key agree on,
  -- the plaintext under the data key, and the text without its signature is signed by the signer.
  pub open_sealed-SealedTo :
      (b : SealedBundle) (priv signer pt : Text)
      → SealedTo P J b priv signer pt
      → open_sealed P J b priv signer ≡ ok pt
  unfolding open_sealed signing_bytes derive_wrap_key
  open_sealed-SealedTo b priv signer pt s =
      let k =
        open_x-seal P lawful s.wrap_key b.wrap_nonce s.data_key b.wrapped_key s.wrap_key_size
          s.wrap_nonce_size s.key_sealed in
      let t =
        open_x-seal P lawful s.data_key b.nonce pt b.ciphertext s.data_key_size s.nonce_size
          s.text_sealed in
      let agreed =
        lawful.x25519-agree s.ephemeral priv b.eph_public s.recipient_public s.shared s.offered
          s.published s.agreed in
      rw s.signing (rw s.verifies (rw s.signer_size (rw agreed (rw s.derived (rw k (rw t))))))
