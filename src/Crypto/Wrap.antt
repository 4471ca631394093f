-- ===== src/Crypto/Wrap.antt =====
-- The passphrase-wrapped private key: what a device wraps, a device with the passphrase unwraps.
use caravel.Prelude.{
  ℕ, ◌≡◌, length, some, arith, ok, >>=-eq-ok, reject_if-eq-ok, pos, not, bad_key_size, [],
}
use caravel.Prelude.Text.{Text}
use caravel.Json.{RoundTrips}
use caravel.Crypto.{
  Primitives, IsLawful, CryptoJson, WrappedKey, Draw, nonce_size, salt_size, random_bytes,
  derive_kek, open_x, wrap_private_key, unwrap_private_key,
}

module _ (P : Primitives) (lawful : IsLawful P) where
  -- openX of what Seal produced under the same key and nonce.
  pub open_x-seal :
      (key nonce pt ct : Text)
      → length key ≡ 32
      → length nonce ≡ 24
      → P.aead_seal key nonce pt [] ≡ ok ct
      → open_x P key nonce ct ≡ ok pt
  unfolding open_x
  open_x-seal key nonce pt ct k n h =
      ground (arith, lawful.aead_key-length key, lawful.open-seal key nonce pt [] ct k n h)

  -- A derived key is one that the cipher takes.
  derive_kek-length :
      (pass salt kek : Text) (m : ℕ) → derive_kek P pass salt 1 m 4 ≡ ok kek → length kek ≡ 32
  unfolding derive_kek
  derive_kek-length pass salt kek m h =
      let (k, made, size) = lawful.argon2id-key pass salt 1 m 4 (omega arith) (omega arith) in
      ground (arith, made, size)

module _ (P : Primitives) (J : CryptoJson) (lawful : IsLawful P)
    (codec : RoundTrips J.wrapped) where
  -- Whatever salt and nonce are drawn, as long as the nonce has its 24 bytes: a blob that
  -- WrapPrivateKey returns is opened by UnwrapPrivateKey under the same passphrase, and gives the
  -- private key back.
  pub unwrap-wrap :
      (draw_salt draw_nonce : Draw) (passphrase private nonce blob : Text)
      → draw_nonce nonce_size ≡ some nonce
      → length nonce ≡ 24
      → wrap_private_key P J draw_salt draw_nonce passphrase private ≡ ok blob
      → unwrap_private_key P J passphrase blob ≡ ok private
  unfolding wrap_private_key unwrap_private_key
  unwrap-wrap draw_salt draw_nonce passphrase private nonce blob drawn size h =
      let (salt, e1, h1) = >>=-eq-ok (random_bytes draw_salt salt_size) _ h in
      let (kek, e2, h2) = >>=-eq-ok (derive_kek P passphrase salt 1 65536 4) _ h1 in
      let (_, h3) = reject_if-eq-ok (not (P.aead_key kek)) bad_key_size _ h2 in
      let (n, e4, h4) = >>=-eq-ok (random_bytes draw_nonce nonce_size) _ h3 in
      let (ct, e5, h5) = >>=-eq-ok (P.aead_seal kek n private []) _ h4 in
      let w : WrappedKey = record { v = pos 1; salt = salt; nonce = n; ct = ct } in
      let k : length kek ≡ 32 = derive_kek-length P lawful passphrase salt kek 65536 e2 in
      let m : length n ≡ 24 = ground (arith, e4, drawn, size) in
      rw (codec.unmarshal-marshal w blob h5)
        (rw e2 (rw (open_x-seal P lawful kek n private ct k m e5)))
