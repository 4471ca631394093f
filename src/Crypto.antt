-- ===== src/Crypto.antt =====
-- go/crypto: keys.go, enroll.go and csr.go. The ciphers are those of golang.org/x/crypto and the
-- standard crypto packages: they stand as the operations of `Primitives`.
pub mod Seal
pub mod Wrap
pub mod Tests
use caravel.Prelude.{
  ℕ, ℤ, pos, suc, ◌≤◌, ◌≡◌, Bool, ◌||◌, not, Option, none, some, [], length, eqb, if◌then◌else◌,
  Result, ok, err, panic, ◌>>=◌, ◌>>◌, reject_if, as_err, bad_key_size, wrong_password,
  bad_signature, decrypt_failed, wrong_passphrase, derive_public_key, generate_device_key,
}
use caravel.Prelude.Text.{Text, bytes, ◌==◌}
use caravel.Json.{Codec}

-- SealedBundle
pub record SealedBundle : Type 0 where
  pub v : ℤ
  pub eph_public : Text
  pub wrap_nonce : Text
  pub wrapped_key : Text
  pub nonce : Text
  pub ciphertext : Text
  pub signature : Text

-- wrappedKey
pub record WrappedKey : Type 0 where
  pub v : ℤ
  pub salt : Text
  pub nonce : Text
  pub ct : Text

-- KeyPair
pub record KeyPair : Type 0 where
  pub public : Text
  pub private : Text

-- DeviceKeypair
pub record DeviceKeypair : Type 0 where
  pub csr_pem : Text
  pub key_pem : Text

-- The operations that the package calls. `argon2id`, `aead_open` and `aead_seal` may panic.
pub record Primitives : Type 0 where
  -- argon2.IDKey(passphrase, salt, time, memory, threads, KeySize)
  pub argon2id : Text → Text → ℕ → ℕ → ℕ → Result Text
  -- whether chacha20poly1305.NewX accepts the key
  pub aead_key : Text → Bool
  -- aead.Open(key, nonce, ciphertext, aad) and aead.Seal(key, nonce, plaintext, aad)
  pub aead_open : Text → Text → Text → Text → Result Text
  pub aead_seal : Text → Text → Text → Text → Result Text
  -- curve25519.X25519(scalar, point) and its base point
  pub x25519 : Text → Text → Result Text
  pub basepoint : Text
  -- ed25519.Verify(public key, message, signature)
  pub ed25519_verify : Text → Text → Text → Bool
  -- KeySize bytes of hkdf.New(sha256.New, secret, nil, info)
  pub hkdf : Text → Text → Result Text

-- What their documentation says of them.
pub record IsLawful (P : Primitives) : Type 0 where
  pub argon2id-key :
      (pass salt : Text) (t m p : ℕ)
      → 1 ≤ t
      → 1 ≤ p
      → (k : Text) × (P.argon2id pass salt t m p ≡ ok k) × (length k ≡ 32)
  pub aead_key-length : (key : Text) → P.aead_key key ≡ eqb (length key) 32
  pub open-seal :
      (key nonce pt aad ct : Text)
      → length key ≡ 32
      → length nonce ≡ 24
      → P.aead_seal key nonce pt aad ≡ ok ct
      → P.aead_open key nonce ct aad ≡ ok pt
  -- both sides of an exchange of public keys agree on the secret
  pub x25519-agree :
      (a b a_public b_public shared : Text)
      → P.x25519 a P.basepoint ≡ ok a_public
      → P.x25519 b P.basepoint ≡ ok b_public
      → P.x25519 a b_public ≡ ok shared
      → P.x25519 b a_public ≡ ok shared
  pub open-panic :
      (key nonce ct aad : Text)
      → length key ≡ 32
      → (eqb (length nonce) 24) ≡ Bool.false
      → P.aead_open key nonce ct aad ≡ panic

-- JSON codecs of the two stored shapes.
pub record CryptoJson : Type 0 where
  pub sealed : Codec SealedBundle
  pub wrapped : Codec WrappedKey

-- Constants
abbrev pub argon_time : ℕ
argon_time = 1

abbrev pub argon_memory : ℕ
argon_memory = 65536

abbrev pub argon_threads : ℕ
argon_threads = 4

abbrev pub key_size : ℕ
key_size = 32

abbrev pub salt_size : ℕ
salt_size = 16

-- aead.NonceSize() of XChaCha20-Poly1305
abbrev pub nonce_size : ℕ
nonce_size = 24

-- ed25519.PublicKeySize
abbrev pub public_key_size : ℕ
public_key_size = 32

abbrev pub wrap_info : Text
wrap_info = bytes "pharosvpn/profile/keywrap/v1"

-- One read of the system's random source: n bytes, or a failure.
abbrev pub Draw : Type 0
Draw = ℕ → Option Text

-- randomBytes: a failing source is a panic.
unfoldable pub random_bytes : Draw → ℕ → Result Text
random_bytes draw n = elim (draw n) [ none ↦ panic | some b ↦ ok b ]

-- The call of ecdsa.GenerateKey with x509.CreateCertificateRequest and the PEM encodings: the key
-- pair for a common name, or a failure.
abbrev pub CsrMaker : Type 0
CsrMaker = Text → Option DeviceKeypair

-- GenerateDeviceCSR
unfoldable pub generate_device_csr : CsrMaker → Text → Result DeviceKeypair
generate_device_csr make common_name =
    let name = if common_name == [] then bytes "caravel-device" else common_name in
    elim (make name) [ none ↦ err generate_device_key | some k ↦ ok k ]

module _ (P : Primitives) where
  -- DeriveKEK
  unfoldable pub derive_kek : Text → Text → ℕ → ℕ → ℕ → Result Text
  derive_kek passphrase salt time memory threads = P.argon2id passphrase salt time memory threads

  -- OpenXChaCha
  unfoldable pub open_x_cha_cha : Text → Text → Text → Text → Result Text
  open_x_cha_cha key nonce ciphertext aad = do
    reject_if (not (P.aead_key key)) bad_key_size
    as_err (P.aead_open key nonce ciphertext aad) wrong_password

  -- openX
  unfoldable pub open_x : Text → Text → Text → Result Text
  open_x key nonce ciphertext = do
    reject_if (not (P.aead_key key)) bad_key_size
    as_err (P.aead_open key nonce ciphertext []) decrypt_failed

  -- deriveWrapKey
  unfoldable pub derive_wrap_key : Text → Result Text
  derive_wrap_key shared = P.hkdf shared wrap_info

  -- VerifyProfileSignature
  unfoldable pub verify_profile_signature : Text → Text → Text → Bool
  verify_profile_signature signed sig signer_public =
      elim (eqb (length signer_public) public_key_size) [
        | Bool.true ↦ P.ed25519_verify signer_public signed sig
        | Bool.false ↦ Bool.false
      ]

  -- GenerateKeyPair
  unfoldable pub generate_key_pair : Draw → Result KeyPair
  unfolding random_bytes
  generate_key_pair draw = do
    priv ← random_bytes draw key_size
    pub_key ← as_err (P.x25519 priv P.basepoint) derive_public_key
    ok (record { public = pub_key; private = priv })

module _ (J : CryptoJson) where
  -- signingBytes
  unfoldable pub signing_bytes : SealedBundle → Result Text
  signing_bytes b = J.sealed.marshal (record b { signature = [] })

module _ (P : Primitives) (J : CryptoJson) where
  -- OpenSealed
  unfoldable pub open_sealed : SealedBundle → Text → Text → Result Text
  unfolding signing_bytes derive_wrap_key open_x
  open_sealed b recipient_private signer_public = do
    signed ← signing_bytes J b
    reject_if
        (not (eqb (length signer_public) public_key_size)
          || not (P.ed25519_verify signer_public signed b.signature))
        bad_signature
    shared ← as_err (P.x25519 recipient_private b.eph_public) decrypt_failed
    wrap_key ← derive_wrap_key P shared
    data_key ← as_err (open_x P wrap_key b.wrap_nonce b.wrapped_key) decrypt_failed
    as_err (open_x P data_key b.nonce b.ciphertext) decrypt_failed

  -- UnwrapPrivateKey
  unfoldable pub unwrap_private_key : Text → Text → Result Text
  unfolding derive_kek open_x
  unwrap_private_key passphrase blob = do
    wk ← as_err (J.wrapped.unmarshal blob) wrong_passphrase
    kek ← derive_kek P passphrase wk.salt argon_time argon_memory argon_threads
    as_err (open_x P kek wk.nonce wk.ct) wrong_passphrase

  -- WrapPrivateKey; the two draws are its two calls of randomBytes.
  unfoldable pub wrap_private_key : Draw → Draw → Text → Text → Result Text
  unfolding derive_kek random_bytes
  wrap_private_key draw_salt draw_nonce passphrase private = do
    salt ← random_bytes draw_salt salt_size
    kek ← derive_kek P passphrase salt argon_time argon_memory argon_threads
    reject_if (not (P.aead_key kek)) bad_key_size
    nonce ← random_bytes draw_nonce nonce_size
    ct ← P.aead_seal kek nonce private []
    J.wrapped.marshal (record { v = pos 1; salt = salt; nonce = nonce; ct = ct })
