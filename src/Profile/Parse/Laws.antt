-- ===== src/Profile/Parse/Laws.antt =====
-- What Parse accepts, described without its code, and the round trips of the two forms that the
-- device side can make.
use mathlib.Core.Path.{subst}
use caravel.Prelude.{
  ok-injective, as_err-eq-ok, or_err-eq-ok, ◌≤◌, ◌≡◌, ◌≢◌, refl, true, false, not, ◌||◌, inl, inr,
  some, [], length, eqb, is_int, is_empty, pos, ℤ, arith, Bool-cases, ok, panic, ◌>>=◌, or_err,
  as_err, >>=-eq-ok, reject_if-eq-ok, not_pharos, unsupported_ver, password_needed,
  account_key_needed, decode_payload, bad_key_size, wrong_password,
}
use caravel.Prelude.Text.{Text, ◌==◌, eq_iff, eq_refl}
use caravel.Crypto.{
  Primitives, IsLawful, SealedBundle, derive_kek, open_x_cha_cha, open_sealed, signing_bytes,
  verify_profile_signature,
}
use caravel.Crypto.Seal.{open_sealed-verified}
use caravel.Profile.Types.{
  Envelope, KdfParams, Options, Profile, ProfileJson, EnvelopeLaws, format_tag, format_version,
  enc_none, enc_password, enc_account,
}
use caravel.Profile.Parse.{aad, header, wrap_plaintext, open_password, open_account, decrypt, parse}

module _ (P : Primitives) (J : ProfileJson) (env : Envelope) (opts : Options) where
  -- The plaintexts that an envelope may give to a reader with these secrets: the payload itself; a
  -- payload that the cipher authenticates together with the header, under the key of the password; a
  -- bundle that carries the signer's signature.
  pub data Opens : Text → Type 0 where
    plain : env.enc ≡ enc_none → Opens env.payload
    by_password :
        (kdf : KdfParams) (ciphertext ad key plaintext : Text)
        → env.enc ≡ enc_password
        → opts.password ≢ []
        → env.kdf ≡ some kdf
        → J.payload.unmarshal env.payload ≡ ok ciphertext
        → aad J env ≡ ok ad
        → P.argon2id opts.password kdf.salt kdf.time kdf.memory kdf.threads ≡ ok key
        → P.aead_open key env.nonce ciphertext ad ≡ ok plaintext
        → Opens plaintext
    by_account :
        (bundle : SealedBundle) (signed plaintext : Text)
        → env.enc ≡ enc_account
        → J.crypto.sealed.unmarshal env.payload ≡ ok bundle
        → signing_bytes J.crypto bundle ≡ ok signed
        → verify_profile_signature P signed bundle.signature opts.signer_public ≡ true
        → open_sealed P J.crypto bundle opts.device_key opts.signer_public ≡ ok plaintext
        → Opens plaintext

  open_password-Opens :
      (pt : Text) → env.enc ≡ enc_password → open_password P J env opts.password ≡ ok pt → Opens pt
  unfolding open_password
  open_password-Opens pt e h =
      let (given, h1) = reject_if-eq-ok (opts.password == []) password_needed _ h in
      let (kdf, e2, h2) = >>=-eq-ok (or_err env.kdf not_pharos) _ h1 in
      let (ct, e3, h3) = >>=-eq-ok (as_err (J.payload.unmarshal env.payload) not_pharos) _ h2 in
      let (ad, e4, h4) = >>=-eq-ok (aad J env) _ h3 in
      let (key, e5, h5) =
        >>=-eq-ok (derive_kek P opts.password kdf.salt kdf.time kdf.memory kdf.threads) _ h4 in
      let (_, h6) = reject_if-eq-ok (not (P.aead_key key)) bad_key_size _ h5 in
      by_password kdf ct ad key pt e (λ q. ground (arith, eq_iff opts.password []))
        (or_err-eq-ok env.kdf not_pharos e2) (as_err-eq-ok _ not_pharos e3) e4 e5
        (as_err-eq-ok _ wrong_password h6)

  open_account-Opens :
      (pt : Text) → env.enc ≡ enc_account → open_account P J env opts ≡ ok pt → Opens pt
  unfolding open_account
  open_account-Opens pt e h =
      let (_, h1) =
        reject_if-eq-ok (is_empty opts.device_key || is_empty opts.signer_public) account_key_needed
          _ h in
      let (b, e2, h2) =
        >>=-eq-ok (as_err (J.crypto.sealed.unmarshal env.payload) not_pharos) _ h1 in
      let (signed, s, v) =
        open_sealed-verified P J.crypto b opts.device_key opts.signer_public pt h2 in
      by_account b signed pt e (as_err-eq-ok _ not_pharos e2) s v h2

  decrypt-Opens : (pt : Text) → decrypt P J env opts ≡ ok pt → Opens pt
  unfolding decrypt
  decrypt-Opens pt h = elim (Bool-cases (env.enc == enc_none)) [
    | inl e ↦
        subst Opens (ok-injective env.payload pt (rw e at h))
          (plain ((eq_iff env.enc enc_none).0 e))
    | inr n ↦ elim (Bool-cases (env.enc == enc_password)) [
      | inl e ↦ open_password-Opens pt ((eq_iff env.enc enc_password).0 e) (simp (n, e) at h)
      | inr m ↦ elim (Bool-cases (env.enc == enc_account)) [
        | inl e ↦ open_account-Opens pt ((eq_iff env.enc enc_account).0 e) (simp (n, m, e) at h)
        | inr k ↦ ground (arith, n, m, k)
      ]
    ]
  ]

-- What Parse has established when it returns a profile.
pub record Parsed (P : Primitives) (J : ProfileJson) (raw : Text) (opts : Options) (p : Profile)
    : Type 0 where
  pub env : Envelope
  pub decoded : J.envelope.unmarshal raw ≡ ok env
  pub tagged : env.fmt ≡ format_tag
  pub versioned : env.v ≡ pos 1
  pub plaintext : Text
  pub opened : Opens P J env opts plaintext
  pub is_profile : J.profile.unmarshal plaintext ≡ ok p

is_int-one : (v : ℤ) → is_int v 1 ≡ true → v ≡ pos 1
is_int-one (pos n) h = ground arith
is_int-one (ℤ.negsuc n) h = cc

module _ (P : Primitives) (J : ProfileJson) where
  header-eq-ok :
      (raw : Text) (env : Envelope)
      → header J raw ≡ ok env
      → (J.envelope.unmarshal raw ≡ ok env) × (env.fmt ≡ format_tag)
  unfolding header
  header-eq-ok raw env h =
      let (e, d, h1) = >>=-eq-ok (as_err (J.envelope.unmarshal raw) not_pharos) _ h in
      let (t, h2) = reject_if-eq-ok (not (e.fmt == format_tag)) not_pharos _ h1 in
      let same : e ≡ env = ok-injective e env h2 in
      (
        rw (← same) (as_err-eq-ok _ not_pharos d),
        rw (← same) (ground (arith, eq_iff e.fmt format_tag)),
      )

  -- A profile that Parse returns comes from an envelope with the pharos tag and version 1, and from a
  -- plaintext of one of the three kinds of `Opens`: in password mode the cipher has authenticated the
  -- payload and the header, in account mode the signer's signature has been verified.
  pub parse-Parsed :
      (raw : Text) (opts : Options) (p : Profile)
      → parse P J raw opts ≡ ok p
      → Parsed P J raw opts p
  unfolding parse
  parse-Parsed raw opts p h =
      let (env, e, h1) = >>=-eq-ok (header J raw) _ h in
      let (decoded, tagged) = header-eq-ok raw env e in
      let (v, h2) =
        reject_if-eq-ok (not (is_int env.v format_version)) (unsupported_ver env.v) _ h1 in
      let (pt, o, h3) = >>=-eq-ok (decrypt P J env opts) _ h2 in
      record {
        env = env;
        decoded = decoded;
        tagged = tagged;
        versioned = is_int-one env.v (ground arith);
        plaintext = pt;
        opened = decrypt-Opens P J env opts pt o;
        is_profile = as_err-eq-ok _ decode_payload h3;
      }

  -- Whatever the options are, a wrapped plaintext is read as the profile that its JSON decodes to, and
  -- is refused as undecodable JSON if it decodes to none.
  pub parse-wrap_plaintext :
      EnvelopeLaws J
      → (json raw : Text) (opts : Options) → wrap_plaintext J json ≡ ok raw
      → parse P J raw opts ≡ as_err (J.profile.unmarshal json) decode_payload
  unfolding parse wrap_plaintext
  parse-wrap_plaintext laws json raw opts h =
      rw (laws.unmarshal-marshal _ raw h) (simp (eq_refl, laws.profile-compact))

-- A file as the controller protects it by a password: the payload is the ciphertext of the profile's
-- JSON, sealed under the password's key with the header as associated data.
pub record SealedUnder (P : Primitives) (J : ProfileJson) (raw password : Text) (p : Profile)
    : Type 0 where
  pub env : Envelope
  pub decoded : J.envelope.unmarshal raw ≡ ok env
  pub tagged : env.fmt ≡ format_tag
  pub versioned : env.v ≡ pos 1
  pub mode : env.enc ≡ enc_password
  pub kdf : KdfParams
  pub has_kdf : env.kdf ≡ some kdf
  pub key : Text
  pub derived : P.argon2id password kdf.salt kdf.time kdf.memory kdf.threads ≡ ok key
  pub key_size : length key ≡ 32
  pub nonce_size : length env.nonce ≡ 24
  pub ad : Text
  pub has_ad : aad J env ≡ ok ad
  pub json : Text
  pub ciphertext : Text
  pub text_sealed : P.aead_seal key env.nonce json ad ≡ ok ciphertext
  pub carried : J.payload.unmarshal env.payload ≡ ok ciphertext
  pub is_profile : J.profile.unmarshal json ≡ ok p

none-ne-password : (enc_password == enc_none) ≡ false
unfolding ◌==◌
none-ne-password = refl

-- The key material of a password-mode header, and what the header protects.
module _ (P : Primitives) (J : ProfileJson) (raw : Text) (opts : Options) (env : Envelope) where
  parse-of_password :
      J.envelope.unmarshal raw ≡ ok env
      → env.fmt ≡ format_tag
      → env.v ≡ pos 1
      → env.enc ≡ enc_password
      → parse P J raw opts ≡ (
          open_password P J env opts.password >>= λ pt.
          as_err (J.profile.unmarshal pt) decode_payload)
  unfolding parse
  parse-of_password d t v e = rw d (simp (t, v, e, eq_refl, none-ne-password))

  open_password-key :
      (kdf : KdfParams) (ciphertext ad key : Text)
      → opts.password ≢ []
      → env.kdf ≡ some kdf
      → J.payload.unmarshal env.payload ≡ ok ciphertext
      → aad J env ≡ ok ad
      → P.argon2id opts.password kdf.salt kdf.time kdf.memory kdf.threads ≡ ok key
      → open_password P J env opts.password ≡ open_x_cha_cha P key env.nonce ciphertext ad
  unfolding open_password
  open_password-key kdf ct ad key g k c a d =
      let given : (opts.password == []) ≡ false = ground (arith, eq_iff opts.password []) in
      rw given (simp (k, c, a, d))

module _ (P : Primitives) (J : ProfileJson) (lawful : IsLawful P) where
  -- A password-protected file opens with its password, which is not the empty one, to its profile.
  pub parse-SealedUnder :
      (raw : Text) (opts : Options) (p : Profile)
      → opts.password ≢ []
      → SealedUnder P J raw opts.password p
      → parse P J raw opts ≡ ok p
  unfolding open_x_cha_cha
  parse-SealedUnder raw opts p given s =
      rw (parse-of_password P J raw opts s.env s.decoded s.tagged s.versioned s.mode) (
        rw
          (open_password-key P J raw opts s.env s.kdf s.ciphertext s.ad s.key given s.has_kdf
            s.carried s.has_ad s.derived)
          (rw (lawful.aead_key-length s.key) (
            rw s.key_size (
              rw
                (lawful.open-seal s.key s.env.nonce s.json s.ad s.ciphertext s.key_size s.nonce_size
                  s.text_sealed)
                (rw s.is_profile)))))

  -- A password-protected file whose nonce does not have 24 bytes is not refused: reading it with any
  -- password that is not empty panics, where the key derivation is given at least one pass and lane.
  pub parse-bad_nonce :
      (raw : Text) (opts : Options) (env : Envelope) (kdf : KdfParams) (ciphertext ad : Text)
      → J.envelope.unmarshal raw ≡ ok env
      → env.fmt ≡ format_tag
      → env.v ≡ pos 1
      → env.enc ≡ enc_password
      → opts.password ≢ []
      → env.kdf ≡ some kdf
      → 1 ≤ kdf.time
      → 1 ≤ kdf.threads
      → J.payload.unmarshal env.payload ≡ ok ciphertext
      → aad J env ≡ ok ad
      → eqb (length env.nonce) 24 ≡ false
      → parse P J raw opts ≡ panic
  unfolding open_x_cha_cha
  parse-bad_nonce raw opts env kdf ct ad d t v e g k one lanes c a n =
      let (key, made, size) =
        lawful.argon2id-key opts.password kdf.salt kdf.time kdf.memory kdf.threads one lanes in
      rw (parse-of_password P J raw opts env d t v e) (
        rw (open_password-key P J raw opts env kdf ct ad key g k c a made) (
          rw (lawful.aead_key-length key)
            (rw size (rw (lawful.open-panic key env.nonce ct ad size n)))))
