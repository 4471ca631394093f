-- ===== src/Profile/Parse.antt =====
-- Parse, openPassword and header of go/profile, and WrapPlaintext.
pub mod Laws
use caravel.Prelude.{
  Bool, not, ◌||◌, Option, [], length, is_empty, is_int, pos, none, if◌then◌else◌, Result, ok, err,
  ◌>>=◌, ◌>>◌, reject_if, or_err, as_err, not_pharos, unsupported_ver, password_needed,
  account_key_needed, unknown_enc, decode_payload,
}
use caravel.Prelude.Text.{Text, ◌==◌}
use caravel.Crypto.{Primitives, derive_kek, open_x_cha_cha, open_sealed}
use caravel.Profile.Types.{
  Envelope, Options, Profile, ProfileJson, format_tag, format_version, enc_none, enc_password,
  enc_account,
}

module _ (J : ProfileJson) where
  -- envelope.aad: the header without the payload.
  unfoldable pub aad : Envelope → Result Text
  aad e = J.envelope.marshal (record e { payload = [] })

  -- header
  unfoldable pub header : Text → Result Envelope
  header raw = do
    env ← as_err (J.envelope.unmarshal raw) not_pharos
    reject_if (not (env.fmt == format_tag)) not_pharos
    ok env

  -- WrapPlaintext
  unfoldable pub wrap_plaintext : Text → Result Text
  wrap_plaintext profile_json = J.envelope.marshal (record {
    fmt = format_tag;
    v = pos format_version;
    enc = enc_none;
    kdf = none;
    nonce = [];
    payload = profile_json;
  })

module _ (P : Primitives) (J : ProfileJson) where
  -- openPassword
  unfoldable pub open_password : Envelope → Text → Result Text
  unfolding aad derive_kek open_x_cha_cha
  open_password env password = do
    reject_if (password == []) password_needed
    kdf ← or_err env.kdf not_pharos
    ciphertext ← as_err (J.payload.unmarshal env.payload) not_pharos
    ad ← aad J env
    key ← derive_kek P password kdf.salt kdf.time kdf.memory kdf.threads
    open_x_cha_cha P key env.nonce ciphertext ad

  -- The EncAccount case of Parse's switch.
  unfoldable pub open_account : Envelope → Options → Result Text
  open_account env opts = do
    reject_if (is_empty opts.device_key || is_empty opts.signer_public) account_key_needed
    bundle ← as_err (J.crypto.sealed.unmarshal env.payload) not_pharos
    open_sealed P J.crypto bundle opts.device_key opts.signer_public

  -- Parse's switch on `enc`.
  unfoldable pub decrypt : Envelope → Options → Result Text
  unfolding open_password open_account
  decrypt env opts =
      if env.enc == enc_none
      then ok env.payload
      else if env.enc == enc_password
      then open_password env opts.password
      else if env.enc == enc_account
      then open_account env opts
      else err (unknown_enc env.enc)

  -- Parse; its first test is that of `header`.
  unfoldable pub parse : Text → Options → Result Profile
  unfolding header decrypt
  parse raw opts = do
    env ← header J raw
    reject_if (not (is_int env.v format_version)) (unsupported_ver env.v)
    plaintext ← decrypt env opts
    as_err (J.profile.unmarshal plaintext) decode_payload
