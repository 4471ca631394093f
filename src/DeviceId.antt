-- ===== src/DeviceId.antt =====
-- go/deviceid: the `.pharosid` bundle that holds a device's identity.
pub mod Laws
pub mod Tests
use caravel.Prelude.{
  ℕ, ℤ, pos, ◌≡◌, false, Bool, not, ◌&&◌, Option, none, some, [], length, eqb, is_int,
  if◌then◌else◌, Result, ok, err, panic, ◌>>=◌, ◌>>◌, reject_if, as_err, device_json,
  not_device_bundle, unsupported_device_version, missing_relay_addr, missing_fleet_ca,
  missing_device_cert, missing_device_key, malformed_encryption_key, encryption_key_size,
}
use caravel.Prelude.Text.{Text, bytes, ◌==◌}
use caravel.Json.{Codec}

abbrev pub encryption_key_pem_type : Text
encryption_key_pem_type = bytes "X25519 PRIVATE KEY"

abbrev pub format_tag : Text
format_tag = bytes "pharos-device"

abbrev pub format_version : ℕ
format_version = 1

abbrev pub extension : Text
extension = bytes ".pharosid"

-- Bundle
pub record Bundle : Type 0 where
  pub fmt : Text
  pub v : ℤ
  pub user : Text
  pub alias : Text
  pub relay_addr : Text
  pub relay_server_name : Text
  pub ca_fingerprint : Text
  pub fleet_ca_pem : Text
  pub device_cert_pem : Text
  pub device_key_pem : Text
  pub signing_public_key : Text
  pub encryption_key_pem : Text

-- pem.Block, without its headers
pub record Block : Type 0 where
  pub type : Text
  pub contents : Text

-- encoding/pem: the first block of a text, and the text of a block.
pub record Pem : Type 0 where
  pub decode : Text → Option Block
  pub encode : Block → Text

-- What is encoded decodes to the block, and is not the empty text.
pub record IsLawful (E : Pem) : Type 0 where
  pub decode-encode : (b : Block) → E.decode (E.encode b) ≡ some b
  pub encode-given : (b : Block) → (E.encode b == []) ≡ false

module _ (E : Pem) where
  key_of_block : Option Block → Result Text
  key_of_block none = err malformed_encryption_key
  key_of_block (some b) =
      if not (b.type == encryption_key_pem_type)
      then err malformed_encryption_key
      else if not (eqb (length b.contents) 32)
      then err (encryption_key_size (length b.contents))
      else ok b.contents

  -- (Bundle).EncryptionPrivateKey. Go's nil slice, for a bundle with no key, is `none`.
  unfoldable pub encryption_private_key : Bundle → Result (Option Text)
  unfolding key_of_block
  encryption_private_key b =
      if b.encryption_key_pem == []
      then ok none
      else do key ← key_of_block (E.decode b.encryption_key_pem); ok (some key)

  -- EncodeEncryptionKey
  unfoldable pub encode_encryption_key : Text → Result Text
  encode_encryption_key priv =
      if not (eqb (length priv) 32)
      then err (encryption_key_size (length priv))
      else ok (E.encode (record { type = encryption_key_pem_type; contents = priv }))

-- The defaults that Marshal fills in.
unfoldable pub with_defaults : Bundle → Bundle
with_defaults b = record b {
  fmt = if b.fmt == [] then format_tag else b.fmt;
  v = if is_int b.v 0 then pos format_version else b.v;
}

-- (Bundle).validate
unfoldable pub validate : Bundle → Result (Unit {0})
validate b = do
  reject_if (b.relay_addr == []) missing_relay_addr
  reject_if (b.fleet_ca_pem == []) missing_fleet_ca
  reject_if (b.device_cert_pem == []) missing_device_cert
  reject_if (b.device_key_pem == []) missing_device_key

module _ (J : Codec Bundle) where
  -- (Bundle).Marshal
  unfoldable pub marshal : Bundle → Result Text
  unfolding with_defaults
  marshal b = J.marshal (with_defaults b)

  -- Parse
  unfoldable pub parse : Text → Result Bundle
  unfolding validate
  parse raw = do
    b ← as_err (J.unmarshal raw) device_json
    reject_if (not (b.fmt == format_tag)) not_device_bundle
    reject_if (not (is_int b.v format_version)) (unsupported_device_version b.v)
    validate b
    ok b
