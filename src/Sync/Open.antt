-- ===== src/Sync/Open.antt =====
-- decryptionKey and openProfile of go/sync/client.go.
use caravel.Prelude.{
  Option, none, some, is_empty, if◌then◌else◌, Result, ok, err, ◌>>=◌, as_err, no_wrapped_key,
  malformed_sealed_bundle,
}
use caravel.Prelude.Text.{Text}
use caravel.Crypto.{Primitives, CryptoJson, unwrap_private_key, open_sealed}
use caravel.Sync.Calls.{RemoteProfile}

module _ (P : Primitives) (J : CryptoJson) where
  -- decryptionKey
  unfoldable pub decryption_key : Option Text → Text → Text → Result Text
  decryption_key (some device_priv) password wrapped = ok device_priv
  decryption_key none password wrapped =
      if is_empty wrapped then err no_wrapped_key else unwrap_private_key P J password wrapped

  -- openProfile
  unfoldable pub open_profile : RemoteProfile → Text → Result Text
  open_profile rp key = do
    bundle ← as_err (J.sealed.unmarshal rp.ciphertext) malformed_sealed_bundle
    open_sealed P J bundle key rp.signing_public_key
