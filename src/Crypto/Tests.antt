-- ===== src/Crypto/Tests.antt =====
-- The package at concrete inputs.
use caravel.Prelude.{◌≡◌, refl, true, some, ok}
use caravel.Prelude.Text.{Text, bytes, ◌==◌, strip_prefix}
use caravel.Crypto.{
  open_sealed, wrap_private_key, unwrap_private_key, signing_bytes, verify_profile_signature,
}
use caravel.Crypto.Seal.{open_sealed-verified, open_sealed-SealedTo}
use caravel.Crypto.Wrap.{unwrap-wrap}
use caravel.Samples.Ciphers.{ciphers, ciphers-IsLawful, unseal}
use caravel.Samples.Codecs.{crypto_json, wrapped_codec-RoundTrips}
use caravel.Samples.Sealed.{value_of, nonce24, salt16, device_key, signer, sealed, sealed-SealedTo}

abbrev blob : Text
unfolding wrap_private_key
blob = value_of (
    wrap_private_key ciphers crypto_json (λ _. some salt16) (λ _. some nonce24) (bytes "pass")
      device_key)

unwrap-wrap_example : unwrap_private_key ciphers crypto_json (bytes "pass") blob ≡ ok device_key
unfolding wrap_private_key
unwrap-wrap_example =
    unwrap-wrap ciphers crypto_json ciphers-IsLawful wrapped_codec-RoundTrips (λ _. some salt16)
      (λ _. some nonce24) (bytes "pass") device_key nonce24 blob refl refl refl

open_sealed-verified_example :
    (t : Text) × (signing_bytes crypto_json sealed ≡ ok t)
    × (verify_profile_signature ciphers t sealed.signature signer ≡ true)
unfolding open_sealed unseal strip_prefix ◌==◌
open_sealed-verified_example =
    open_sealed-verified ciphers crypto_json sealed device_key signer (bytes "profile") refl

open_sealed-SealedTo_example :
    open_sealed ciphers crypto_json sealed device_key signer ≡ ok (bytes "profile")
open_sealed-SealedTo_example =
    open_sealed-SealedTo ciphers crypto_json ciphers-IsLawful sealed device_key signer
      (bytes "profile") sealed-SealedTo
