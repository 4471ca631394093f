-- ===== src/Enroll/Tests.antt =====
-- The package at concrete inputs.
use caravel.Prelude.{◌≡◌, refl, [], ◌∷◌}
use caravel.Prelude.Hex.{hex}
use caravel.Prelude.Text.{bytes, ◌==◌, trim_space, to_lower, trim_prefix, remove_byte}
use caravel.Crypto.{generate_device_csr, generate_key_pair, random_bytes}
use caravel.DeviceId.{
  encode_encryption_key, encryption_private_key, marshal, parse, with_defaults, validate,
}
use caravel.Enroll.Claim.{claim_rpc, validate_assembled, assemble, claim}
use caravel.Enroll.Claim.Laws.{Enrolled, claim-Enrolled}
use caravel.Enroll.Fingerprint.{cert_fingerprint, normalize_fingerprint}
use caravel.Enroll.Pin.{RelayPin, verify, verify_connection}
use caravel.Enroll.Pin.Laws.{verify-root_unused}
use caravel.Samples.Ciphers.{ciphers}
use caravel.Samples.Codecs.{pem, pem-IsLawful, bundle_codec, bundle_codec-RoundTrips}
use caravel.Samples.Devices.{bundle, pki}
use caravel.Samples.Joins.{link, pin, device, relay}

-- The chain of a relay that does not send its root.
abbrev rootless : RelayPin
rootless = record pin { chain = bytes "leaf" ∷ [] }

verify-root_unused_example :
    verify pki (record rootless { want_root = bytes "ffff" }) (bytes "fleet")
    ≡ verify pki rootless (bytes "fleet")
unfolding cert_fingerprint hex ◌==◌
verify-root_unused_example =
    verify-root_unused pki rootless (bytes "ffff") (bytes "fleet") refl refl

claim-Enrolled_example :
    Enrolled ciphers pem bundle_codec pki bundle_codec-RoundTrips device relay link
      (bytes "laptop")
      bundle
unfolding claim claim_rpc assemble validate_assembled generate_device_csr generate_key_pair
    random_bytes normalize_fingerprint trim_space to_lower trim_prefix remove_byte verify
    verify_connection cert_fingerprint hex encode_encryption_key encryption_private_key marshal
    with_defaults parse validate ◌==◌
claim-Enrolled_example =
    claim-Enrolled ciphers pem bundle_codec pki bundle_codec-RoundTrips pem-IsLawful device relay
      link (bytes "laptop") (bytes "linux") bundle refl
