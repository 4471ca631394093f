-- ===== src/Core/Enrolling/Tests.antt =====
-- An enrollment at concrete inputs.
use caravel.Prelude.{refl, some}
use caravel.Prelude.Hex.{hex}
use caravel.Prelude.Text.{
  bytes, ◌==◌, has_suffix, trim_suffix, trim_space, to_lower, trim_prefix, remove_byte,
}
use caravel.Crypto.{
  generate_device_csr, generate_key_pair, random_bytes, open_sealed, verify_profile_signature,
  signing_bytes, open_x, open_x_cha_cha, derive_wrap_key,
}
use caravel.DeviceId
use caravel.DeviceId.{
  encode_encryption_key, encryption_private_key, marshal, with_defaults, validate,
}
use caravel.Disk
use caravel.Enroll.Claim.{claim_rpc, validate_assembled, assemble, claim}
use caravel.Enroll.Fingerprint.{cert_fingerprint, normalize_fingerprint}
use caravel.Enroll.Link.{get, parse_link}
use caravel.Enroll.Pin.{verify, verify_connection}
use caravel.Profile.Parse.{wrap_plaintext, header}
use caravel.Profile.Store.{path, base, import}
use caravel.Sync.{dial, fetch, exchange, after_login, pull_and_open, enroll_first_device}
use caravel.Sync.Open.{decryption_key, open_profile}
use caravel.Sync.Calls.{log_in, pull}
use caravel.Core.{sync_bundle, store_synced, fetch_and_store, enroll}
use caravel.Core.Names.{sanitize_name, first_non_empty}
use caravel.Core.Sidecars.{purge_cloud, purge_entries, remove_all, sidecars}
use caravel.Core.Enrolling.{IsEnrolled, enroll-IsEnrolled}
use caravel.Samples.Ciphers.{ciphers, unseal}
use caravel.Samples.Codecs.{
  pem, pem-IsLawful, bundle_codec, bundle_codec-RoundTrips, profile_json-EnvelopeLaws,
}
use caravel.Samples.Devices.{pki}
use caravel.Samples.Hosts.{host, store, markers}
use caravel.Samples.Joins.{url_parse, device, relay}
use caravel.Samples.Profiles.{document, awg, xray, json, blank}
use caravel.Samples.Services.{service, network, randomness}

enroll-IsEnrolled_example :
    IsEnrolled ciphers pem json bundle_codec markers pki network host
      (profile_json-EnvelopeLaws document awg xray)
      bundle_codec-RoundTrips
      pem-IsLawful
      relay
      service
      randomness
      url_parse
      device
      (bytes " join")
      (bytes "laptop")
      (bytes "laptop")
      (enroll ciphers pem json bundle_codec markers pki network host
        (some store)
        url_parse
        device
        relay
        service
        randomness
        (bytes " join")
        (bytes "laptop")
        (bytes "linux")
        blank).1
unfolding enroll parse_link get url_parse claim claim_rpc assemble validate_assembled
    generate_device_csr generate_key_pair random_bytes normalize_fingerprint trim_space to_lower
    trim_prefix remove_byte verify verify_connection cert_fingerprint hex encode_encryption_key
    encryption_private_key marshal with_defaults DeviceId.parse validate fetch_and_store sync_bundle
    store_synced fetch dial exchange after_login pull_and_open enroll_first_device log_in pull
    open_sealed verify_profile_signature signing_bytes open_x open_x_cha_cha derive_wrap_key import
    header wrap_plaintext purge_cloud purge_entries remove_all Disk.write Disk.remove sanitize_name
    first_non_empty path base trim_suffix has_suffix sidecars Disk.names ◌==◌ decryption_key
    open_profile unseal
enroll-IsEnrolled_example =
    enroll-IsEnrolled ciphers pem json bundle_codec markers pki network host
      (profile_json-EnvelopeLaws document awg xray) bundle_codec-RoundTrips pem-IsLawful relay
      service randomness (some store) url_parse device (bytes " join") (bytes "laptop")
      (bytes "linux") blank (bytes "laptop") refl refl
