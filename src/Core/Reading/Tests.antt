-- ===== src/Core/Reading/Tests.antt =====
-- A profile that is synced and read at concrete inputs.
use caravel.Prelude.{◌≡◌, refl, some, [], ok}
use caravel.Prelude.Text.{bytes, ◌==◌, has_suffix, trim_suffix, trim_space}
use caravel.Crypto.{
  open_sealed, verify_profile_signature, signing_bytes, open_x, open_x_cha_cha, derive_wrap_key,
}
use caravel.DeviceId
use caravel.DeviceId.{Bundle, encryption_private_key, with_defaults, validate}
use caravel.Disk
use caravel.Profile.Parse.{wrap_plaintext, header}
use caravel.Profile.Store.{path, base, import}
use caravel.Sync.{dial, fetch, exchange, after_login, pull_and_open, enroll_first_device}
use caravel.Sync.Open.{decryption_key, open_profile}
use caravel.Sync.Calls.{log_in, pull}
use caravel.Core.{sync_bundle, store_synced, fetch_and_store, sync_and_store}
use caravel.Core.Names.{sanitize_name, first_non_empty}
use caravel.Core.Reading.{IsFetched, sync_and_store-IsFetched}
use caravel.Core.Sidecars.{purge_cloud, purge_entries, remove_all, sidecars}
use caravel.Samples.Ciphers.{ciphers, unseal}
use caravel.Samples.Codecs.{pem, bundle_codec, profile_json-EnvelopeLaws}
use caravel.Samples.Devices.{bundle_text, pki}
use caravel.Samples.Hosts.{host, store, markers}
use caravel.Samples.Profiles.{document, awg, xray, json, blank}
use caravel.Samples.Services.{service, network, randomness}

sync_and_store-IsFetched_example :
    (b : Bundle) × (DeviceId.parse bundle_codec bundle_text ≡ ok b)
    × IsFetched ciphers pem json bundle_codec markers pki network host
        (profile_json-EnvelopeLaws document awg xray)
        service
        randomness
        b
        []
        (bytes "pass")
        (sync_and_store ciphers pem json bundle_codec markers pki network host
          (some store)
          service
          randomness
          bundle_text
          []
          (bytes "pass")
          blank).1
        (bytes "laptop")
unfolding DeviceId.parse with_defaults validate sync_and_store fetch_and_store sync_bundle
    store_synced fetch dial exchange after_login pull_and_open enroll_first_device log_in pull
    encryption_private_key open_sealed verify_profile_signature signing_bytes open_x open_x_cha_cha
    derive_wrap_key import header wrap_plaintext purge_cloud purge_entries remove_all Disk.write
    Disk.remove sanitize_name first_non_empty trim_space path base trim_suffix has_suffix sidecars
    Disk.names ◌==◌ decryption_key open_profile unseal
sync_and_store-IsFetched_example =
    sync_and_store-IsFetched ciphers pem json bundle_codec markers pki network host
      (profile_json-EnvelopeLaws document awg xray) service randomness (some store) bundle_text []
      (bytes "pass") blank (bytes "laptop") refl refl
