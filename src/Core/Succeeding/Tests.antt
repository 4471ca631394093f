-- ===== src/Core/Succeeding/Tests.antt =====
-- A sync with a relay and a service that do their part, at concrete inputs.
use caravel.Prelude.{◌≡◌, refl, some, [], ok, as_err, decode_payload}
use caravel.Prelude.Text.{bytes, ◌==◌, has_suffix, trim_suffix, trim_space}
use caravel.Prelude.TextLaws.{cons-ne-nil}
use caravel.DeviceId
use caravel.DeviceId.{encryption_private_key, with_defaults, validate}
use caravel.Profile.Parse.{wrap_plaintext}
use caravel.Profile.Store.{path, base}
use caravel.Sync.{dial}
use caravel.Core.{sync_and_store}
use caravel.Core.Listing.{read_bundle}
use caravel.Core.Names.{sanitize_name, first_non_empty}
use caravel.Core.Succeeding.{sync_and_store-succeeds}
use caravel.Samples.Ciphers.{ciphers, ciphers-IsLawful}
use caravel.Samples.Codecs.{pem, bundle_codec, profile_json-EnvelopeLaws}
use caravel.Samples.Devices.{bundle, bundle_text, pki}
use caravel.Samples.Hosts.{host, store, markers}
use caravel.Samples.Profiles.{document, awg, xray, json, blank}
use caravel.Samples.Sealed.{device_key, sealed, sealed-SealedTo, value_of}
use caravel.Samples.Services.{login, remote, service, network, randomness}

sync_and_store-succeeds_example :
    ((sync_and_store ciphers pem json bundle_codec markers pki network host
        (some store)
        service
        randomness
        bundle_text
        []
        (bytes "pass")
        blank).0
      ≡ ok (bytes "laptop"))
    × (read_bundle ciphers json
          (sync_and_store ciphers pem json bundle_codec markers pki network host
            (some store)
            service
            randomness
            bundle_text
            []
            (bytes "pass")
            blank).1
          (bytes "laptop")
        ≡ as_err (json.profile.unmarshal (bytes "profile")) decode_payload)
unfolding DeviceId.parse with_defaults validate encryption_private_key dial wrap_plaintext
    sanitize_name first_non_empty trim_space path base trim_suffix has_suffix ◌==◌
sync_and_store-succeeds_example =
    sync_and_store-succeeds ciphers pem json bundle_codec markers pki network host
      (profile_json-EnvelopeLaws document awg xray) service randomness ciphers-IsLawful store bundle
      bundle_text device_key [] (bytes "pass") (bytes "profile")
      (value_of (wrap_plaintext json (bytes "profile"))) login remote sealed blank refl refl refl
      refl cons-ne-nil refl refl sealed-SealedTo refl refl refl
