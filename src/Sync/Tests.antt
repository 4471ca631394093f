-- ===== src/Sync/Tests.antt =====
-- The package at concrete inputs.
use caravel.Prelude.{◌≡◌, refl, pos, Option, some, [], ok, if◌then◌else◌}
use caravel.Prelude.Text.{Text, bytes, ◌==◌}
use caravel.Prelude.TextLaws.{cons-ne-nil}
use caravel.DeviceId.{encryption_private_key}
use caravel.Samples.Ciphers.{ciphers, ciphers-IsLawful}
use caravel.Samples.Codecs.{pem, crypto_json}
use caravel.Samples.Devices.{bundle, pki}
use caravel.Samples.Sealed.{device_key, sealed, sealed_text, signer, sealed-SealedTo}
use caravel.Samples.Services.{login, remote, service, network, randomness}
use caravel.Sync.{Fetched, dial, fetch}
use caravel.Sync.Calls.{authenticate}
use caravel.Sync.Checks.{Dialled}
use caravel.Sync.Fetch.{
  Opened, fetch-Conversation, fetch-Opened, fetch-SealedTo, fetch-signing_key_unused,
}
use caravel.Sync.Laws.{Conversation}

abbrev fetched : Fetched
fetched = record {
  user_id = bytes "user";
  revision = pos 3;
  plaintext = bytes "profile";
  sealed = sealed_text;
  signer_public = signer;
  device_key = device_key;
}

fetch-Conversation_example :
    Conversation
      (some device_key)
      (authenticate [] (if [] == [] then [] else bytes "pass"))
      (fetch ciphers pem crypto_json pki network service randomness bundle [] (bytes "pass") []).1
unfolding encryption_private_key ◌==◌
fetch-Conversation_example =
    fetch-Conversation ciphers pem crypto_json pki network service randomness bundle
      (some device_key) [] (bytes "pass") refl

fetched_done :
    (fetch ciphers pem crypto_json pki network service randomness bundle [] (bytes "pass") []).0
    ≡ ok fetched
unfolding encryption_private_key dial ◌==◌
fetched_done =
    fetch-SealedTo ciphers pem crypto_json pki network service ciphers-IsLawful randomness bundle
      device_key [] (bytes "pass") (bytes "profile") login remote sealed refl refl refl cons-ne-nil
      refl refl sealed-SealedTo

fetch-Opened_example :
    (own : Option Text) × (encryption_private_key pem bundle ≡ ok own)
    × Dialled pki network bundle
    × Opened ciphers crypto_json service own (bytes "pass") fetched
fetch-Opened_example =
    fetch-Opened ciphers pem crypto_json pki network service randomness bundle [] (bytes "pass")
      fetched fetched_done

fetch-signing_key_unused_example :
    fetch ciphers pem crypto_json pki network service randomness
      (record bundle { signing_public_key = bytes "other" })
      []
      (bytes "pass")
      []
    ≡ fetch ciphers pem crypto_json pki network service randomness bundle [] (bytes "pass") []
fetch-signing_key_unused_example =
    fetch-signing_key_unused ciphers pem crypto_json pki network service randomness bundle
      (bytes "other") [] (bytes "pass")
