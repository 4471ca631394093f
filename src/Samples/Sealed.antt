-- ===== src/Samples/Sealed.antt =====
-- A profile document sealed to a device's key and signed by a controller.
use caravel.Prelude.{refl, pos, [], ◌++◌, Result, ok}
use caravel.Prelude.Text.{Text, bytes, ◌==◌}
use caravel.Crypto.{SealedBundle, signing_bytes, derive_wrap_key}
use caravel.Crypto.Seal.{SealedTo}
use caravel.Samples.Ciphers.{ciphers, common_secret, pad}
use caravel.Samples.Codecs.{crypto_json}

abbrev pub value_of : Result Text → Text
value_of (ok t) = t
value_of _ = []

abbrev pub nonce24 : Text
nonce24 = pad 24 (bytes "nonce")

abbrev pub salt16 : Text
salt16 = pad 16 (bytes "salt")

abbrev pub device_key : Text
device_key = pad 32 (bytes "device")

abbrev pub data_key : Text
data_key = pad 32 (bytes "data")

abbrev pub signer : Text
signer = pad 32 (bytes "signer")

abbrev pub unsigned : SealedBundle
unsigned = record {
  v = pos 1;
  eph_public = pad 32 (bytes "eph");
  wrap_nonce = nonce24;
  wrapped_key = (common_secret ++ nonce24) ++ data_key;
  nonce = nonce24;
  ciphertext = (data_key ++ nonce24) ++ bytes "profile";
  signature = [];
}

-- What the controller signs.
abbrev pub signed : Text
signed = value_of (crypto_json.sealed.marshal unsigned)

abbrev pub sealed : SealedBundle
sealed = record unsigned { signature = signer ++ signed }

abbrev pub sealed_text : Text
sealed_text = value_of (crypto_json.sealed.marshal sealed)

pub sealed-SealedTo : SealedTo ciphers crypto_json sealed device_key signer (bytes "profile")
unfolding signing_bytes derive_wrap_key ◌==◌
sealed-SealedTo = record {
  signed = signed;
  signing = refl;
  signer_size = refl;
  verifies = refl;
  ephemeral = bytes "eph";
  offered = refl;
  recipient_public = device_key;
  published = refl;
  shared = common_secret;
  agreed = refl;
  wrap_key = common_secret;
  derived = refl;
  wrap_key_size = refl;
  wrap_nonce_size = refl;
  data_key = data_key;
  data_key_size = refl;
  nonce_size = refl;
  key_sealed = refl;
  text_sealed = refl;
}
