-- ===== src/Samples/Codecs.antt =====
-- Codecs that round-trip, and an encoding of PEM blocks.
use caravel.Prelude.{
  ℕ, ℤ, ◌≡◌, refl, ap, Option, none, some, [], ok, err, if◌then◌else◌, decode_payload,
}
use caravel.Prelude.Text.{Text, bytes, ◌==◌}
use caravel.Json.{Codec, RoundTrips}
use caravel.Crypto.{CryptoJson, SealedBundle, WrappedKey}
use caravel.DeviceId.{Bundle, Block, Pem, IsLawful}
use caravel.Profile.Types.{
  ProfileJson, EnvelopeLaws, Envelope, KdfParams, Profile, AmneziaWg, XrayReality,
}
use caravel.Samples.Wire.{Wire, text, int, nat, option, ◌<*>◌, codec, codec-RoundTrips}

abbrev pub sealed_codec : Codec SealedBundle
sealed_codec =
    codec (int <*> text <*> text <*> text <*> text <*> text <*> text)
      (λ b. (
        b.v,
        (b.eph_public, (b.wrap_nonce, (b.wrapped_key, (b.nonce, (b.ciphertext, b.signature))))),
      ))
      (λ t. record {
        v = t.0;
        eph_public = t.1.0;
        wrap_nonce = t.1.1.0;
        wrapped_key = t.1.1.1.0;
        nonce = t.1.1.1.1.0;
        ciphertext = t.1.1.1.1.1.0;
        signature = t.1.1.1.1.1.1;
      })

abbrev pub wrapped_wire : Wire (ℤ × (Text × (Text × Text)))
wrapped_wire = int <*> text <*> text <*> text

abbrev pub wrapped_codec : Codec WrappedKey
wrapped_codec =
    codec wrapped_wire (λ k. (k.v, (k.salt, (k.nonce, k.ct))))
      (λ t. record { v = t.0; salt = t.1.0; nonce = t.1.1.0; ct = t.1.1.1 })

pub wrapped_codec-RoundTrips : RoundTrips wrapped_codec
wrapped_codec-RoundTrips = codec-RoundTrips wrapped_wire _ _ (λ k. refl)

abbrev pub crypto_json : CryptoJson
crypto_json = record { sealed = sealed_codec; wrapped = wrapped_codec }

abbrev pub bundle_wire : Wire (
    Text
    × (ℤ × (Text × (Text × (Text × (Text × (Text × (Text × (Text × (Text × (Text × (Text))))))))))))
bundle_wire =
    text <*> int <*> text <*> text <*> text <*> text <*> text <*> text <*> text <*> text <*> text
    <*> text

abbrev pub bundle_codec : Codec Bundle
bundle_codec =
    codec bundle_wire
      (λ b. (
        b.fmt,
        (
          b.v,
          (
            b.user,
            (
              b.alias,
              (
                b.relay_addr,
                (
                  b.relay_server_name,
                  (
                    b.ca_fingerprint,
                    (
                      b.fleet_ca_pem,
                      (
                        b.device_cert_pem,
                        (b.device_key_pem, (b.signing_public_key, b.encryption_key_pem)),
                      ),
                    ),
                  ),
                ),
              ),
            ),
          ),
        ),
      ))
      (λ t. record {
        fmt = t.0;
        v = t.1.0;
        user = t.1.1.0;
        alias = t.1.1.1.0;
        relay_addr = t.1.1.1.1.0;
        relay_server_name = t.1.1.1.1.1.0;
        ca_fingerprint = t.1.1.1.1.1.1.0;
        fleet_ca_pem = t.1.1.1.1.1.1.1.0;
        device_cert_pem = t.1.1.1.1.1.1.1.1.0;
        device_key_pem = t.1.1.1.1.1.1.1.1.1.0;
        signing_public_key = t.1.1.1.1.1.1.1.1.1.1.0;
        encryption_key_pem = t.1.1.1.1.1.1.1.1.1.1.1;
      })

pub bundle_codec-RoundTrips : RoundTrips bundle_codec
bundle_codec-RoundTrips = codec-RoundTrips bundle_wire _ _ (λ b. refl)

-- A PEM block: a byte that is not the empty text, and the two parts.
abbrev pub block_of : Option ((Text × Text) × Text) → Option Block
block_of none = none
block_of (some ((type, contents), _)) = some (record { type = type; contents = contents })

abbrev pub pem_block : Wire (Text × Text)
pem_block = text <*> text

abbrev pub pem : Pem
pem = record {
  decode = λ s. block_of (pem_block.get s);
  encode = λ b. pem_block.put (b.type, b.contents) [];
}

pub pem-IsLawful : IsLawful pem
unfolding ◌==◌
pem-IsLawful = record {
  decode-encode = λ b. ap block_of (pem_block.get-put (b.type, b.contents) []);
  encode-given = λ b. refl;
}

abbrev pub kdf_params : Wire (Text × (ℕ × (ℕ × (ℕ × Text))))
kdf_params = text <*> nat <*> nat <*> nat <*> text

abbrev pub kdf_fields : Option KdfParams → Option (Text × (ℕ × (ℕ × (ℕ × Text))))
kdf_fields none = none
kdf_fields (some k) = some (k.algo, (k.time, (k.memory, (k.threads, k.salt))))

abbrev pub kdf_of : Option (Text × (ℕ × (ℕ × (ℕ × Text)))) → Option KdfParams
kdf_of none = none
kdf_of (some (a, (t, (m, (p, s))))) =
    some (record { algo = a; time = t; memory = m; threads = p; salt = s })

kdf_of-kdf_fields : (o : Option KdfParams) → kdf_of (kdf_fields o) ≡ o
kdf_of-kdf_fields none = refl
kdf_of-kdf_fields (some k) = refl

abbrev pub envelope_of :
    Text × (ℤ × (Text × (Option (Text × (ℕ × (ℕ × (ℕ × Text)))) × (Text × Text)))) → Envelope
envelope_of t = record {
  fmt = t.0;
  v = t.1.0;
  enc = t.1.1.0;
  kdf = kdf_of t.1.1.1.0;
  nonce = t.1.1.1.1.0;
  payload = t.1.1.1.1.1;
}

abbrev pub envelope_wire :
    Wire (Text × (ℤ × (Text × (Option (Text × (ℕ × (ℕ × (ℕ × Text)))) × (Text × Text)))))
envelope_wire = text <*> int <*> text <*> option kdf_params <*> text <*> text

abbrev pub envelope_codec : Codec Envelope
envelope_codec =
    codec envelope_wire (λ e. (e.fmt, (e.v, (e.enc, (kdf_fields e.kdf, (e.nonce, e.payload))))))
      envelope_of

pub envelope_codec-RoundTrips : RoundTrips envelope_codec
envelope_codec-RoundTrips =
    codec-RoundTrips envelope_wire _ _
      (λ e. ap (λ (o : Option KdfParams). record e { kdf = o }) (kdf_of-kdf_fields e.kdf))

-- A codec that knows one value and its text.
abbrev pub only : {A : Type 0} → Text → A → Codec A
only t a = record {
  marshal = λ _. ok t;
  unmarshal = λ s. if s == t then ok a else err decode_payload;
}

-- The codecs of a program whose one profile document and one entry of each protocol are given.
abbrev pub profile_json : Profile → AmneziaWg → XrayReality → ProfileJson
profile_json p a x = record {
  envelope = envelope_codec;
  profile = only (bytes "profile") p;
  payload = record { marshal = λ t. ok t; unmarshal = λ t. ok t };
  crypto = crypto_json;
  amnezia_wg = only (bytes "awg") a;
  xray_reality = only (bytes "xray") x;
  compact = λ t. t;
}

pub profile_json-EnvelopeLaws :
    (p : Profile) (a : AmneziaWg) (x : XrayReality) → EnvelopeLaws (profile_json p a x)
profile_json-EnvelopeLaws p a x = record {
  unmarshal-marshal = λ e t h. envelope_codec-RoundTrips.unmarshal-marshal e t h;
  profile-compact = λ t. refl;
}
