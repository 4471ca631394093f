-- ===== src/Vp/Engine/Laws.antt =====
-- What a device reads in its configuration text.
use caravel.Prelude.{
  ℕ, pos_part, ltb, ◌≡◌, refl, sym, ap, ◌∙◌, Bool, false, not, Bool-cases, ◌⊎◌, ◌≢◌, ◌++◌, some,
  or_err-eq-ok, inl, inr, Option, List, [], ◌∷◌, map, length, eqb, is_empty, any_of, arith,
  if◌then◌else◌, ok, or_err, as_err, as_err-eq-ok, >>=-eq-ok, reject_if-eq-ok, ok-injective,
  bad_private_key, bad_public_key, bad_preshared_key, bad_key_size,
}
use caravel.Prelude.Decimal.{itoa, has_byte-itoa}
use caravel.Prelude.Hex.{hex, has_byte-hex, length-hex}
use caravel.Prelude.Text.{Text, bytes, ◌==◌, eq_iff, has_byte, trim_space}
use caravel.Prelude.TextLaws.{ne_of_test}
use caravel.Vp.Engine.{
  Config, given, obfuscation_settings, default_routes, peer_settings, settings, key_hex, psk_hex,
  uapi,
}
use caravel.Vp.Engine.Values.{
  values, Obfuscates, obfuscation-Obfuscates, Peers, peer-Peers, peer-psk,
}
use caravel.Vp.Engine.Settings.{
  render, read_settings, IsClean, AllClean, no_settings, and_setting, AllClean-append,
  read_settings-render,
}

-- Whether one of several texts has a newline.
abbrev pub has_newline : List Text → Bool
has_newline = any_of (has_byte 10)

-- The free texts of a configuration have no newline.
pub record IsOneLine (cfg : Config) : Type 0 where
  pub endpoint : has_byte 10 cfg.endpoint ≡ false
  pub i1 : has_byte 10 cfg.obfuscation.i1 ≡ false
  pub i2 : has_byte 10 cfg.obfuscation.i2 ≡ false
  pub i3 : has_byte 10 cfg.obfuscation.i3 ≡ false
  pub i4 : has_byte 10 cfg.obfuscation.i4 ≡ false
  pub i5 : has_byte 10 cfg.obfuscation.i5 ≡ false
  pub allowed_ips : has_newline cfg.allowed_ips ≡ false

given-AllClean :
    (key value : Text)
    → has_byte 10 key ≡ false
    → has_byte b'=' key ≡ false
    → has_byte 10 value ≡ false
    → AllClean (given key value)
given-AllClean key value a b c = elim (Bool-cases (value == [])) [
  | inl e ↦ rw e no_settings
  | inr e ↦ rw e (and_setting (key, value) [] (a, b, c) no_settings)
]

number :
    (key : Text) (n : ℕ)
    → has_byte 10 key ≡ false
    → has_byte b'=' key ≡ false
    → IsClean (key, itoa n)
number key n a b = (a, b, has_byte-itoa n 10 refl)

routes-AllClean :
    (routes : List Text)
    → has_newline routes ≡ false
    → AllClean (map (λ a. (bytes "allowed_ip", a)) routes)
routes-AllClean [] h = no_settings
routes-AllClean (r ∷ rs) h =
    and_setting (bytes "allowed_ip", r) _ (refl, refl, ground arith)
      (routes-AllClean rs (ground arith))

obfuscation-AllClean :
    (cfg : Config) → IsOneLine cfg → AllClean (obfuscation_settings cfg.obfuscation)
unfolding obfuscation_settings
obfuscation-AllClean cfg c =
    let o = cfg.obfuscation in
    and_setting _ _ (number (bytes "jc") o.jc refl refl) (
      and_setting _ _ (number (bytes "jmin") o.jmin refl refl) (
        and_setting _ _ (number (bytes "jmax") o.jmax refl refl) (
          and_setting _ _ (number (bytes "s1") o.s1 refl refl) (
            and_setting _ _ (number (bytes "s2") o.s2 refl refl) (
              and_setting _ _ (number (bytes "s3") o.s3 refl refl) (
                and_setting _ _ (number (bytes "s4") o.s4 refl refl) (
                  and_setting _ _ (number (bytes "h1") o.h1 refl refl) (
                    and_setting _ _ (number (bytes "h2") o.h2 refl refl) (
                      and_setting _ _ (number (bytes "h3") o.h3 refl refl) (
                        and_setting _ _ (number (bytes "h4") o.h4 refl refl) (
                          AllClean-append (given-AllClean (bytes "i1") o.i1 refl refl c.i1) (
                            AllClean-append (given-AllClean (bytes "i2") o.i2 refl refl c.i2) (
                              AllClean-append (given-AllClean (bytes "i3") o.i3 refl refl c.i3) (
                                AllClean-append (given-AllClean (bytes "i4") o.i4 refl refl c.i4)
                                  (given-AllClean (bytes "i5") o.i5 refl refl c.i5)))))))))))))))

keepalive-AllClean :
    (n : ℕ)
    → AllClean (if ltb 0 n then (bytes "persistent_keepalive_interval", itoa n) ∷ [] else [])
keepalive-AllClean n = elim (Bool-cases (ltb 0 n)) [
  | inl e ↦
      rw e
        (and_setting _ _ (number (bytes "persistent_keepalive_interval") n refl refl) no_settings)
  | inr e ↦ rw e no_settings
]

all_routes-AllClean :
    (routes : List Text)
    → has_newline routes ≡ false
    → has_newline (if is_empty routes then default_routes else routes) ≡ false
all_routes-AllClean [] h = refl
all_routes-AllClean (r ∷ rs) h = h

settings-AllClean :
    (cfg : Config) (priv pub_key psk : Text)
    → IsOneLine cfg
    → has_byte 10 priv ≡ false
    → has_byte 10 pub_key ≡ false
    → has_byte 10 psk ≡ false
    → AllClean (settings cfg priv pub_key psk)
unfolding settings peer_settings
settings-AllClean cfg priv pub_key psk c a b d =
    and_setting (bytes "private_key", priv) _ (refl, refl, a)
      (AllClean-append (obfuscation-AllClean cfg c) (
        and_setting (bytes "public_key", pub_key) _ (refl, refl, b)
          (AllClean-append (given-AllClean (bytes "preshared_key") psk refl refl d) (
            AllClean-append (given-AllClean (bytes "endpoint") cfg.endpoint refl refl c.endpoint) (
              AllClean-append (keepalive-AllClean (pos_part cfg.keepalive))
                (routes-AllClean _ (all_routes-AllClean cfg.allowed_ips c.allowed_ips)))))))

module _ (decode_base64 : Text → Option Text) where
  -- A key of the configuration in hex: 32 bytes of base64, white space around it left out.
  abbrev pub IsKeyHex : Text → Text → Type 0
  IsKeyHex b64 key =
      (raw : Text) × (decode_base64 (trim_space b64) ≡ some raw)
      × (length raw ≡ 32)
      × (key ≡ hex raw)

  key_hex-IsKeyHex : (b64 key : Text) → key_hex decode_base64 b64 ≡ ok key → IsKeyHex b64 key
  unfolding key_hex
  key_hex-IsKeyHex b64 key h =
      let (raw, e, h1) = >>=-eq-ok (or_err (decode_base64 (trim_space b64)) bad_key_size) _ h in
      let (size, h2) = reject_if-eq-ok (not (eqb (length raw) 32)) bad_key_size _ h1 in
      (raw, or_err-eq-ok _ bad_key_size e, ground arith, sym (ok-injective (hex raw) key h2))

  IsKeyHex-clean : (b64 key : Text) → IsKeyHex b64 key → has_byte 10 key ≡ false
  IsKeyHex-clean b64 key (raw, _, _, e) = ap (has_byte 10) e ∙ has_byte-hex raw

  IsKeyHex-given : (b64 key : Text) → IsKeyHex b64 key → (key == []) ≡ false
  unfolding ◌==◌
  IsKeyHex-given b64 key (raw, _, size, e) =
      let double = length-hex raw in
      elim (Bool-cases (key == [])) [
        | inl empty ↦
            let none_left : length key ≡ 0 = ap length ((eq_iff key []).0 empty) in
            let same : length key ≡ length (hex raw) = ap length e in
            absurd (omega (arith, double, size, none_left, same))
        | inr given ↦ given
      ]

  -- The preshared key that the peer's settings hold.
  abbrev pub IsPsk : Text → List (Text × Text) → Type 0
  IsPsk psk peer =
      (psk ≡ [] → values (bytes "preshared_key") peer ≡ [])
      × (psk ≢ []
          → (key : Text) × IsKeyHex psk key × (values (bytes "preshared_key") peer ≡ key ∷ []))

  psk_hex-cases :
      (psk key : Text)
      → psk_hex decode_base64 psk ≡ ok key
      → ((psk ≡ []) × (key ≡ [])) ⊎ ((psk ≢ []) × IsKeyHex psk key)
  unfolding psk_hex
  psk_hex-cases psk key h = elim (Bool-cases (psk == [])) [
    | inl e ↦ inl ((eq_iff psk []).0 e, sym (ok-injective [] key (rw (e, psk_hex) at h)))
    | inr e ↦ inr (
      ne_of_test psk [] e,
      key_hex-IsKeyHex psk key (as_err-eq-ok _ bad_preshared_key (rw (e, psk_hex) at h)),
    )
  ]

  psk-clean :
      (psk key : Text)
      → ((psk ≡ []) × (key ≡ [])) ⊎ ((psk ≢ []) × IsKeyHex psk key)
      → has_byte 10 key ≡ false
  psk-clean psk key (inl (_, e)) = ap (has_byte 10) e
  psk-clean psk key (inr (_, k)) = IsKeyHex-clean psk key k

  peer-IsPsk :
      (cfg : Config) (key : Text)
      → ((cfg.preshared_key ≡ []) × (key ≡ []))
        ⊎ ((cfg.preshared_key ≢ []) × IsKeyHex cfg.preshared_key key)
      → IsPsk cfg.preshared_key (peer_settings cfg key)
  unfolding ◌==◌
  peer-IsPsk cfg key (inl (none_set, e)) =
      (λ _. peer-psk cfg key ∙ rw e refl, λ set. absurd (set none_set))
  peer-IsPsk cfg key (inr (set, k)) = (
    λ none_set. absurd (set none_set),
    λ _. (key, k, peer-psk cfg key ∙ rw (IsKeyHex-given cfg.preshared_key key k) refl),
  )

  -- What a device reads in a text, for a configuration: the interface's settings, then the peer's.
  pub record Configures (cfg : Config) (text : Text) : Type 0 where
    pub private_key : Text
    pub is_private : IsKeyHex cfg.private_key private_key
    pub public_key : Text
    pub is_public : IsKeyHex cfg.server_public_key public_key
    pub interface : List (Text × Text)
    pub peer : List (Text × Text)
    pub read :
        read_settings text
        ≡ (bytes "private_key", private_key)
          ∷ (interface ++ ((bytes "public_key", public_key) ∷ peer))
    pub obfuscated : Obfuscates cfg.obfuscation interface
    pub has_psk : IsPsk cfg.preshared_key peer
    pub connects : Peers cfg peer

  -- The configuration text of a tunnel whose free texts have no newline reads back line by line as the
  -- interface's private key and settings, then the peer's public key and settings. The keys are the 32
  -- decoded bytes in hexadecimal digits. The interface has each of the eleven numbers of the obfuscation
  -- under its own name and i1 to i5 where they are set; the peer has the preshared key where there is
  -- one, the endpoint where it is set, the keepalive where it is positive, and the configuration's
  -- routes or, where it has none, all of IPv4 and IPv6.
  pub uapi-Configures :
      (cfg : Config) (text : Text)
      → IsOneLine cfg
      → uapi decode_base64 cfg ≡ ok text
      → Configures cfg text
  unfolding uapi settings
  uapi-Configures cfg text c h =
      let (priv, e1, h1) =
        >>=-eq-ok (as_err (key_hex decode_base64 cfg.private_key) bad_private_key) _ h in
      let (pub_key, e2, h2) =
        >>=-eq-ok (as_err (key_hex decode_base64 cfg.server_public_key) bad_public_key) _ h1 in
      let (psk, e3, h3) = >>=-eq-ok (psk_hex decode_base64 cfg.preshared_key) _ h2 in
      let k1 = key_hex-IsKeyHex cfg.private_key priv (as_err-eq-ok _ bad_private_key e1) in
      let k2 = key_hex-IsKeyHex cfg.server_public_key pub_key (as_err-eq-ok _ bad_public_key e2) in
      let k3 = psk_hex-cases cfg.preshared_key psk e3 in
      let clean =
        settings-AllClean cfg priv pub_key psk c (IsKeyHex-clean cfg.private_key priv k1)
          (IsKeyHex-clean cfg.server_public_key pub_key k2) (psk-clean cfg.preshared_key psk k3) in
      record {
        private_key = priv;
        is_private = k1;
        public_key = pub_key;
        is_public = k2;
        interface = obfuscation_settings cfg.obfuscation;
        peer = peer_settings cfg psk;
        read =
            ap read_settings (sym (ok-injective (render (settings cfg priv pub_key psk)) text h3))
            ∙ read_settings-render (settings cfg priv pub_key psk) clean;
        obfuscated = obfuscation-Obfuscates cfg.obfuscation;
        has_psk = peer-IsPsk cfg psk k3;
        connects = peer-Peers cfg psk;
      }
