-- ===== src/Vp/Engine.antt =====
-- go/vp/engine.go: the configuration text of an AmneziaWG device. encoding/base64 is a parameter.
pub mod Settings
pub mod Values
pub mod Laws
pub mod Tests
use caravel.Prelude.{
  ℕ, ℤ, pos_part, ltb, not, Option, none, some, List, [], ◌∷◌, ◌++◌, map, length, eqb, is_empty,
  if◌then◌else◌, Result, ok, err, ◌>>=◌, ◌>>◌, or_err, reject_if, as_err, bad_private_key,
  bad_public_key, bad_preshared_key, bad_key_size,
}
use caravel.Prelude.Decimal.{itoa}
use caravel.Prelude.Hex.{hex}
use caravel.Prelude.Text.{Text, bytes, ◌==◌, trim_space}
use caravel.Vp.Engine.Settings.{render}

-- Obfuscation
pub record Obfuscation : Type 0 where
  pub jc : ℕ
  pub jmin : ℕ
  pub jmax : ℕ
  pub s1 : ℕ
  pub s2 : ℕ
  pub s3 : ℕ
  pub s4 : ℕ
  pub h1 : ℕ
  pub h2 : ℕ
  pub h3 : ℕ
  pub h4 : ℕ
  pub i1 : Text
  pub i2 : Text
  pub i3 : Text
  pub i4 : Text
  pub i5 : Text

-- Config
pub record Config : Type 0 where
  pub private_key : Text
  pub server_public_key : Text
  pub preshared_key : Text
  pub endpoint : Text
  pub allowed_ips : List Text
  pub keepalive : ℤ
  pub obfuscation : Obfuscation

-- A setting that is written where its value is not the empty text.
abbrev pub given : Text → Text → List (Text × Text)
given key value = if value == [] then [] else (key, value) ∷ []

-- The interface-level settings of the obfuscation.
unfoldable pub obfuscation_settings : Obfuscation → List (Text × Text)
obfuscation_settings o =
    (bytes "jc", itoa o.jc)
    ∷ (bytes "jmin", itoa o.jmin)
    ∷ (bytes "jmax", itoa o.jmax)
    ∷ (bytes "s1", itoa o.s1)
    ∷ (bytes "s2", itoa o.s2)
    ∷ (bytes "s3", itoa o.s3)
    ∷ (bytes "s4", itoa o.s4)
    ∷ (bytes "h1", itoa o.h1)
    ∷ (bytes "h2", itoa o.h2)
    ∷ (bytes "h3", itoa o.h3)
    ∷ (bytes "h4", itoa o.h4)
    ∷ (given (bytes "i1") o.i1
        ++ (given (bytes "i2") o.i2
            ++ (given (bytes "i3") o.i3 ++ (given (bytes "i4") o.i4 ++ given (bytes "i5") o.i5))))

abbrev pub default_routes : List Text
default_routes = bytes "0.0.0.0/0" ∷ bytes "::/0" ∷ []

-- The settings of the one peer, after its key; the preshared key is in hex, [] where there is none.
unfoldable pub peer_settings : Config → Text → List (Text × Text)
peer_settings cfg psk =
    given (bytes "preshared_key") psk
    ++ (given (bytes "endpoint") cfg.endpoint
        ++ ((if ltb 0 (pos_part cfg.keepalive)
              then (bytes "persistent_keepalive_interval", itoa (pos_part cfg.keepalive)) ∷ []
              else [])
            ++ map (λ a. (bytes "allowed_ip", a))
                (if is_empty cfg.allowed_ips then default_routes else cfg.allowed_ips)))

-- All settings in the order of the text.
unfoldable pub settings : Config → Text → Text → Text → List (Text × Text)
unfolding obfuscation_settings peer_settings
settings cfg priv pub_key psk =
    (bytes "private_key", priv)
    ∷ (obfuscation_settings cfg.obfuscation
        ++ ((bytes "public_key", pub_key) ∷ peer_settings cfg psk))

module _ (decode_base64 : Text → Option Text) where
  -- keyHex
  unfoldable pub key_hex : Text → Result Text
  key_hex b64 = do
    raw ← or_err (decode_base64 (trim_space b64)) bad_key_size
    reject_if (not (eqb (length raw) 32)) bad_key_size
    ok (hex raw)

  -- The preshared key in hex; the empty text where the configuration has none.
  psk_hex : Text → Result Text
  unfolding key_hex
  psk_hex key = if key == [] then ok [] else as_err (key_hex key) bad_preshared_key

  -- Config.uapi
  unfoldable pub uapi : Config → Result Text
  unfolding key_hex psk_hex settings
  uapi cfg = do
    priv ← as_err (key_hex cfg.private_key) bad_private_key
    pub_key ← as_err (key_hex cfg.server_public_key) bad_public_key
    psk ← psk_hex cfg.preshared_key
    ok (render (settings cfg priv pub_key psk))
