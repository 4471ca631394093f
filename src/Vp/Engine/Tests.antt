-- ===== src/Vp/Engine/Tests.antt =====
-- A configuration text at a concrete input.
use caravel.Prelude.{refl, pos, Option, some, []}
use caravel.Prelude.Decimal.{itoa}
use caravel.Prelude.Hex.{hex}
use caravel.Prelude.Text.{Text, bytes, ◌==◌}
use caravel.Samples.Sealed.{value_of, device_key}
use caravel.Vp.Engine.{Config, settings, key_hex, psk_hex, uapi}
use caravel.Vp.Engine.Laws.{IsOneLine, Configures, uapi-Configures}
use caravel.Vp.Engine.Settings.{render}

abbrev config : Config
config = record {
  private_key = bytes "priv";
  server_public_key = bytes "pub";
  preshared_key = [];
  endpoint = bytes "192.0.2.1:443";
  allowed_ips = [];
  keepalive = pos 25;
  obfuscation = record {
    jc = 4;
    jmin = 40;
    jmax = 70;
    s1 = 0;
    s2 = 0;
    s3 = 0;
    s4 = 0;
    h1 = 1;
    h2 = 2;
    h3 = 3;
    h4 = 4;
    i1 = bytes "<b 0x00>";
    i2 = [];
    i3 = [];
    i4 = [];
    i5 = [];
  };
}

abbrev decode : Text → Option Text
decode s = some device_key

abbrev config_text : Text
unfolding uapi key_hex settings render itoa hex ◌==◌
config_text = value_of (uapi decode config)

config-IsOneLine : IsOneLine config
config-IsOneLine = record {
  endpoint = refl;
  i1 = refl;
  i2 = refl;
  i3 = refl;
  i4 = refl;
  i5 = refl;
  allowed_ips = refl;
}

uapi-Configures_example : Configures decode config config_text
unfolding uapi key_hex psk_hex ◌==◌ config_text render
uapi-Configures_example = uapi-Configures decode config config_text config-IsOneLine refl
