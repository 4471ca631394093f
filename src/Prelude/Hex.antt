-- ===== src/Prelude/Hex.antt =====
-- hex.EncodeToString.
use Prim.Native.Nat.{ℕ, ◌+◌, ◌/◌, ◌%◌}
use mathlib.Core.Path.{◌≡◌, refl}
use mathlib.Core.Bool.{false}
use mathlib.Core.List.{[], ◌∷◌}
use native.Mathlib.Omega.{arith}
use caravel.Prelude.Lists.{length}
use caravel.Prelude.Tests.{ltb, eqb, if◌then◌else◌}
use caravel.Prelude.Text.{Text, has_byte}

hex_digit : ℕ → ℕ
hex_digit n = if ltb n 10 then 48 + n else 87 + n

unfoldable pub hex : Text → Text
unfolding hex_digit
hex [] = []
hex (c ∷ s) = hex_digit (c / 16) ∷ hex_digit (c % 16) ∷ hex s

hex_digit-ne-newline : (n : ℕ) → eqb 10 (hex_digit n) ≡ false
unfolding hex_digit
hex_digit-ne-newline n = ground arith

-- Hexadecimal text has no newline.
pub has_byte-hex : (s : Text) → has_byte 10 (hex s) ≡ false
unfolding hex
has_byte-hex [] = refl
has_byte-hex (c ∷ s) =
    rw (hex_digit-ne-newline (c / 16), hex_digit-ne-newline (c % 16)) (has_byte-hex s)

pub length-hex : (s : Text) → length (hex s) ≡ length s + length s
unfolding hex
length-hex [] = refl
length-hex (c ∷ s) = let ih = length-hex s in omega (arith, ih)
