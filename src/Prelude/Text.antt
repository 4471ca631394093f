-- ===== src/Prelude/Text.antt =====
-- Go strings and byte slices as lists of bytes, with the functions of `strings` and
-- `path/filepath` that the program calls.
use Prim.Native.Char.{code}
use Prim.Native.Nat.{ℕ, ◌+◌}
use Prim.Native.String.{String}
use mathlib.Core.Path.{◌≡◌, refl}
use mathlib.Core.Logic.{◌↔◌}
use mathlib.Core.Bool.{Bool, true, false, not, ◌&&◌, ◌||◌}
use mathlib.Core.Option.{Option, none, some}
use mathlib.Core.List.{List, [], ◌∷◌, map, reverse}
use native.Mathlib.Omega.{arith}
use caravel.Prelude.Tests.{leb, eqb, if◌then◌else◌}
use caravel.Prelude.Lists.{any_of, keep_if}

abbrev pub Text : Type 0
Text = List ℕ

-- The bytes of an ASCII literal.
abbrev pub bytes : String → Text
bytes String.[] = []
bytes (String.◌∷◌ c s) = code c ∷ bytes s

-- Go's `==` on strings.
infix 50 ◌==◌
unfoldable pub ◌==◌ : Text → Text → Bool
[] == [] = true
[] == (_ ∷ _) = false
(_ ∷ _) == [] = false
(a ∷ s) == (b ∷ t) = eqb a b && s == t

pub eq_iff : (s t : Text) → ((s == t) ≡ true) ↔ (s ≡ t)
unfolding ◌==◌
eq_iff [] [] = (λ _. refl, λ _. refl)
eq_iff [] (b ∷ t) = (λ h. cc, λ h. cc)
eq_iff (a ∷ s) [] = (λ h. cc, λ h. cc)
eq_iff (a ∷ s) (b ∷ t) = (λ h. ground (arith, eq_iff s t), λ h. ground (arith, eq_iff s t))

pub eq_refl : (s : Text) → (s == s) ≡ true
eq_refl s = (eq_iff s s).1 refl

-- strings.IndexByte(s, c) >= 0
abbrev pub has_byte : ℕ → Text → Bool
has_byte c = any_of (λ d. eqb c d)

-- s[:i] for the first index of c, all of s where there is none.
unfoldable pub before_byte : ℕ → Text → Text
before_byte c [] = []
before_byte c (d ∷ s) = let rest = before_byte c s in if eqb c d then [] else d ∷ rest

-- strings.TrimPrefix
unfoldable pub strip_prefix : Text → Text → Option Text
strip_prefix [] s = some s
strip_prefix (p ∷ ps) [] = none
strip_prefix (p ∷ ps) (c ∷ s) = let rest = strip_prefix ps s in if eqb p c then rest else none

unfoldable pub trim_prefix : Text → Text → Text
unfolding strip_prefix
trim_prefix s p = elim (strip_prefix p s) [ none ↦ s | some rest ↦ rest ]

-- strings.TrimSuffix: the prefix function on the reversed text.
unfoldable pub has_suffix : Text → Text → Bool
unfolding strip_prefix
has_suffix s p = elim (strip_prefix (reverse p) (reverse s)) [ none ↦ false | some _ ↦ true ]

unfoldable pub trim_suffix : Text → Text → Text
unfolding strip_prefix
trim_suffix s p = elim (strip_prefix (reverse p) (reverse s)) [
  | none ↦ s
  | some rest ↦ reverse rest
]

-- The ASCII white space of unicode.IsSpace: tab, newline, vertical tab, form feed, return, space.
unfoldable pub is_space : ℕ → Bool
is_space c = eqb c 32 || (leb 9 c && leb c 13)

unfoldable pub trim_left : Text → Text
unfolding is_space
trim_left [] = []
trim_left (c ∷ s) = let rest = trim_left s in if is_space c then rest else c ∷ s

-- strings.TrimSpace, of ASCII text
unfoldable pub trim_space : Text → Text
unfolding trim_left
trim_space s = reverse (trim_left (reverse (trim_left s)))

-- strings.ToLower, of ASCII text
unfoldable pub lower : ℕ → ℕ
lower c = if leb 65 c && leb c 90 then c + 32 else c

unfoldable pub to_lower : Text → Text
unfolding lower
to_lower = map lower

-- strings.ReplaceAll(s, string(c), "")
unfoldable pub remove_byte : ℕ → Text → Text
remove_byte c = keep_if (λ d. not (eqb c d))
