-- ===== src/Prelude/TextLaws.antt =====
-- Laws of the text functions.
use mathlib.Core.List.{[], ◌∷◌, ◌++◌, reverse, reverse-append, reverse-reverse}
use mathlib.Core.Path.{◌≡◌, refl, sym, ap, ◌∙◌}
use mathlib.Core.Logic.{◌≢◌}
use mathlib.Core.Bool.{Bool, true, false}
use mathlib.Core.Option.{Option, none, some}
use native.Mathlib.Omega.{arith}
use Prim.Native.Nat.{ℕ}
use caravel.Prelude.Tests.{eqb}
use caravel.Prelude.Lists.{any_of, any_of-append}
use caravel.Prelude.Text.{
  Text, ◌==◌, eq_iff, is_space, trim_left, trim_space, has_byte, before_byte, strip_prefix,
  trim_suffix, has_suffix,
}

-- Reversal keeps the bytes of a text.
pub has_byte-reverse : (c : ℕ) (s : Text) → has_byte c (reverse s) ≡ has_byte c s
has_byte-reverse c [] = refl
has_byte-reverse c (d ∷ s) =
    ap (has_byte c) (reverse-append (d ∷ []) s)
    ∙ (any_of-append (λ e. eqb c e) (reverse s) (d ∷ []) ∙ ground (arith, has_byte-reverse c s))

pub has_byte-before_byte : (c : ℕ) (s : Text) → has_byte c (before_byte c s) ≡ false
unfolding before_byte
has_byte-before_byte c [] = refl
has_byte-before_byte c (d ∷ s) = ground (arith, has_byte-before_byte c s)

-- What stands behind a prefix holds no byte that the text does not hold.
has_byte-strip_prefix :
    (c : ℕ) (p s rest : Text)
    → strip_prefix p s ≡ some rest
    → has_byte c s ≡ false
    → has_byte c rest ≡ false
unfolding strip_prefix
has_byte-strip_prefix c [] s rest h n = ground arith
has_byte-strip_prefix c (d ∷ p) [] rest h n = cc
has_byte-strip_prefix c (d ∷ p) (e ∷ s) rest h n =
    has_byte-strip_prefix c p s rest (ground arith) (ground arith)

pub has_byte-trim_suffix :
    (c : ℕ) (s p : Text) → has_byte c s ≡ false → has_byte c (trim_suffix s p) ≡ false
has_byte-trim_suffix c s p n = go (strip_prefix (reverse p) (reverse s)) refl
  where
    go :
        (o : Option Text)
        → strip_prefix (reverse p) (reverse s) ≡ o
        → has_byte c (trim_suffix s p) ≡ false
    go none e = unfold trim_suffix in rw (e, trim_suffix) n
    go (some rest) e =
        unfold trim_suffix in
        rw (e, trim_suffix)
          (rw (has_byte-reverse c rest)
            (has_byte-strip_prefix c (reverse p) (reverse s) rest e (rw (has_byte-reverse c s) n)))

-- Stripping a prefix that was put in front.
pub strip_prefix-append : (p s : Text) → strip_prefix p (p ++ s) ≡ some s
unfolding strip_prefix
strip_prefix-append [] s = refl
strip_prefix-append (c ∷ p) s = ground (arith, strip_prefix-append p s)

pub has_suffix-append : (s p : Text) → has_suffix (s ++ p) p ≡ true
unfolding has_suffix
has_suffix-append s p =
    rw (reverse-append s p, has_suffix)
      (rw (strip_prefix-append (reverse p) (reverse s), has_suffix))

pub trim_suffix-append : (s p : Text) → trim_suffix (s ++ p) p ≡ s
unfolding trim_suffix
trim_suffix-append s p =
    rw (reverse-append s p, trim_suffix)
      (rw (strip_prefix-append (reverse p) (reverse s), trim_suffix) (reverse-reverse s))

strip_prefix-eq-some : (p s rest : Text) → strip_prefix p s ≡ some rest → s ≡ p ++ rest
unfolding strip_prefix
strip_prefix-eq-some [] s rest h = ground arith
strip_prefix-eq-some (c ∷ p) [] rest h = cc
strip_prefix-eq-some (c ∷ p) (d ∷ s) rest h = ground (arith, strip_prefix-eq-some p s rest)

restored :
    (s p rest : Text) → strip_prefix (reverse p) (reverse s) ≡ some rest → reverse rest ++ p ≡ s
restored s p rest e = sym (
    sym (reverse-reverse s)
    ∙ (ap reverse (strip_prefix-eq-some (reverse p) (reverse s) rest e)
        ∙ (reverse-append (reverse p) rest
            ∙ ap (λ (t : Text). reverse rest ++ t) (reverse-reverse p))))

not_suffix : (s p : Text) → strip_prefix (reverse p) (reverse s) ≡ none → has_suffix s p ≡ false
unfolding has_suffix
not_suffix s p e = rw (e, has_suffix) refl

is_suffix :
    (s p rest : Text) → strip_prefix (reverse p) (reverse s) ≡ some rest → has_suffix s p ≡ true
unfolding has_suffix
is_suffix s p rest e = rw (e, has_suffix) refl

-- A suffix that is there stands behind what TrimSuffix leaves.
pub trim_suffix-restore : (s p : Text) → has_suffix s p ≡ true → trim_suffix s p ++ p ≡ s
trim_suffix-restore s p h = go (strip_prefix (reverse p) (reverse s)) refl
  where
    go : (o : Option Text) → strip_prefix (reverse p) (reverse s) ≡ o → trim_suffix s p ++ p ≡ s
    go none e = absurd (cc (h, not_suffix s p e))
    go (some rest) e = unfold trim_suffix in rw (e, trim_suffix) (restored s p rest e)

pub trim_suffix-absent : (s p : Text) → has_suffix s p ≡ false → trim_suffix s p ≡ s
trim_suffix-absent s p h = go (strip_prefix (reverse p) (reverse s)) refl
  where
    go : (o : Option Text) → strip_prefix (reverse p) (reverse s) ≡ o → trim_suffix s p ≡ s
    go none e = unfold trim_suffix in rw (e, trim_suffix) refl
    go (some rest) e = absurd (cc (h, is_suffix s p rest e))

-- A text with a byte is not empty.
pub cons-ne-nil : {c : ℕ} {s : Text} → c ∷ s ≢ []
cons-ne-nil h = cc

-- Inequality by the Boolean test.
pub ne_of_test : (s t : Text) → (s == t) ≡ false → s ≢ t
ne_of_test s t h e = let same = (eq_iff s t).1 e in cc

-- A text without white space is not trimmed.
trim_left-solid : (s : Text) → any_of is_space s ≡ false → trim_left s ≡ s
unfolding trim_left
trim_left-solid [] h = refl
trim_left-solid (c ∷ s) h = ground arith

any_of-reverse : (p : ℕ → Bool) (s : Text) → any_of p s ≡ false → any_of p (reverse s) ≡ false
any_of-reverse p [] h = refl
any_of-reverse p (c ∷ s) h =
    ap (any_of p) (reverse-append (c ∷ []) s)
    ∙ (any_of-append p (reverse s) (c ∷ []) ∙ ground (arith, any_of-reverse p s))

pub trim_space-solid : (s : Text) → any_of is_space s ≡ false → trim_space s ≡ s
unfolding trim_space
trim_space-solid s h =
    ap (λ (t : Text). reverse (trim_left (reverse t))) (trim_left-solid s h)
    ∙ (ap reverse (trim_left-solid (reverse s) (any_of-reverse is_space s h)) ∙ reverse-reverse s)
