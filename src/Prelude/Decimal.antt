-- ===== src/Prelude/Decimal.antt =====
-- strconv.Itoa and strconv.Atoi on the numbers that the program prints and reads.
use Prim.Native.Nat.{ℕ, zero, suc, ◌+◌, ◌-◌, ◌*◌, ◌/◌, ◌%◌, ◌<◌}
use mathlib.Core.Path.{◌≡◌, refl, ◌∙◌}
use mathlib.Core.Bool.{Bool, false, ◌&&◌}
use mathlib.Core.Option.{Option, none, some}
use mathlib.Core.List.{[], ◌∷◌, ◌++◌}
use native.Mathlib.Omega.{arith}
use mathlib.Core.Logic.{inl, inr}
use caravel.Prelude.Tests.{ltb, leb, if◌then◌else◌, Bool-cases}
use caravel.Prelude.Lists.{any_of, any_of-append}
use caravel.Prelude.Text.{Text, has_byte}

-- The digits of n, the last by n % 10; n + 1 rounds are enough.
itoa_loop : ℕ → ℕ → Text
itoa_loop zero n = []
itoa_loop (suc f) n =
    let more = itoa_loop f (n / 10) ++ (48 + n % 10) ∷ [] in
    if ltb n 10 then (48 + n) ∷ [] else more

unfoldable pub itoa : ℕ → Text
unfolding itoa_loop
itoa n = itoa_loop (suc n) n

-- One digit after another; `none` at any other byte.
atoi_loop : ℕ → Text → Option ℕ
atoi_loop acc [] = some acc
atoi_loop acc (c ∷ s) =
    let rest = atoi_loop (acc * 10 + (c - 48)) s in if leb 48 c && leb c 57 then rest else none

-- An unsigned decimal number; the empty text is refused.
unfoldable pub atoi : Text → Option ℕ
unfolding atoi_loop
atoi [] = none
atoi (c ∷ s) = atoi_loop 0 (c ∷ s)

atoi_loop-append :
    (s t : Text) (acc m : ℕ) → atoi_loop acc s ≡ some m → atoi_loop acc (s ++ t) ≡ atoi_loop m t
unfolding atoi_loop
atoi_loop-append [] t acc m h = ground arith
atoi_loop-append (c ∷ s) t acc m h = ground (arith, atoi_loop-append s t (acc * 10 + (c - 48)) m)

-- The last digit of a number of two or more digits.
atoi_loop_last : (n : ℕ) → atoi_loop (n / 10) ((48 + n % 10) ∷ []) ≡ some n
unfolding atoi_loop
atoi_loop_last n = ground arith

atoi_loop-itoa_loop : (f n : ℕ) → n < f → atoi_loop 0 (itoa_loop f n) ≡ some n
unfolding itoa_loop
atoi_loop-itoa_loop zero n h = absurd (omega arith)
atoi_loop-itoa_loop (suc f) n h = elim (Bool-cases (ltb n 10)) [
  | inl small ↦ rw small (unfold atoi_loop in ground arith)
  | inr large ↦ rw large (
      atoi_loop-append (itoa_loop f (n / 10)) ((48 + n % 10) ∷ []) 0 (n / 10)
        (atoi_loop-itoa_loop f (n / 10) (ground arith))
      ∙ atoi_loop_last n)
]

atoi-append_digit : (s : Text) (c : ℕ) → atoi (s ++ c ∷ []) ≡ atoi_loop 0 (s ++ c ∷ [])
unfolding atoi
atoi-append_digit [] c = refl
atoi-append_digit (d ∷ s) c = refl

atoi-itoa_loop : (f n : ℕ) → atoi (itoa_loop (suc f) n) ≡ atoi_loop 0 (itoa_loop (suc f) n)
unfolding itoa_loop
atoi-itoa_loop f n = elim (Bool-cases (ltb n 10)) [
  | inl small ↦ rw small (atoi-append_digit [] (48 + n))
  | inr large ↦ rw large (atoi-append_digit (itoa_loop f (n / 10)) (48 + n % 10))
]

-- What Itoa prints, Atoi reads back.
pub atoi-itoa : (n : ℕ) → atoi (itoa n) ≡ some n
unfolding itoa
atoi-itoa n = atoi-itoa_loop n n ∙ atoi_loop-itoa_loop (suc n) n (omega arith)

-- The digits of a number do not contain a byte below '0' or above '9'.
itoa_loop_digits : (f n c : ℕ) → (leb 48 c && leb c 57) ≡ false → has_byte c (itoa_loop f n) ≡ false
unfolding itoa_loop
itoa_loop_digits zero n c h = refl
itoa_loop_digits (suc f) n c h = elim (Bool-cases (ltb n 10)) [
  | inl small ↦ rw small (ground arith)
  | inr large ↦ rw large (rw any_of-append (ground (arith, itoa_loop_digits f (n / 10) c h)))
]

pub has_byte-itoa : (n c : ℕ) → (leb 48 c && leb c 57) ≡ false → has_byte c (itoa n) ≡ false
unfolding itoa
has_byte-itoa n c h = itoa_loop_digits (suc n) n c h

-- A property that no digit has is one that no byte of a printed number has.
itoa_loop-any_of :
    (p : ℕ → Bool) (f n : ℕ)
    → ((d : ℕ) → d < 10 → p (48 + d) ≡ false)
    → any_of p (itoa_loop f n) ≡ false
unfolding itoa_loop
itoa_loop-any_of p zero n h = refl
itoa_loop-any_of p (suc f) n h = elim (Bool-cases (ltb n 10)) [
  | inl small ↦ rw small (ground (arith, h n))
  | inr large ↦
      rw large (rw any_of-append (ground (arith, itoa_loop-any_of p f (n / 10) h, h (n % 10))))
]

pub any_of-itoa :
    (p : ℕ → Bool) (n : ℕ) → ((d : ℕ) → d < 10 → p (48 + d) ≡ false) → any_of p (itoa n) ≡ false
unfolding itoa
any_of-itoa p n h = itoa_loop-any_of p (suc n) n h
