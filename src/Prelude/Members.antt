-- ===== src/Prelude/Members.antt =====
-- Membership in the lists that the loops build and index.
use mathlib.Core.List.{Memᴰ, List, [], ◌∷◌}
use mathlib.Core.List.Memᴰ.{head, tail}
use mathlib.Core.Path.{◌≡◌, refl, sym, ap}
use mathlib.Core.Logic.{◌⊎◌, inl, inr}
use mathlib.Core.Bool.{Bool, true, false}
use mathlib.Core.Option.{none, some, some-injective}
use native.Mathlib.Omega.{arith}
use Prim.Native.Nat.{ℕ, zero, suc, ◌<◌}
use caravel.Prelude.Tests.{Bool-cases}
use caravel.Prelude.Lists.{any_of, keep_if, find_first, get_elem?, length}

module _ {ℓ} {A : Type ℓ} where
  pub cases_cons : {a b : A} {l : List A} → Memᴰ a (b ∷ l) → (a ≡ b) ⊎ Memᴰ a l
  cases_cons (head e) = inl e
  cases_cons (tail m) = inr m

module _ {ℓ} {A : Type ℓ} where
  pub mem_of_keep_if :
      (p : A → Bool) (xs : List A) (x : A) → Memᴰ x (keep_if p xs) → Memᴰ x xs × (p x ≡ true)
  mem_of_keep_if p [] x h = elim h [ ]
  mem_of_keep_if p (y ∷ ys) x h = elim (Bool-cases (p y)) [
    | inl e ↦ elim (cases_cons (rw e at h)) [
      | inl same ↦ (head same, rw same e)
      | inr m ↦ let (m', t) = mem_of_keep_if p ys x m in (tail m', t)
    ]
    | inr e ↦ let (m, t) = mem_of_keep_if p ys x (rw e at h) in (tail m, t)
  ]

  -- A list that passes a test somewhere has a member that passes it.
  pub mem_of_any_of :
      (p : A → Bool) (xs : List A) → any_of p xs ≡ true → (x : A) × Memᴰ x xs × (p x ≡ true)
  mem_of_any_of p [] h = cc
  mem_of_any_of p (y ∷ ys) h = elim (Bool-cases (p y)) [
    | inl e ↦ (y, head refl, e)
    | inr e ↦ let (x, m, t) = mem_of_any_of p ys (rw e at h) in (x, tail m, t)
  ]

  pub mem-keep_if :
      (p : A → Bool) {x : A} {xs : List A} → Memᴰ x xs → p x ≡ true → Memᴰ x (keep_if p xs)
  mem-keep_if p {xs = []} m h = elim m [ ]
  mem-keep_if p {xs = y ∷ ys} (head e) h = let q : p y ≡ true = rw (← e) h in rw q (head e)
  mem-keep_if p {xs = y ∷ ys} (tail m) h = elim (Bool-cases (p y)) [
    | inl e ↦ rw e (tail (mem-keep_if p m h))
    | inr e ↦ rw e (mem-keep_if p m h)
  ]

  pub mem_of_get_elem? : (xs : List A) (i : ℕ) (x : A) → get_elem? xs i ≡ some x → Memᴰ x xs
  mem_of_get_elem? [] i x h = cc
  mem_of_get_elem? (y ∷ ys) zero x h = head (sym (some-injective y x h))
  mem_of_get_elem? (y ∷ ys) (suc i) x h = tail (mem_of_get_elem? ys i x h)

  pub get_elem?_of_mem :
      {x : A} {xs : List A} → Memᴰ x xs → (i : ℕ) × (i < length xs) × (get_elem? xs i ≡ some x)
  get_elem?_of_mem {xs = []} m = elim m [ ]
  get_elem?_of_mem {xs = y ∷ ys} (head e) = (zero, omega arith, ap some (sym e))
  get_elem?_of_mem {xs = y ∷ ys} (tail m) =
      let (i, lt, e) = get_elem?_of_mem m in (suc i, omega arith, e)

  -- What a search finds is a member with the property, and one exists whenever it finds none.
  pub find_first-mem :
      (p : A → Bool) (xs : List A) (x : A) → find_first p xs ≡ some x → Memᴰ x xs × (p x ≡ true)
  find_first-mem p [] x h = cc
  find_first-mem p (y ∷ ys) x h = elim (Bool-cases (p y)) [
    | inl e ↦ let same : y ≡ x = some-injective y x (rw e at h) in (head (sym same), rw (← same) e)
    | inr e ↦ let (m, t) = find_first-mem p ys x (rw e at h) in (tail m, t)
  ]

  pub find_first-none :
      (p : A → Bool) {x : A} {xs : List A} → Memᴰ x xs → find_first p xs ≡ none → p x ≡ false
  find_first-none p {xs = []} m h = elim m [ ]
  find_first-none p {xs = y ∷ ys} (head e) h = rw e (ground arith)
  find_first-none p {xs = y ∷ ys} (tail m) h = find_first-none p m (ground arith)
