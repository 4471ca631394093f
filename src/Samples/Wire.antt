-- ===== src/Samples/Wire.antt =====
-- A small self-delimiting encoding: what a value is put into is read back, whatever follows it.
use caravel.Prelude.{
  ℕ, zero, suc, ℤ, pos, negsuc, ◌≡◌, refl, ap, Option, none, some, [], ◌∷◌, ◌++◌, length, Result,
  ok, err, device_json,
}
use caravel.Prelude.Text.{Text}
use caravel.Json.{Codec, RoundTrips}

pub record Wire (A : Type 0) : Type 0 where
  pub put : A → Text → Text
  pub get : Text → Option (A × Text)
  pub get-put : (a : A) (rest : Text) → get (put a rest) ≡ some (a, rest)

abbrev pub cons_first : ℕ → Option (Text × Text) → Option (Text × Text)
cons_first c none = none
cons_first c (some (a, b)) = some (c ∷ a, b)

-- The first n bytes and the others.
abbrev pub split_at : ℕ → Text → Option (Text × Text)
split_at zero s = some ([], s)
split_at (suc n) [] = none
split_at (suc n) (c ∷ s) = cons_first c (split_at n s)

pub split_at-append : (t rest : Text) → split_at (length t) (t ++ rest) ≡ some (t, rest)
split_at-append [] rest = refl
split_at-append (c ∷ t) rest = ap (cons_first c) (split_at-append t rest)

abbrev pub get_text : Text → Option (Text × Text)
get_text [] = none
get_text (n ∷ s) = split_at n s

abbrev pub text : Wire Text
text = record {
  put = λ t rest. length t ∷ (t ++ rest);
  get = get_text;
  get-put = λ t rest. split_at-append t rest;
}

abbrev pub get_int : Text → Option (ℤ × Text)
get_int (zero ∷ n ∷ rest) = some (pos n, rest)
get_int (suc _ ∷ n ∷ rest) = some (negsuc n, rest)
get_int _ = none

abbrev pub put_int : ℤ → Text → Text
put_int (pos n) rest = 0 ∷ n ∷ rest
put_int (negsuc n) rest = 1 ∷ n ∷ rest

pub get_int-put_int : (z : ℤ) (rest : Text) → get_int (put_int z rest) ≡ some (z, rest)
get_int-put_int (pos n) rest = refl
get_int-put_int (negsuc n) rest = refl

abbrev pub int : Wire ℤ
int = record { put = put_int; get = get_int; get-put = get_int-put_int }

abbrev pub get_nat : Text → Option (ℕ × Text)
get_nat [] = none
get_nat (n ∷ rest) = some (n, rest)

abbrev pub nat : Wire ℕ
nat = record { put = λ n rest. n ∷ rest; get = get_nat; get-put = λ n rest. refl }

module _ {A B : Type 0} where
  abbrev pub and_then : Option (A × Text) → (A → Text → Option (B × Text)) → Option (B × Text)
  and_then none f = none
  and_then (some (a, rest)) f = f a rest

infixr 20 ◌<*>◌
abbrev pub get_pair : {A B : Type 0} → Wire A → Wire B → Text → Option ((A × B) × Text)
get_pair {A} {B} u v s =
    and_then (u.get s) (λ a rest. and_then (v.get rest) (λ b rest'. some ((a, b), rest')))

abbrev pub ◌<*>◌ : {A B : Type 0} → Wire A → Wire B → Wire (A × B)
u <*> v = record {
  put = λ p rest. u.put p.0 (v.put p.1 rest);
  get = get_pair u v;
  get-put = λ p rest. rw (u.get-put p.0 (v.put p.1 rest)) (rw (v.get-put p.1 rest) refl);
}

abbrev pub get_option : {A : Type 0} → Wire A → Text → Option (Option A × Text)
get_option u [] = none
get_option u (zero ∷ s) = some (none, s)
get_option u (suc _ ∷ s) = and_then (u.get s) (λ a rest. some (some a, rest))

abbrev pub put_option : {A : Type 0} → Wire A → Option A → Text → Text
put_option u none rest = 0 ∷ rest
put_option u (some a) rest = 1 ∷ u.put a rest

pub get_option-put_option :
    {A : Type 0} (u : Wire A) (o : Option A) (rest : Text)
    → get_option u (put_option u o rest) ≡ some (o, rest)
get_option-put_option u none rest = refl
get_option-put_option u (some a) rest = rw (u.get-put a rest) refl

abbrev pub option : {A : Type 0} → Wire A → Wire (Option A)
option u = record { put = put_option u; get = get_option u; get-put = get_option-put_option u }

-- The codec of a type that a record of wires describes.
module _ {A B : Type 0} (u : Wire B) (to : A → B) (from : B → A) where
  abbrev pub read_back : Option (B × Text) → Result A
  read_back none = err device_json
  read_back (some (b, _)) = ok (from b)

  abbrev pub codec : Codec A
  codec = record { marshal = λ a. ok (u.put (to a) []); unmarshal = λ t. read_back (u.get t) }

  pub codec-RoundTrips : ((a : A) → from (to a) ≡ a) → RoundTrips codec
  codec-RoundTrips same = record {
    unmarshal-marshal =
        λ a t h. rw (← marshalled a t h) (rw (u.get-put (to a) []) (ap ok (same a)));
  }
    where
      marshalled : (a : A) (t : Text) → codec.marshal a ≡ ok t → u.put (to a) [] ≡ t
      marshalled a t h = cc
