-- ===== src/Enroll/Fingerprint/Laws.antt =====
-- The decorated forms of a fingerprint that normalizeFingerprint reduces to the bare one.
use mathlib.Core.List.{reverse, reverse-append, reverse-reverse}
use mathlib.Core.Path.{ap₂}
use caravel.Prelude.{
  ℕ, ◌-◌, ◌≡◌, refl, ap, ◌∙◌, Bool, true, not, ◌&&◌, ◌||◌, List, [], ◌∷◌, ◌++◌, map, arith, &&-left,
  &&-right, leb, eqb, if◌then◌else◌, all_of,
}
use caravel.Prelude.Text.{
  Text, bytes, trim_space, trim_left, to_lower, lower, trim_prefix, remove_byte,
}
use caravel.Prelude.TextLaws.{strip_prefix-append}
use caravel.Enroll.Fingerprint.{normalize_fingerprint}

-- A byte of a bare fingerprint: '0' to '9' or 'a' to 'f'.
abbrev pub is_hex : ℕ → Bool
is_hex c = leb 48 c && leb c 57 || leb 97 c && leb c 102

abbrev pub IsBare : Text → Type 0
IsBare s = all_of is_hex s ≡ true

-- A colon between each two digits and the next, and upper case.
pub with_colons : Text → Text
with_colons (a ∷ b ∷ c ∷ s) = a ∷ b ∷ b':' ∷ with_colons (c ∷ s)
with_colons s = s

upper : ℕ → ℕ
upper c = if leb 97 c && leb c 122 then c - 32 else c

pub to_upper : Text → Text
unfolding upper
to_upper = map upper

-- Of the texts at hand no byte is white space.
abbrev is_dark : ℕ → Bool
is_dark c = not (leb c 32)

all_of-append {ℓ} :
    {A : Type ℓ} (p : A → Bool) (xs ys : List A)
    → all_of p (xs ++ ys) ≡ (all_of p xs && all_of p ys)
all_of-append p [] ys = refl
all_of-append p (x ∷ xs) ys = ground (arith, all_of-append p xs ys)

all_of-reverse {ℓ} : {A : Type ℓ} (p : A → Bool) (xs : List A) → all_of p (reverse xs) ≡ all_of p xs
all_of-reverse p [] = refl
all_of-reverse p (x ∷ xs) =
    ap (all_of p) (reverse-append (x ∷ []) xs)
    ∙ (all_of-append p (reverse xs) (x ∷ []) ∙ ground (arith, all_of-reverse p xs))

trim_left_dark : (s : Text) → all_of is_dark s ≡ true → trim_left s ≡ s
unfolding trim_left
trim_left_dark [] h = refl
trim_left_dark (c ∷ s) h = ground arith

trim_space_dark : (s : Text) → all_of is_dark s ≡ true → trim_space s ≡ s
unfolding trim_space
trim_space_dark s h =
    rw (trim_left_dark s h)
      (rw (trim_left_dark (reverse s) (all_of-reverse is_dark s ∙ h)) (reverse-reverse s))

-- The lower-case form of a decorated text, and its bytes.
lower-hex : (c : ℕ) → is_hex c ≡ true → lower c ≡ c
unfolding lower
lower-hex c h = ground arith

lower-upper : (c : ℕ) → is_hex c ≡ true → lower (upper c) ≡ c
unfolding lower upper
lower-upper c h = ground arith

to_lower-bare : (s : Text) → IsBare s → to_lower s ≡ s
unfolding to_lower
to_lower-bare [] h = refl
to_lower-bare (c ∷ s) h = ap₂ ◌∷◌ (lower-hex c (ground arith)) (to_lower-bare s (ground arith))

to_lower-with_colons : (s : Text) → IsBare s → to_lower (with_colons s) ≡ with_colons s
unfolding to_lower with_colons
to_lower-with_colons [] h = refl
to_lower-with_colons (a ∷ []) h = ap₂ ◌∷◌ (lower-hex a (ground arith)) refl
to_lower-with_colons (a ∷ b ∷ []) h =
    ap₂ ◌∷◌ (lower-hex a (ground arith)) (ap₂ ◌∷◌ (lower-hex b (ground arith)) refl)
to_lower-with_colons (a ∷ b ∷ c ∷ s) h = ap₂ ◌∷◌ (lower-hex a (ground arith)) (
    ap₂ ◌∷◌ (lower-hex b (ground arith))
      (ap₂ ◌∷◌ refl (to_lower-with_colons (c ∷ s) (ground arith))))

to_lower-upper : (s : Text) → IsBare s → to_lower (with_colons (to_upper s)) ≡ with_colons s
unfolding to_lower with_colons to_upper
to_lower-upper [] h = refl
to_lower-upper (a ∷ []) h = ap₂ ◌∷◌ (lower-upper a (ground arith)) refl
to_lower-upper (a ∷ b ∷ []) h =
    ap₂ ◌∷◌ (lower-upper a (ground arith)) (ap₂ ◌∷◌ (lower-upper b (ground arith)) refl)
to_lower-upper (a ∷ b ∷ c ∷ s) h =
    ap₂ ◌∷◌ (lower-upper a (ground arith)) (
      ap₂ ◌∷◌ (lower-upper b (ground arith)) (ap₂ ◌∷◌ refl (to_lower-upper (c ∷ s) (ground arith))))

dark-hex : (c : ℕ) → is_hex c ≡ true → is_dark c ≡ true
dark-hex c h = ground arith

colon-hex : (c : ℕ) → is_hex c ≡ true → not (eqb b':' c) ≡ true
colon-hex c h = ground arith

-- The first digit of a bare fingerprint, and the rest.
first_hex : (c : ℕ) (s : Text) → IsBare (c ∷ s) → is_hex c ≡ true
first_hex c s h = &&-left (is_hex c) (all_of is_hex s) h

rest_hex : (c : ℕ) (s : Text) → IsBare (c ∷ s) → IsBare s
rest_hex c s h = &&-right (is_hex c) (all_of is_hex s) h

with_colons_dark : (s : Text) → IsBare s → all_of is_dark (with_colons s) ≡ true
unfolding with_colons
with_colons_dark [] h = refl
with_colons_dark (a ∷ []) h = ground arith
with_colons_dark (a ∷ b ∷ []) h = ground arith
with_colons_dark (a ∷ b ∷ c ∷ s) h =
    let t = rest_hex a (b ∷ c ∷ s) h in
    rw (dark-hex a (first_hex a (b ∷ c ∷ s) h))
      (rw (dark-hex b (first_hex b (c ∷ s) t)) (with_colons_dark (c ∷ s) (rest_hex b (c ∷ s) t)))

bare_dark : (s : Text) → IsBare s → all_of is_dark s ≡ true
bare_dark [] h = refl
bare_dark (c ∷ s) h = rw (dark-hex c (first_hex c s h)) (bare_dark s (rest_hex c s h))

remove_byte-bare : (s : Text) → IsBare s → remove_byte b':' s ≡ s
unfolding remove_byte
remove_byte-bare [] h = refl
remove_byte-bare (c ∷ s) h =
    rw (colon-hex c (first_hex c s h)) (ap (λ r. c ∷ r) (remove_byte-bare s (rest_hex c s h)))

remove_byte-with_colons : (s : Text) → IsBare s → remove_byte b':' (with_colons s) ≡ s
unfolding remove_byte with_colons
remove_byte-with_colons [] h = refl
remove_byte-with_colons (a ∷ []) h = ground arith
remove_byte-with_colons (a ∷ b ∷ []) h = ground arith
remove_byte-with_colons (a ∷ b ∷ c ∷ s) h =
    let t = rest_hex a (b ∷ c ∷ s) h in
    rw (colon-hex a (first_hex a (b ∷ c ∷ s) h)) (
      rw (colon-hex b (first_hex b (c ∷ s) t))
        (ap (λ r. a ∷ b ∷ r) (remove_byte-with_colons (c ∷ s) (rest_hex b (c ∷ s) t))))

trim_prefix-bare : (s : Text) → IsBare s → trim_prefix s (bytes "sha256:") ≡ s
unfolding trim_prefix
trim_prefix-bare [] h = refl
trim_prefix-bare (c ∷ s) h = ground arith

trim_prefix-append : (p s : Text) → trim_prefix (p ++ s) p ≡ s
unfolding trim_prefix
trim_prefix-append p s = rw (strip_prefix-append p s, trim_prefix)

bare_form : (s : Text) → IsBare s → normalize_fingerprint s ≡ s
unfolding normalize_fingerprint
bare_form s h =
    rw (to_lower-bare s h)
      (rw (trim_space_dark s (bare_dark s h)) (rw (trim_prefix-bare s h) (remove_byte-bare s h)))

to_lower_prefix :
    (t s : Text)
    → to_lower t ≡ with_colons s
    → (to_lower (bytes "sha256:" ++ t) ≡ bytes "sha256:" ++ with_colons s)
      × (to_lower (bytes "SHA256:" ++ t) ≡ bytes "sha256:" ++ with_colons s)
unfolding to_lower
to_lower_prefix t s e = (ap (λ r. bytes "sha256:" ++ r) e, ap (λ r. bytes "sha256:" ++ r) e)

-- The bare form of "sha256:" and a text, once the text's lower-case form is known.
normalize-prefixed :
    (t s : Text)
    → IsBare s
    → to_lower t ≡ bytes "sha256:" ++ with_colons s
    → normalize_fingerprint t ≡ s
unfolding normalize_fingerprint
normalize-prefixed t s h e = rw e (
    rw (trim_space_dark (bytes "sha256:" ++ with_colons s) (with_colons_dark s h))
      (rw (trim_prefix-append (bytes "sha256:") (with_colons s)) (remove_byte-with_colons s h)))

-- A fingerprint in bare lower-case hex is left as it is, and both the form with the "sha256:" prefix
-- and colons between the bytes and its upper-case form are reduced to it.
pub normalize_fingerprint-decorated :
    (s : Text)
    → IsBare s
    → (normalize_fingerprint s ≡ s)
      × (normalize_fingerprint (bytes "sha256:" ++ with_colons s) ≡ s)
      × (normalize_fingerprint (bytes "SHA256:" ++ with_colons (to_upper s)) ≡ s)
normalize_fingerprint-decorated s h = (
  bare_form s h,
  normalize-prefixed (bytes "sha256:" ++ with_colons s) s h
      (to_lower_prefix (with_colons s) s (to_lower-with_colons s h)).0,
  normalize-prefixed (bytes "SHA256:" ++ with_colons (to_upper s)) s h
      (to_lower_prefix (with_colons (to_upper s)) s (to_lower-upper s h)).1,
)
