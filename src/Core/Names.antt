-- ===== src/Core/Names.antt =====
-- sanitizeName and firstNonEmpty of go/core.go, on ASCII names.
use caravel.Prelude.{
  ℕ, ◌≡◌, refl, false, ◌||◌, List, [], ◌∷◌, map, eqb, arith, if◌then◌else◌, Bool-cases, inl, inr,
}
use caravel.Prelude.Text.{Text, bytes, ◌==◌, has_byte, trim_space}

-- The mapping of sanitizeName.
unfoldable pub safe_byte : ℕ → ℕ
safe_byte c = if eqb c b'/' || (eqb c b'\\' || (eqb c b':' || eqb c b' ')) then b'-' else c

-- sanitizeName
unfoldable pub sanitize_name : Text → Text
unfolding safe_byte
sanitize_name s = let t = map safe_byte (trim_space s) in if t == [] then bytes "profile" else t

-- firstNonEmpty
unfoldable pub first_non_empty : List Text → Text
first_non_empty [] = []
first_non_empty (s ∷ ss) = let rest = first_non_empty ss in if s == [] then rest else s

-- The bytes that the mapping replaces.
pub data IsUnsafe : ℕ → Type 0 where
  slash : IsUnsafe b'/'
  backslash : IsUnsafe b'\\'
  colon : IsUnsafe b':'
  space : IsUnsafe b' '

safe_byte_lem : (c d : ℕ) → IsUnsafe c → eqb c (safe_byte d) ≡ false
unfolding safe_byte
safe_byte_lem _ d slash = ground arith
safe_byte_lem _ d backslash = ground arith
safe_byte_lem _ d colon = ground arith
safe_byte_lem _ d space = ground arith

has_byte-map_safe : (c : ℕ) (s : Text) → IsUnsafe c → has_byte c (map safe_byte s) ≡ false
has_byte-map_safe c [] h = refl
has_byte-map_safe c (d ∷ s) h = rw (safe_byte_lem c d h) (has_byte-map_safe c s h)

default_name_lem :
    (c : ℕ)
    → IsUnsafe c
    → (has_byte c (bytes "profile") ≡ false) × ((bytes "profile" == []) ≡ false)
unfolding ◌==◌
default_name_lem _ slash = (refl, refl)
default_name_lem _ backslash = (refl, refl)
default_name_lem _ colon = (refl, refl)
default_name_lem _ space = (refl, refl)

-- A sanitized name is not empty and has no slash, backslash, colon or space.
pub sanitize_name_lem :
    (s : Text) (c : ℕ)
    → IsUnsafe c
    → (has_byte c (sanitize_name s) ≡ false) × ((sanitize_name s == []) ≡ false)
unfolding sanitize_name
sanitize_name_lem s c h = elim (Bool-cases (map safe_byte (trim_space s) == [])) [
  | inl e ↦ rw e (default_name_lem c h)
  | inr e ↦ rw e (has_byte-map_safe c (trim_space s) h, e)
]
