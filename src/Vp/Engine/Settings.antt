-- ===== src/Vp/Engine/Settings.antt =====
-- A device's configuration text: lines of the form key=value, and how a reader takes them apart.
use caravel.Prelude.{
  ◌≡◌, refl, sym, ap, ◌∙◌, false, none, some, List, [], ◌∷◌, ◌++◌, eqb, arith, any_of-append,
  if◌then◌else◌,
}
use mathlib.Core.List.{append_assoc, append-nil}
use caravel.Prelude.Text.{Text, has_byte}
use caravel.Profile.HostPort.{split_first, split_first-cons}

-- The line of a setting, with its newline.
abbrev pub line : Text × Text → Text
line (key, value) = key ++ (b'=' ∷ value)

unfoldable pub render : List (Text × Text) → Text
render [] = []
render (s ∷ ss) = line s ++ (10 ∷ render ss)

-- The lines of a text, without their newlines; the bytes of the line at hand come first.
unfoldable pub read_lines : Text → Text → List Text
read_lines acc [] = []
read_lines acc (c ∷ s) =
    let fresh = read_lines [] s in
    let more = read_lines (acc ++ (c ∷ [])) s in if eqb 10 c then acc ∷ fresh else more

-- The settings of a text, the key of a line up to its first '='.
unfoldable pub settings_of : List Text → List (Text × Text)
settings_of [] = []
settings_of (l ∷ ls) =
    let rest = settings_of ls in elim (split_first b'=' l) [ none ↦ rest | some s ↦ s ∷ rest ]

unfoldable pub read_settings : Text → List (Text × Text)
unfolding read_lines settings_of
read_settings text = settings_of (read_lines [] text)

-- A setting that a reader does not take apart elsewhere.
abbrev pub IsClean : Text × Text → Type 0
IsClean (key, value) =
    (has_byte 10 key ≡ false) × (has_byte b'=' key ≡ false) × (has_byte 10 value ≡ false)

pub data AllClean : List (Text × Text) → Type 0 where
  no_settings : AllClean []
  and_setting :
      (s : Text × Text) (ss : List (Text × Text)) → IsClean s → AllClean ss → AllClean (s ∷ ss)

read_lines-line :
    (acc l s : Text)
    → has_byte 10 l ≡ false
    → read_lines acc (l ++ (10 ∷ s)) ≡ (acc ++ l) ∷ read_lines [] s
unfolding read_lines
read_lines-line acc [] s h = ap (λ (t : Text). t ∷ read_lines [] s) (sym (append-nil acc))
read_lines-line acc (c ∷ l) s h =
    let other : eqb 10 c ≡ false = ground arith in
    rw other (
      read_lines-line (acc ++ (c ∷ [])) l s (ground arith)
      ∙ ap (λ (t : Text). t ∷ read_lines [] s) (append_assoc acc (c ∷ []) l))

line-clean : (s : Text × Text) → IsClean s → has_byte 10 (line s) ≡ false
line-clean (key, value) (k, _, v) =
    any_of-append (λ d. eqb 10 d) key (b'=' ∷ value) ∙ rw (k, v) refl

-- What is rendered is read back.
pub read_settings-render : (ss : List (Text × Text)) → AllClean ss → read_settings (render ss) ≡ ss
unfolding read_settings settings_of render
read_settings-render [] clean = refl
read_settings-render ((key, value) ∷ ss) (and_setting _ _ c rest) =
    rw (read_lines-line [] (line (key, value)) (render ss) (line-clean (key, value) c)) (
      rw (split_first-cons b'=' key value c.1, settings_of)
        (ap (λ (t : List (Text × Text)). (key, value) ∷ t) (read_settings-render ss rest)))

pub AllClean-append : {ss ts : List (Text × Text)} → AllClean ss → AllClean ts → AllClean (ss ++ ts)
AllClean-append no_settings c = c
AllClean-append (and_setting s ss c rest) d = and_setting s (ss ++ _) c (AllClean-append rest d)
