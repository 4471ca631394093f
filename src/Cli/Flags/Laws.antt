-- ===== src/Cli/Flags/Laws.antt =====
-- What the flags of a command line are read as.
use caravel.Prelude.{
  ℕ, ◌≡◌, refl, ◌∙◌, Bool, true, false, none, some, List, [], ◌∷◌, ◌++◌, eqb, arith, find_first, ok,
}
use caravel.Prelude.Text.{Text, bytes, ◌==◌, has_byte}
use caravel.Profile.HostPort.{split_first, split_first-cons}
use caravel.Cli.Flags.{
  Flag, plain, option, option_of, word_of, Values, on_flag, on_word, parse_from, parse,
}

-- A flag as it is typed: `--name=value`, `--name value`, or `--name` for a Boolean one.
pub data Given : Type 0 where
  joined : Text → Text → Given
  spaced : Text → Text → Given
  switch : Text → Given

abbrev dashed : Text → Text
dashed name = b'-' ∷ b'-' ∷ name

-- Its arguments.
abbrev pub words : List Given → List Text
words [] = []
words (joined name value ∷ gs) = dashed (name ++ b'=' ∷ value) ∷ words gs
words (spaced name value ∷ gs) = dashed name ∷ value ∷ words gs
words (switch name ∷ gs) = dashed name ∷ words gs

-- What they set, the last one first.
abbrev pub settings : List Given → Values → Values
settings [] vs = vs
settings (joined name value ∷ gs) vs = settings gs ((name, value) ∷ vs)
settings (spaced name value ∷ gs) vs = settings gs ((name, value) ∷ vs)
settings (switch name ∷ gs) vs = settings gs ((name, bytes "true") ∷ vs)

-- A name that can stand behind dashes: not empty, not begun by a dash, and with no equals sign.
abbrev pub IsName : Text → Type 0
IsName [] = ⊥
IsName (c ∷ s) = (eqb c b'-' ≡ false) × (has_byte b'=' (c ∷ s) ≡ false)

abbrev pub IsDeclared : List Flag → Text → Bool → Type 0
IsDeclared fs name is_bool =
    (f : Flag) × (find_first (λ f. f.name == name) fs ≡ some f) × (f.is_bool ≡ is_bool)

-- The flags are declared in the set, each with its kind.
abbrev pub AllDeclared : List Flag → List Given → Type 0
AllDeclared fs [] = Unit {0}
AllDeclared fs (joined name value ∷ gs) = IsName name × IsDeclared fs name false × AllDeclared fs gs
AllDeclared fs (spaced name value ∷ gs) = IsName name × IsDeclared fs name false × AllDeclared fs gs
AllDeclared fs (switch name ∷ gs) = IsName name × IsDeclared fs name true × AllDeclared fs gs

-- Arguments that begin with no flag.
abbrev pub IsOperand : List Text → Type 0
IsOperand [] = Unit {0}
IsOperand (s ∷ _) = word_of s ≡ plain

split_first-none : (b : ℕ) (s : Text) → has_byte b s ≡ false → split_first b s ≡ none
unfolding split_first
split_first-none b [] h = refl
split_first-none b (c ∷ s) h = ground (arith, split_first-none b s)

word_of-joined :
    (name value : Text)
    → IsName name
    → word_of (dashed (name ++ b'=' ∷ value)) ≡ option name (some value)
unfolding word_of option_of ◌==◌
word_of-joined [] value h = absurd h
word_of-joined (c ∷ s) value h =
    rw (split_first-cons b'=' s value (ground arith), option_of) (ground arith)

word_of-name : (name : Text) → IsName name → word_of (dashed name) ≡ option name none
unfolding word_of option_of ◌==◌
word_of-name [] h = absurd h
word_of-name (c ∷ s) h = rw (split_first-none b'=' s (ground arith), option_of) (ground arith)

module _ (fs : List Flag) where
  parse_from-joined :
      (name value : Text) (args : List Text) (vs : Values)
      → IsName name
      → IsDeclared fs name false
      → parse_from fs (dashed (name ++ b'=' ∷ value) ∷ args) none vs
        ≡ parse_from fs args none ((name, value) ∷ vs)
  unfolding parse_from on_word
  parse_from-joined name value args vs h (f, found, kind) =
      rw (word_of-joined name value h, parse_from) (rw (found, on_word) (rw (kind, on_flag) refl))

  parse_from-spaced :
      (name value : Text) (args : List Text) (vs : Values)
      → IsName name
      → IsDeclared fs name false
      → parse_from fs (dashed name ∷ value ∷ args) none vs
        ≡ parse_from fs args none ((name, value) ∷ vs)
  unfolding parse_from on_word
  parse_from-spaced name value args vs h (f, found, kind) =
      rw (word_of-name name h, parse_from) (rw (found, on_word) (rw (kind, on_flag) refl))

  parse_from-switch :
      (name : Text) (args : List Text) (vs : Values)
      → IsName name
      → IsDeclared fs name true
      → parse_from fs (dashed name ∷ args) none vs
        ≡ parse_from fs args none ((name, bytes "true") ∷ vs)
  unfolding parse_from on_word
  parse_from-switch name args vs h (f, found, kind) =
      rw (word_of-name name h, parse_from) (rw (found, on_word) (rw (kind, on_flag) refl))

  -- Arguments that begin with no flag are left alone, whatever stands behind the first of them.
  pub parse_from-operand :
      (args : List Text) (vs : Values) → IsOperand args → parse_from fs args none vs ≡ ok (vs, args)
  unfolding parse_from on_word
  parse_from-operand [] vs h = refl
  parse_from-operand (s ∷ args) vs h = rw (h, parse_from) refl

  parse_from-words :
      (gs : List Given) (args : List Text) (vs : Values)
      → AllDeclared fs gs
      → IsOperand args
      → parse_from fs (words gs ++ args) none vs ≡ ok (settings gs vs, args)
  parse_from-words [] args vs d h = parse_from-operand args vs h
  parse_from-words (joined name value ∷ gs) args vs (n, d, ds) h =
      parse_from-joined name value (words gs ++ args) vs n d
      ∙ parse_from-words gs args ((name, value) ∷ vs) ds h
  parse_from-words (spaced name value ∷ gs) args vs (n, d, ds) h =
      parse_from-spaced name value (words gs ++ args) vs n d
      ∙ parse_from-words gs args ((name, value) ∷ vs) ds h
  parse_from-words (switch name ∷ gs) args vs (n, d, ds) h =
      parse_from-switch name (words gs ++ args) vs n d
      ∙ parse_from-words gs args ((name, bytes "true") ∷ vs) ds h

  -- Declared flags in front of the operands are read back, each with its value, in the three ways in
  -- which they can be typed, and the operands are returned as they are, flags among them included.
  pub parse-words :
      (gs : List Given) (args : List Text)
      → AllDeclared fs gs
      → IsOperand args
      → parse fs (words gs ++ args) ≡ ok (settings gs [], args)
  unfolding parse
  parse-words gs args d h = parse_from-words gs args [] d h
