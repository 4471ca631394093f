-- ===== src/Cli/Flags.antt =====
-- Go's package flag, as the subcommands of go/cmd/caravel use it: string and Boolean flags, and the
-- arguments that are left after them.
pub mod Laws
use caravel.Prelude.{
  Bool, true, false, ◌||◌, Option, none, some, List, [], ◌∷◌, eqb, any_of, find_first,
  if◌then◌else◌, Result, ok, err, panic, help_requested, bad_flag, unknown_flag, flag_argument,
  bad_flag_value,
}
use caravel.Prelude.Text.{Text, bytes, ◌==◌}
use caravel.Profile.HostPort.{split_first}

-- A flag of a set: its name, and whether it is Boolean.
pub record Flag : Type 0 where
  pub name : Text
  pub is_bool : Bool

-- What one argument is: no flag, the end of the flags, nonsense, or a flag that may come with a value.
pub data Word : Type 0 where
  plain : Word
  terminator : Word
  nonsense : Word
  option : Text → Option Text → Word

-- A flag's text after its dashes.
unfoldable pub option_of : Text → Word
option_of [] = nonsense
option_of (c ∷ s) = if eqb c b'-' || eqb c b'=' then nonsense else elim (split_first b'=' s) [
  | none ↦ option (c ∷ s) none
  | some (name, value) ↦ option (c ∷ name) (some value)
]

unfoldable pub word_of : Text → Word
unfolding option_of
word_of [] = plain
word_of (c ∷ []) = plain
word_of (c ∷ d ∷ s) =
    if eqb c b'-'
    then if eqb d b'-' then if s == [] then terminator else option_of s else option_of (d ∷ s)
    else plain

-- strconv.ParseBool
unfoldable pub parse_bool : Text → Option Bool
parse_bool v =
    let yes_texts =
      bytes "1" ∷ bytes "t" ∷ bytes "T" ∷ bytes "true" ∷ bytes "TRUE" ∷ bytes "True" ∷ [] in
    let no_texts =
      bytes "0" ∷ bytes "f" ∷ bytes "F" ∷ bytes "false" ∷ bytes "FALSE" ∷ bytes "False" ∷ [] in
    if any_of (λ t. t == v) yes_texts
    then some true
    else if any_of (λ t. t == v) no_texts
    then some false
    else none

-- The flags that were set, the newest first; a Boolean one holds "true" or "false".
abbrev pub Values : Type 0
Values = List (Text × Text)

-- The value of a flag, or its default.
unfoldable pub value_of : Text → Text → Values → Text
value_of name default [] = default
value_of name default ((k, v) ∷ vs) =
    let rest = value_of name default vs in if k == name then v else rest

abbrev pub bool_of : Text → Values → Bool
unfolding value_of
bool_of name vs = value_of name (bytes "false") vs == bytes "true"

-- The rest of a parse: the name of a flag that waits for its value, and the values so far.
abbrev pub Rest : Type 0
Rest = Option Text → Values → Result (Values × List Text)

abbrev pub bool_text : Bool → Text
bool_text true = bytes "true"
bool_text false = bytes "false"

-- (*FlagSet).parseOne from the lookup of the flag on
unfoldable pub on_flag :
    Option Flag → Text → Option Text → Values → Rest → Result (Values × List Text)
unfolding parse_bool
on_flag none name value vs next =
    if name == bytes "help" || name == bytes "h"
    then err help_requested
    else err (unknown_flag name)
on_flag (some f) name none vs next =
    if f.is_bool then next none ((name, bytes "true") ∷ vs) else next (some name) vs
on_flag (some f) name (some v) vs next =
    if f.is_bool
    then elim (parse_bool v) [
      | none ↦ err (bad_flag_value name)
      | some b ↦ next none ((name, bool_text b) ∷ vs)
    ]
    else next none ((name, v) ∷ vs)

-- (*FlagSet).parseOne on an argument and those after it
unfoldable pub on_word :
    List Flag → Word → Text → List Text → Values → Rest → Result (Values × List Text)
unfolding on_flag
on_word fs plain s args vs next = ok (vs, s ∷ args)
on_word fs terminator s args vs next = ok (vs, args)
on_word fs nonsense s args vs next = err (bad_flag s)
on_word fs (option name value) s args vs next =
    on_flag (find_first (λ f. f.name == name) fs) name value vs next

-- (*FlagSet).Parse: the values of the flags and the arguments after them.
unfoldable pub parse_from : List Flag → List Text → Rest
unfolding word_of on_word
parse_from fs [] none vs = ok (vs, [])
parse_from fs [] (some name) vs = err (flag_argument name)
parse_from fs (s ∷ args) none vs = on_word fs (word_of s) s args vs (parse_from fs args)
parse_from fs (s ∷ args) (some name) vs = parse_from fs args none ((name, s) ∷ vs)

unfoldable pub parse : List Flag → List Text → Result (Values × List Text)
unfolding parse_from
parse fs args = parse_from fs args none []

-- (*FlagSet).Arg(0)
abbrev pub first_arg : List Text → Text
first_arg [] = []
first_arg (s ∷ _) = s
