-- ===== src/Profile/HostPort.antt =====
-- net.JoinHostPort and net.SplitHostPort, for the addresses that the program builds and takes apart.
use caravel.Prelude.{
  ℕ, ◌≡◌, refl, Bool, true, false, not, ◌&&◌, Option, none, some, [], ◌∷◌, ◌++◌, arith, eqb,
  if◌then◌else◌, Bool-cases, inl, inr,
}
use caravel.Prelude.Text.{Text, has_byte}

-- net.JoinHostPort: a host with a colon goes into brackets.
unfoldable pub join_host_port : Text → Text → Text
join_host_port host port =
    if has_byte b':' host then b'[' ∷ (host ++ (b']' ∷ b':' ∷ port)) else host ++ (b':' ∷ port)

-- The texts before and after the last occurrence of a byte.
unfoldable pub split_last : ℕ → Text → Option (Text × Text)
split_last c [] = none
split_last c (d ∷ s) = elim (split_last c s) [
  | some (before, after) ↦ some (d ∷ before, after)
  | none ↦ if eqb c d then some ([], s) else none
]

-- The texts before and after the first occurrence of a byte.
unfoldable pub split_first : ℕ → Text → Option (Text × Text)
split_first c [] = none
split_first c (d ∷ s) =
    let rest : Option (Text × Text) = elim (split_first c s) [
      | some (before, after) ↦ some (d ∷ before, after)
      | none ↦ none
    ] in
    if eqb c d then some ([], s) else rest

-- No bracket stands where none is allowed.
abbrev pub no_brackets : Text → Bool
no_brackets s = not (has_byte b'[' s) && not (has_byte b']' s)

-- The bracketed form, behind its '[': host, ']', ':' and a port with no colon.
bracketed : Text → Option (Text × Text)
bracketed s = elim (split_first b']' s) [
  | none ↦ none
  | some (host, rest) ↦ elim rest [
    | [] ↦ none
    | c ∷ port ↦
        if eqb c b':'
          && (not (has_byte b':' port) && (not (has_byte b'[' host) && no_brackets port))
        then some (host, port)
        else none
  ]
]

-- The plain form: one colon, no bracket.
plain : Text → Option (Text × Text)
unfolding split_last
plain s = elim (split_last b':' s) [
  | none ↦ none
  | some (host, port) ↦
      if not (has_byte b':' host) && (no_brackets host && no_brackets port)
      then some (host, port)
      else none
]

-- net.SplitHostPort, without the texts of its errors.
unfoldable pub split_host_port : Text → Option (Text × Text)
unfolding bracketed plain split_first split_last
split_host_port [] = none
split_host_port (c ∷ s) = let inner = bracketed s in if eqb c b'[' then inner else plain (c ∷ s)

split_last-none : (c : ℕ) (t : Text) → has_byte c t ≡ false → split_last c t ≡ none
unfolding split_last
split_last-none c [] h = refl
split_last-none c (d ∷ t) h = ground (arith, split_last-none c t)

split_last-cons :
    (c : ℕ) (s t : Text) → has_byte c t ≡ false → split_last c (s ++ (c ∷ t)) ≡ some (s, t)
unfolding split_last
split_last-cons c [] t h = ground (arith, split_last-none c t)
split_last-cons c (d ∷ s) t h = rw (split_last-cons c s t h)

pub split_first-cons :
    (c : ℕ) (s t : Text) → has_byte c s ≡ false → split_first c (s ++ (c ∷ t)) ≡ some (s, t)
unfolding split_first
split_first-cons c [] t h = ground arith
split_first-cons c (d ∷ s) t h = rw (split_first-cons c s t (ground arith)) (ground arith)

bracketed-join :
    (host port : Text)
    → no_brackets host ≡ true
    → no_brackets port ≡ true
    → has_byte b':' port ≡ false
    → bracketed (host ++ (b']' ∷ b':' ∷ port)) ≡ some (host, port)
unfolding bracketed
bracketed-join host port h p c =
    rw (split_first-cons b']' host (b':' ∷ port) (ground arith), bracketed) (ground arith)

plain-join :
    (host port : Text)
    → has_byte b':' host ≡ false
    → no_brackets host ≡ true
    → no_brackets port ≡ true
    → has_byte b':' port ≡ false
    → plain (host ++ (b':' ∷ port)) ≡ some (host, port)
unfolding plain
plain-join host port n h p c = rw (split_last-cons b':' host port c, plain) (ground arith)

-- A text that does not begin with a bracket is read in the plain form.
split-join_plain :
    (host port : Text)
    → has_byte b':' host ≡ false
    → no_brackets host ≡ true
    → no_brackets port ≡ true
    → has_byte b':' port ≡ false
    → split_host_port (host ++ (b':' ∷ port)) ≡ some (host, port)
unfolding split_host_port
split-join_plain [] port n h p c = plain-join [] port n h p c
split-join_plain (d ∷ host) port n h p c =
    let e : eqb d b'[' ≡ false = ground arith in rw e (plain-join (d ∷ host) port n h p c)

-- SplitHostPort takes apart what JoinHostPort builds, for a host without brackets and a port without
-- brackets and colons.
pub split-join :
    (host port : Text)
    → no_brackets host ≡ true
    → no_brackets port ≡ true
    → has_byte b':' port ≡ false
    → split_host_port (join_host_port host port) ≡ some (host, port)
unfolding join_host_port
split-join host port h p c = elim (Bool-cases (has_byte b':' host)) [
  | inl colon ↦ rw colon (unfold split_host_port in bracketed-join host port h p c)
  | inr clean ↦ rw clean (split-join_plain host port clean h p c)
]
