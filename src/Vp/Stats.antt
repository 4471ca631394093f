-- ===== src/Vp/Stats.antt =====
-- (*Tunnel).Stats of go/vp/engine.go: the byte counters of an AmneziaWG device's dump, as int64 sums.
pub mod Laws
pub mod Bounds
pub mod Tests
use caravel.Prelude.{
  ℕ, ◌+◌, ◌-◌, ◌%◌, ◌^◌, ℤ, pos, negsuc, Bool, true, false, ltb, eqb, Option, none, some, List, [],
  ◌∷◌, ◌++◌, if◌then◌else◌,
}
use caravel.Prelude.Text.{Text, bytes, strip_prefix, trim_space}
use caravel.Vp.Xray.{atoi_int}

-- An int64 is its bit pattern, below 2 ^ 64; the number that the pattern stands for.
abbrev pub int64 : ℕ → ℤ
int64 w = if ltb w (2 ^ 63) then pos w else negsuc (2 ^ 64 - w - 1)

-- The pattern of a number in the range of int64.
abbrev pub pattern64 : ℤ → ℕ
pattern64 (pos n) = n
pattern64 (negsuc n) = 2 ^ 64 - (n + 1)

-- `a += b` on int64
unfoldable pub add64 : ℕ → ℕ → ℕ
add64 a b = (a + b) % 2 ^ 64

-- strings.Split(s, "\n"): the pieces between the newlines, one more than there are newlines.
unfoldable pub split_lines : Text → Text → List Text
split_lines acc [] = acc ∷ []
split_lines acc (c ∷ s) =
    let fresh = split_lines [] s in
    let more = split_lines (acc ++ c ∷ []) s in if eqb 10 c then acc ∷ fresh else more

-- `if n, err := strconv.ParseInt(strings.TrimSpace(v), 10, 64); err == nil { x += n }`
unfoldable pub add_text : ℕ → Text → ℕ
unfolding add64
add_text x v = elim (atoi_int (trim_space v)) [ none ↦ x | some n ↦ add64 x (pattern64 n) ]

-- One line of the dump, on the patterns of rx and tx.
unfoldable pub count_line : ℕ × ℕ → Text → ℕ × ℕ
unfolding add_text
count_line (rx, tx) l = elim (strip_prefix (bytes "rx_bytes=") l) [
  | some v ↦ (add_text rx v, tx)
  | none ↦ elim (strip_prefix (bytes "tx_bytes=") l) [
    | some v ↦ (rx, add_text tx v)
    | none ↦ (rx, tx)
  ]
]

-- The result of a Stats: received and transmitted bytes, and whether they are available.
pub record Counters : Type 0 where
  pub rx : ℤ
  pub tx : ℤ
  pub available : Bool

abbrev pub unavailable : Counters
unavailable = record { rx = pos 0; tx = pos 0; available = false }

-- The loop over the lines
unfoldable pub count_lines : ℕ × ℕ → List Text → ℕ × ℕ
unfolding count_line
count_lines c [] = c
count_lines c (l ∷ ls) = count_lines (count_line c l) ls

unfoldable pub count_dump : Text → Counters
unfolding count_lines split_lines
count_dump dump =
    let (rx, tx) = count_lines (0, 0) (split_lines [] dump) in
    record { rx = int64 rx; tx = int64 tx; available = true }

-- Stats, on the device's IpcGet: there is no device once the tunnel is closed.
unfoldable pub stats : Option (Option Text) → Counters
unfolding count_dump
stats none = unavailable
stats (some none) = unavailable
stats (some (some dump)) = count_dump dump
