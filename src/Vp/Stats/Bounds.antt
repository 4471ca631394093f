-- ===== src/Vp/Stats/Bounds.antt =====
-- The range of the counters.
use caravel.Prelude.{
  ℕ, ◌^◌, ◌<◌, ℤ, pos, negsuc, ltb, Option, none, some, List, [], ◌∷◌, arith, Bool-cases, inl, inr,
  Option-cases,
}
use caravel.Prelude.Text.{Text, bytes, strip_prefix, trim_space}
use caravel.Vp.Xray.{atoi_int}
use caravel.Vp.Stats.Laws.{add64-lt}
use caravel.Vp.Stats.{int64, pattern64, split_lines, add_text, count_line, count_lines, stats}

-- A number that an int64 holds.
abbrev pub IsInt64 : ℤ → Type 0
IsInt64 (pos n) = n < 2 ^ 63
IsInt64 (negsuc n) = n < 2 ^ 63

int64-IsInt64 : (w : ℕ) → w < 2 ^ 64 → IsInt64 (int64 w)
int64-IsInt64 w h = elim (Bool-cases (ltb w (2 ^ 63))) [
  | inl e ↦ rw e (ground arith)
  | inr e ↦ rw e (ground arith)
]

abbrev InRange : ℕ × ℕ → Type 0
InRange (rx, tx) = (rx < 2 ^ 64) × (tx < 2 ^ 64)

add_text-lt : (x : ℕ) (v : Text) → x < 2 ^ 64 → add_text x v < 2 ^ 64
unfolding add_text
add_text-lt x v h = elim (Option-cases (atoi_int (trim_space v))) [
  | inl e ↦ rw (e, add_text) h
  | inr (n, e) ↦ rw (e, add_text) (add64-lt x (pattern64 n))
]

count_line-InRange : (rx tx : ℕ) (l : Text) → InRange (rx, tx) → InRange (count_line (rx, tx) l)
unfolding count_line
count_line-InRange rx tx l (r, t) = elim (Option-cases (strip_prefix (bytes "rx_bytes=") l)) [
  | inr (v, e) ↦ rw (e, count_line) (add_text-lt rx v r, t)
  | inl e ↦ elim (Option-cases (strip_prefix (bytes "tx_bytes=") l)) [
    | inr (v, e') ↦ rw (e, e', count_line) (r, add_text-lt tx v t)
    | inl e' ↦ rw (e, e', count_line) (r, t)
  ]
]

count_lines-InRange :
    (ls : List Text) (rx tx : ℕ) → InRange (rx, tx) → InRange (count_lines (rx, tx) ls)
unfolding count_lines
count_lines-InRange [] rx tx h = h
count_lines-InRange (l ∷ ls) rx tx h =
    let c = count_line (rx, tx) l in count_lines-InRange ls c.0 c.1 (count_line-InRange rx tx l h)

-- Whatever text the device returns, or none, both counters of Stats are numbers that an int64 holds.
pub stats-IsInt64 :
    (device : Option (Option Text)) → IsInt64 (stats device).rx × IsInt64 (stats device).tx
unfolding stats
stats-IsInt64 none = omega arith
stats-IsInt64 (some none) = omega arith
stats-IsInt64 (some (some text)) =
    let (r, t) = count_lines-InRange (split_lines [] text) 0 0 (omega arith) in
    (int64-IsInt64 _ r, int64-IsInt64 _ t)
