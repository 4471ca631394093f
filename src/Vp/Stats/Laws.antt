-- ===== src/Vp/Stats/Laws.antt =====
-- What the counters of a dump add up to.
use mathlib.Core.List.{append_assoc, append-nil}
use caravel.Prelude.{
  ℕ, ◌+◌, ◌%◌, ◌^◌, ◌<◌, pos, ◌≡◌, refl, sym, ap, ◌∙◌, true, false, ltb, eqb, none, some, List, [],
  ◌∷◌, ◌++◌, any_of-append, arith, if◌then◌else◌,
}
use caravel.Prelude.Decimal.{itoa, atoi, atoi-itoa, any_of-itoa, has_byte-itoa}
use caravel.Prelude.Text.{Text, bytes, ◌==◌, has_byte, strip_prefix, is_space}
use caravel.Prelude.TextLaws.{strip_prefix-append, trim_space-solid}
use caravel.Vp.Engine.Settings.{line}
use caravel.Vp.Xray.{atoi_int}
use caravel.Vp.Stats.{int64, add64, split_lines, add_text, count_line, count_lines, stats}

digit_is_solid : (d : ℕ) → d < 10 → is_space (48 + d) ≡ false
unfolding is_space
digit_is_solid d h = ground arith

-- strconv.ParseInt of a printed number: refused from 2 ^ 63 on.
none-ne-some : (n : ℕ) → atoi [] ≡ some n → ⊥
unfolding atoi
none-ne-some n h = cc

atoi_int-plain :
    (n : ℕ) (t : Text)
    → atoi t ≡ some n
    → has_byte b'-' t ≡ false
    → has_byte b'+' t ≡ false
    → atoi_int t ≡ (if ltb n (2 ^ 63) then some (pos n) else none)
unfolding atoi_int
atoi_int-plain n [] h minus plus = absurd (none-ne-some n h)
atoi_int-plain n (c ∷ s) h minus plus =
    let m : eqb c b'-' ≡ false = ground arith in
    let p : eqb c b'+' ≡ false = ground arith in rw (m, p) (rw h refl)

atoi_int-itoa : (n : ℕ) → atoi_int (itoa n) ≡ (if ltb n (2 ^ 63) then some (pos n) else none)
atoi_int-itoa n =
    atoi_int-plain n (itoa n) (atoi-itoa n) (has_byte-itoa n b'-' refl) (has_byte-itoa n b'+' refl)

-- A printed number is added where it is in the range of int64.
add_text-itoa : (x n : ℕ) → add_text x (itoa n) ≡ (if ltb n (2 ^ 63) then add64 x n else x)
unfolding add_text
add_text-itoa x n =
    rw
      (trim_space-solid (itoa n) (any_of-itoa is_space n digit_is_solid), atoi_int-itoa n, add_text)
      (ground arith)

-- A line of a dump: a peer's received or transmitted bytes, or any other setting.
pub data Line : Type 0 where
  received : ℕ → Line
  transmitted : ℕ → Line
  other : Text → Text → Line

abbrev pub setting : Line → Text × Text
setting (received n) = (bytes "rx_bytes", itoa n)
setting (transmitted n) = (bytes "tx_bytes", itoa n)
setting (other key value) = (key, value)

-- Another setting has another key, no equals sign in it, and no newline.
abbrev pub IsLine : Line → Type 0
IsLine (received n) = Unit {0}
IsLine (transmitted n) = Unit {0}
IsLine (other key value) =
    (has_byte 10 key ≡ false)
    × (has_byte b'=' key ≡ false)
    × (has_byte 10 value ≡ false)
    × ((bytes "rx_bytes" == key) ≡ false)
    × ((bytes "tx_bytes" == key) ≡ false)

abbrev pub AreLines : List Line → Type 0
AreLines [] = Unit {0}
AreLines (l ∷ ls) = IsLine l × AreLines ls

-- The text that IpcGet returns: each setting on a line of its own.
abbrev pub dump : List Line → Text
dump [] = []
dump (l ∷ ls) = line (setting l) ++ (10 ∷ dump ls)

-- A counter that an int64 can hold.
abbrev pub held : ℕ → ℕ
held n = if ltb n (2 ^ 63) then n else 0

-- What all peers have received and transmitted.
abbrev pub total_received : List Line → ℕ
total_received [] = 0
total_received (received n ∷ ls) = held n + total_received ls
total_received (transmitted _ ∷ ls) = total_received ls
total_received (other _ _ ∷ ls) = total_received ls

abbrev pub total_transmitted : List Line → ℕ
total_transmitted [] = 0
total_transmitted (received _ ∷ ls) = total_transmitted ls
total_transmitted (transmitted n ∷ ls) = held n + total_transmitted ls
total_transmitted (other _ _ ∷ ls) = total_transmitted ls

split_lines-line :
    (acc l s : Text)
    → has_byte 10 l ≡ false
    → split_lines acc (l ++ (10 ∷ s)) ≡ (acc ++ l) ∷ split_lines [] s
unfolding split_lines
split_lines-line acc [] s h = ap (λ (t : Text). t ∷ split_lines [] s) (sym (append-nil acc))
split_lines-line acc (c ∷ l) s h =
    let apart : eqb 10 c ≡ false = ground arith in
    rw apart (
      split_lines-line (acc ++ (c ∷ [])) l s (ground arith)
      ∙ ap (λ (t : Text). t ∷ split_lines [] s) (append_assoc acc (c ∷ []) l))

strip_prefix-other :
    (q key value : Text)
    → has_byte b'=' q ≡ false
    → has_byte b'=' key ≡ false
    → (q == key) ≡ false
    → strip_prefix (q ++ b'=' ∷ []) (key ++ b'=' ∷ value) ≡ none
unfolding strip_prefix ◌==◌
strip_prefix-other [] [] value h k e = cc
strip_prefix-other [] (c ∷ key) value h k e = ground arith
strip_prefix-other (a ∷ q) [] value h k e = ground arith
strip_prefix-other (a ∷ q) (b ∷ key) value h k e = ground (arith, strip_prefix-other q key value)

-- One line on the counters.
abbrev counted : ℕ × ℕ → Line → ℕ × ℕ
counted (rx, tx) (received n) = (if ltb n (2 ^ 63) then add64 rx n else rx, tx)
counted (rx, tx) (transmitted n) = (rx, if ltb n (2 ^ 63) then add64 tx n else tx)
counted (rx, tx) (other _ _) = (rx, tx)

not_rx_bytes : (bytes "rx_bytes" == bytes "tx_bytes") ≡ false
unfolding ◌==◌
not_rx_bytes = refl

count_line-line :
    (rx tx : ℕ) (l : Line) → IsLine l → count_line (rx, tx) (line (setting l)) ≡ counted (rx, tx) l
unfolding count_line
count_line-line rx tx (received n) h =
    rw (strip_prefix-append (bytes "rx_bytes=") (itoa n), count_line)
      (ap (λ (x : ℕ). (x, tx)) (add_text-itoa rx n))
count_line-line rx tx (transmitted n) h =
    rw
      (
        strip_prefix-other (bytes "rx_bytes") (bytes "tx_bytes") (itoa n) refl refl not_rx_bytes,
        strip_prefix-append (bytes "tx_bytes=") (itoa n),
        count_line,
      )
      (ap (λ (x : ℕ). (rx, x)) (add_text-itoa tx n))
count_line-line rx tx (other key value) (_, k, _, not_rx, not_tx) =
    rw
      (
        strip_prefix-other (bytes "rx_bytes") key value refl k not_rx,
        strip_prefix-other (bytes "tx_bytes") key value refl k not_tx,
        count_line,
      )
      refl

line-one_line : (l : Line) → IsLine l → has_byte 10 (line (setting l)) ≡ false
line-one_line (received n) h = has_byte-itoa n 10 refl
line-one_line (transmitted n) h = has_byte-itoa n 10 refl
line-one_line (other key value) (k, _, v, _, _) =
    any_of-append (λ d. eqb 10 d) key (b'=' ∷ value) ∙ rw (k, v) refl

-- Adding a counter, where it can be held.
add_held : (x n : ℕ) → x < 2 ^ 64 → (if ltb n (2 ^ 63) then add64 x n else x) ≡ add64 x (held n)
unfolding add64
add_held x n h = ground arith

pub add64-lt : (a b : ℕ) → add64 a b < 2 ^ 64
unfolding add64
add64-lt a b = omega arith

add64-sum : (a b t : ℕ) → (add64 a b + t) % 2 ^ 64 ≡ (a + (b + t)) % 2 ^ 64
unfolding add64
add64-sum a b t = omega arith

pair : {a b c d : ℕ} → a ≡ b → c ≡ d → ◌≡◌ {A = ℕ × ℕ} (a, c) (b, d)
pair e f = cc

count_lines-line :
    (rx tx : ℕ) (l : Line) (ls : List Line)
    → IsLine l
    → count_lines (rx, tx) (split_lines [] (dump (l ∷ ls)))
      ≡ count_lines (counted (rx, tx) l) (split_lines [] (dump ls))
unfolding count_lines
count_lines-line rx tx l ls h =
    ap (count_lines (rx, tx)) (split_lines-line [] (line (setting l)) (dump ls) (line-one_line l h))
    ∙ ap (λ (c : ℕ × ℕ). count_lines c (split_lines [] (dump ls))) (count_line-line rx tx l h)

-- The loop over a dump, on counters that are in range.
count_lines-dump :
    (ls : List Line) (rx tx : ℕ)
    → AreLines ls
    → rx < 2 ^ 64
    → tx < 2 ^ 64
    → count_lines (rx, tx) (split_lines [] (dump ls))
      ≡ ((rx + total_received ls) % 2 ^ 64, (tx + total_transmitted ls) % 2 ^ 64)
unfolding count_lines
count_lines-dump [] rx tx h r t =
    unfold split_lines in unfold count_line in unfold strip_prefix in ground arith
count_lines-dump (received n ∷ ls) rx tx (h, hs) r t =
    count_lines-line rx tx (received n) ls h
    ∙ (ap (λ (x : ℕ). count_lines (x, tx) (split_lines [] (dump ls))) (add_held rx n r)
        ∙ (count_lines-dump ls (add64 rx (held n)) tx hs (add64-lt rx (held n)) t
            ∙ pair (add64-sum rx (held n) (total_received ls)) refl))
count_lines-dump (transmitted n ∷ ls) rx tx (h, hs) r t =
    count_lines-line rx tx (transmitted n) ls h
    ∙ (ap (λ (x : ℕ). count_lines (rx, x) (split_lines [] (dump ls))) (add_held tx n t)
        ∙ (count_lines-dump ls rx (add64 tx (held n)) hs r (add64-lt tx (held n))
            ∙ pair refl (add64-sum tx (held n) (total_transmitted ls))))
count_lines-dump (other key value ∷ ls) rx tx (h, hs) r t =
    count_lines-line rx tx (other key value) ls h ∙ count_lines-dump ls rx tx hs r t

-- For a dump whose other settings are clean, Stats gives the sums of the received and the transmitted
-- bytes of all peers, as 64-bit integers that wrap around; a counter from 2 ^ 63 on is left out.
pub stats-dump :
    (ls : List Line)
    → AreLines ls
    → stats (some (some (dump ls))) ≡ record {
      rx = int64 (total_received ls % 2 ^ 64);
      tx = int64 (total_transmitted ls % 2 ^ 64);
      available = true;
    }
unfolding stats
stats-dump ls h = rw (count_lines-dump ls 0 0 h (omega arith) (omega arith), stats) (ground arith)
