-- ===== src/Prodeal/Select/Entries.antt =====
-- The lines "song|count" between the steps of src/prodeal.cc.
use finger_move.Base.{
  All, [], arith, false, length, none, pos, refl, some, subst, true, ℕ, ◌++◌, ◌+◌, ◌<◌, ◌^◌, ◌∷◌,
  ◌≡◌, ◌≢◌,
}
use finger_move.Clib.{Bytes, decimal, has_byte, is_digit, max_line_len, newline, strtok}
use finger_move.Clib.Laws.Lines.{has_byte-append}
use finger_move.Clib.Laws.Number.{atoi-decimal, decimal-AllDigits, decimal-cons}
use finger_move.Clib.Laws.Tokens.{strtok-delimiter, strtok-last, strtok-token}
use finger_move.Prodeal.Count.{bar}
use finger_move.Prodeal.Select.{parse_count}

-- A name that is one token, and that leaves room in the buffers for what is put behind it.
abbrev pub IsSong : Bytes → Type 0
IsSong k = (k ≢ []) × (has_byte bar k ≡ false) × (length k + 6 < max_line_len)

abbrev pub IsEntry : Bytes × ℕ → Type 0
IsEntry e = IsSong e.0 × (e.1 < 2 ^ 31)

abbrev pub entry_line : Bytes × ℕ → Bytes
entry_line (k, n) = k ++ bar ∷ (decimal n ++ newline ∷ [])

has_byte-digits : (ds : Bytes) → All (λ c. is_digit c ≡ true) ds → has_byte bar ds ≡ false
unfolding has_byte
has_byte-digits [] a = refl
has_byte-digits (d ∷ ds) a = ground (arith, has_byte-digits ds a.1)

has_byte-decimal : (n : ℕ) → has_byte bar (decimal n ++ newline ∷ []) ≡ false
unfolding has_byte
has_byte-decimal n = rw (
  has_byte-append bar (decimal n) (newline ∷ []),
  has_byte-digits (decimal n) (decimal-AllDigits n),
)

-- The token behind the bar is the last.
parse_value :
    (n : ℕ) → strtok bar (decimal n ++ newline ∷ []) ≡ some (decimal n ++ newline ∷ [], [])
parse_value n =
    let (d, ds, e, _) = decimal-cons n in
    let no_bar : has_byte bar (d ∷ (ds ++ newline ∷ [])) ≡ false =
      subst (λ (t : Bytes). has_byte bar (t ++ newline ∷ []) ≡ false) e (has_byte-decimal n) in
    rw e (strtok-last bar d (ds ++ newline ∷ []) no_bar)

-- What cntSrhNums writes for a song, topAfpFile and botAfpFile read: the same name and the same
-- count, for a name of one token that fits the buffer and a count that fits an int.
pub parse_count-entry_line :
    (e : Bytes × ℕ) → IsEntry e → parse_count (entry_line e) ≡ some (e.0, pos e.1)
unfolding parse_count
parse_count-entry_line ([], n) h = absurd (h.0.0 refl)
parse_count-entry_line (c ∷ k, n) h =
    rw (strtok-token bar c k (decimal n ++ newline ∷ []) h.0.1, parse_count)
      (rw (parse_value n, parse_count) (rw (atoi-decimal n (newline ∷ []) h.1 refl)))

-- A song with an empty name gives a line with one token only.
pub parse_count-empty_song : (n : ℕ) → parse_count (entry_line ([], n)) ≡ none
unfolding parse_count strtok
parse_count-empty_song n =
    rw (strtok-delimiter bar (decimal n ++ newline ∷ []), parse_count)
      (rw (parse_value n, parse_count))
