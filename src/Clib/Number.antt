-- ===== src/Clib/Number.antt =====
-- `atoi` and the conversion "%d", on an `int` of 32 bits and a `long` of 64.
use finger_move.Base.{
  Bool, [], if◌then◌else◌, leb, ltb, min, negsuc, pos, sub_ℕ, suc, to_unsigned, zero, ℕ, ℤ, ◌%◌,
  ◌&&◌, ◌*◌, ◌++◌, ◌+◌, ◌-◌, ◌/◌, ◌==◌, ◌^◌, ◌||◌, ◌∷◌,
}
use finger_move.Clib.Text.{Bytes}

abbrev pub is_digit : ℕ → Bool
is_digit c = leb b'0' c && leb c b'9'

abbrev pub is_space : ℕ → Bool
is_space c = c == b' ' || (leb 9 c && leb c 13)

unfoldable pub skip_space : Bytes → Bytes
skip_space [] = []
skip_space (c ∷ s) = if is_space c then skip_space s else c ∷ s

-- The number that the leading digits write, behind digits already read.
unfoldable pub digits_value : ℕ → Bytes → ℕ
digits_value acc [] = acc
digits_value acc (c ∷ s) =
    let rest = digits_value (acc * 10 + (c - b'0')) s in if is_digit c then rest else acc

-- `(int)` of a 64-bit value: its low 32 bits, read as two's complement.
unfoldable pub to_int32 : ℤ → ℤ
to_int32 z = let m = to_unsigned z in if ltb m (2 ^ 31) then pos m else negsuc (2 ^ 32 - 1 - m)

-- strtol stops at the ends of `long`.
abbrev pub strtol : ℕ → Bytes → ℤ
strtol sign s =
    if sign == b'-'
    then sub_ℕ 0 (min (digits_value 0 s) (2 ^ 63))
    else pos (min (digits_value 0 s) (2 ^ 63 - 1))

abbrev pub signed : Bytes → ℤ
signed [] = pos 0
signed (c ∷ s) =
    if c == b'-' then strtol b'-' s else if c == b'+' then strtol b'+' s else strtol b'+' (c ∷ s)

unfoldable pub atoi : Bytes → ℤ
unfolding to_int32
atoi s = to_int32 (signed (skip_space s))

unfoldable pub decimal_loop : ℕ → ℕ → Bytes
decimal_loop zero n = []
decimal_loop (suc f) n =
    let rest = decimal_loop f (n / 10) in
    if ltb n 10 then (b'0' + n) ∷ [] else rest ++ (b'0' + n % 10) ∷ []

-- "%d" of a value that is not negative. The number itself bounds the count of its digits.
unfoldable pub decimal : ℕ → Bytes
unfolding decimal_loop
decimal n = decimal_loop (suc n) n
