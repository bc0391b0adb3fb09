-- ===== src/Clib/Laws/Lines.antt =====
-- Reading by fgets: nothing is lost, and lines that were written come back.
use mathlib.Core.List.{flatten}
use finger_move.Base.{
  All, Bool-cases, List, [], ap, ap₂, arith, false, inl, inr, leb, length, map, refl, ℕ, ◌++◌, ◌+◌,
  ◌-◌, ◌<◌, ◌==◌, ◌||◌, ◌∷◌, ◌≡◌,
}
use finger_move.Clib.Lines.{fgets_all, fgets_from, lines, max_line_len, newline, push}
use finger_move.Clib.Text.{Bytes, c_str, drop_last, has_byte}

flatten-push : (c : ℕ) (ls : List Bytes) → flatten (push c ls) ≡ c ∷ flatten ls
unfolding flatten
flatten-push c [] = refl
flatten-push c (l ∷ ls) = refl

flatten-fgets_from : (room : ℕ) (s : Bytes) → flatten (fgets_from room s) ≡ s
unfolding fgets_from flatten
flatten-fgets_from room [] = refl
flatten-fgets_from room (c ∷ s) = elim (Bool-cases (c == newline || leb room 1)) [
  | inl e ↦ rw (e, fgets_from, flatten-fgets_from (max_line_len - 1) s)
  | inr e ↦
      rw (e, fgets_from, flatten-push c (fgets_from (room - 1) s), flatten-fgets_from (room - 1) s)
]

-- The buffers that fgets fills hold the whole file, in order.
pub flatten-fgets_all : (s : Bytes) → flatten (fgets_all s) ≡ s
unfolding fgets_all
flatten-fgets_all s = flatten-fgets_from (max_line_len - 1) s

-- A line that fits the buffer with its newline, before that newline.
abbrev pub IsText : Bytes → Type 0
IsText t = (has_byte newline t ≡ false) × (has_byte 0 t ≡ false) × (length t + 1 < max_line_len)

-- Lines one after the other.
abbrev pub written : List Bytes → Bytes
written [] = []
written (t ∷ ts) = t ++ newline ∷ written ts

abbrev pub terminated : Bytes → Bytes
terminated t = t ++ newline ∷ []

fgets_from-line :
    (room : ℕ) (t s : Bytes)
    → has_byte newline t ≡ false
    → length t < room
    → fgets_from room (t ++ newline ∷ s) ≡ terminated t ∷ fgets_from (max_line_len - 1) s
unfolding fgets_from has_byte
fgets_from-line room [] s h l = refl
fgets_from-line room (c ∷ t) s h l = ground (arith, fgets_from-line (room - 1) t s)

pub c_str_self : (s : Bytes) → has_byte 0 s ≡ false → c_str s ≡ s
unfolding c_str has_byte
c_str_self [] h = refl
c_str_self (c ∷ s) h = ground (arith, c_str_self s)

pub has_byte-append : (c : ℕ) (s t : Bytes) → has_byte c (s ++ t) ≡ (has_byte c s || has_byte c t)
unfolding has_byte
has_byte-append c [] t = refl
has_byte-append c (x ∷ s) t = ground (arith, has_byte-append c s t)

c_str-terminated : (t : Bytes) → IsText t → c_str (terminated t) ≡ terminated t
unfolding has_byte
c_str-terminated t h =
    c_str_self (terminated t) (ground (arith, has_byte-append 0 t (newline ∷ [])))

-- Lines that were written are read back as they were, each with its newline.
pub lines-written : (ts : List Bytes) → All IsText ts → lines (written ts) ≡ map terminated ts
unfolding lines fgets_all
lines-written [] h = refl
lines-written (t ∷ ts) h =
    rw (fgets_from-line (max_line_len - 1) t (written ts) h.0.0 (omega (arith, h.0.2)))
      (ap₂ ◌∷◌ (c_str-terminated t h.0) (lines-written ts h.1))

-- Without its newline, a line is the text before it.
pub drop_last-append : (n : Bytes) (c : ℕ) → drop_last (n ++ c ∷ []) ≡ n
unfolding drop_last
drop_last-append [] c = refl
drop_last-append (d ∷ []) c = refl
drop_last-append (d ∷ e ∷ n) c = ap (λ (r : Bytes). d ∷ r) (drop_last-append (e ∷ n) c)
