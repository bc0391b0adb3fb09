-- ===== src/Clib/Lines.antt =====
-- `while (fgets(line, MAX_LINE_LEN, fp))`: the buffers that it fills, one after the other.
use finger_move.Base.{List, [], if◌then◌else◌, leb, map, ℕ, ◌-◌, ◌==◌, ◌||◌, ◌∷◌}
use finger_move.Clib.Text.{Bytes, c_str}

abbrev pub max_line_len : ℕ
max_line_len = 1024

abbrev pub newline : ℕ
newline = 10

-- `c` in front of the buffer that is being filled.
abbrev pub push : ℕ → List Bytes → List Bytes
push c [] = (c ∷ []) ∷ []
push c (l ∷ ls) = (c ∷ l) ∷ ls

-- `room` is how many more bytes the buffer takes. A line that is longer is read in pieces.
unfoldable pub fgets_from : ℕ → Bytes → List Bytes
fgets_from room [] = []
fgets_from room (c ∷ s) =
    let full = c == newline || leb room 1 in
    let rest = fgets_from (if full then max_line_len - 1 else room - 1) s in
    if full then (c ∷ []) ∷ rest else push c rest

unfoldable pub fgets_all : Bytes → List Bytes
unfolding fgets_from
fgets_all s = fgets_from (max_line_len - 1) s

-- The same, each as the C string that the loop's body reads.
unfoldable pub lines : Bytes → List Bytes
unfolding fgets_all c_str
lines s = map c_str (fgets_all s)
