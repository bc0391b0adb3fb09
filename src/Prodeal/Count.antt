-- ===== src/Prodeal/Count.antt =====
-- `CProDeal::cntSrhNums`: how often each song was asked for, from the logs.
pub mod Record
pub mod Sorter
pub mod Totals
pub mod Tally
use Prim.Native.Nat.{Ordering}
use finger_move.Base.{
  Bool, List, Option, [], if◌then◌else◌, length, ltb, none, not, pos, some, ℕ, ℤ, ◌++◌, ◌+◌, ◌-◌,
  ◌==◌, ◌||◌, ◌∷◌,
}
use finger_move.Clib.{
  Bytes, char_at, codes, decimal, find_from, lines, max_line_len, newline, same, strcmp, substr,
}
use finger_move.Prodeal.Names.{is_dot_entry, log_num_count, or_error, or_error_wb}
use finger_move.World.{
  Cmd, done, fault, fclose_wb, fopen_rb, fopen_wb, list_dir, or_fault, pure, sprintf_path, ◌>>=◌,
  ◌>>◌,
}

abbrev pub bar : ℕ
bar = b'|'

-- `std::map<string, int>`, by its iteration: the keys in their order.
abbrev pub CountMap : Type 0
CountMap = List (Bytes × ℕ)

-- `cntmap[sid]++`
unfoldable pub bump : Bytes → CountMap → CountMap
unfolding strcmp
bump k [] = (k, 1) ∷ []
bump k ((j, n) ∷ m) =
    let rest = bump k m in
    elim (strcmp k j) [
      | Ordering.lt ↦ (k, 1) ∷ (j, n) ∷ m
      | Ordering.eq ↦ (j, n + 1) ∷ m
      | Ordering.gt ↦ (j, n) ∷ rest
    ]

-- The song that a line of a log asks for: what stands between the first two bars of a line that
-- begins with "$$", unless that is "-1".
unfoldable pub song_id : Bytes → Option Bytes
unfolding find_from
song_id line =
    if not (char_at line 0 == b'$') || not (char_at line 1 == b'$')
    then none
    else elim (find_from bar line 0) [
      | none ↦ none
      | some pos1 ↦ elim (find_from bar line (pos1 + 1)) [
        | none ↦ none
        | some pos2 ↦
            let sid = substr line (pos1 + 1) (pos2 - pos1 - 1) in
            if same sid (codes "-1") then none else some sid
      ]
    ]

-- The inner loop, over the lines of one log.
unfoldable pub count_lines : List Bytes → CountMap → CountMap
count_lines [] m = m
count_lines (l ∷ ls) m = count_lines ls (elim (song_id l) [ none ↦ m | some sid ↦ bump sid m ])

-- The outer loop, over the entries of the archive.
unfoldable pub count_files : Bytes → List Bytes → CountMap → Cmd CountMap
unfolding count_lines sprintf_path fopen_rb lines
count_files org [] m w = done m w
count_files org (n ∷ ns) m w =
    let passed = count_files org ns m w in
    if is_dot_entry n then passed else elim (sprintf_path org n w) [
      | fault ↦ fault
      | done p w₁ ↦ elim (fopen_rb p w₁) [
        | fault ↦ fault
        | done none w₂ ↦ count_files org ns m w₂
        | done (some s) w₂ ↦ count_files org ns (count_lines (lines s) m) w₂
      ]
    ]

-- The comparisons `cmp` and `lmp`.
abbrev pub cmp : Bytes × ℕ → Bytes × ℕ → Bool
cmp x y = ltb y.1 x.1

abbrev pub lmp : Bytes × ℕ → Bytes × ℕ → Bool
lmp x y = ltb x.1 y.1

-- `sprintf(buf, "%s|%d\n", …)` into MAX_LINE_LEN bytes; `none` is an overrun.
unfoldable pub count_line : Bytes × ℕ → Option Bytes
unfolding decimal
count_line (k, n) =
    let text = k ++ bar ∷ decimal n ++ newline ∷ [] in
    if ltb (length text) max_line_len then some text else none

unfoldable pub count_text : List (Bytes × ℕ) → Option Bytes
unfolding count_line
count_text [] = some []
count_text (e ∷ es) = elim (count_line e) [
  | none ↦ none
  | some l ↦ elim (count_text es) [ none ↦ none | some s ↦ some (l ++ s) ]
]

-- `sort` is std::sort, which leaves open how entries that compare equal are ordered.
module _ (sort : (Bytes × ℕ → Bytes × ℕ → Bool) → List (Bytes × ℕ) → List (Bytes × ℕ)) where
  unfoldable pub cnt_srh_nums : Bytes → Bytes → Bool → Cmd ℤ
  cnt_srh_nums org dst flg = or_error (list_dir org) λ entries. do
    fname ← sprintf_path dst log_num_count
    or_error_wb (fopen_wb fname) (do
      m ← count_files org entries []
      s ← or_fault (count_text (sort (if flg then lmp else cmp) m))
      fclose_wb fname s
      pure (pos 0))
