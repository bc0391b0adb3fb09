-- ===== src/Prodeal/Count/Tally.antt =====
-- What `cntmap` holds after the loops of `cntSrhNums`.
use finger_move.Base.{
  List, Option, Option-cases, [], arith, if◌then◌else◌, inl, inr, none, some, ℕ, ◌+◌, ◌∷◌, ◌≡◌,
}
use finger_move.Clib.{Bytes, same}
use finger_move.Clib.Laws.Order.{strcmp-eq}
use finger_move.Prodeal.Count.{CountMap, bump, count_lines, song_id}

-- The count that a map holds for a key.
unfoldable pub count_of : Bytes → CountMap → ℕ
count_of k [] = 0
count_of k ((j, n) ∷ m) = (if same k j then n else 0) + count_of k m

abbrev pub asks_for : Bytes → Option Bytes → ℕ
asks_for k none = 0
asks_for k (some sid) = if same k sid then 1 else 0

-- How many of the lines ask for a song.
pub asked : Bytes → List Bytes → ℕ
asked k [] = 0
asked k (l ∷ ls) = asks_for k (song_id l) + asked k ls

count_of-bump :
    (k j : Bytes) (m : CountMap) → count_of k (bump j m) ≡ count_of k m + asks_for k (some j)
unfolding count_of bump
count_of-bump k j [] = ground arith
count_of-bump k j ((i, n) ∷ m) = ground (arith, strcmp-eq j i, count_of-bump k j m)

-- The loop over a log adds, for each song, the lines that ask for it.
pub count_of-count_lines :
    (k : Bytes) (ls : List Bytes) (m : CountMap)
    → count_of k (count_lines ls m) ≡ count_of k m + asked k ls
unfolding count_lines asked
count_of-count_lines k [] m = omega arith
count_of-count_lines k (l ∷ ls) m = elim (Option-cases (song_id l)) [
  | inl e ↦ rw (e, asked, count_lines) (omega (arith, count_of-count_lines k ls m))
  | inr (sid, e) ↦
      rw (e, asked, count_lines)
        (omega (arith, count_of-count_lines k ls (bump sid m), count_of-bump k sid m))
]
