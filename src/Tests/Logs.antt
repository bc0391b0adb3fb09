-- ===== src/Tests/Logs.antt =====
-- The steps of src/prodeal.cc.
use mathlib.Core.List.{flatten}
use finger_move.Base.{
  All, List, [], arith, if◌then◌else◌, length, map, none, pos, refl, some, take, ℕ, ◌++◌, ◌+◌, ◌-◌,
  ◌∷◌, ◌≡◌, ◌≤◌,
}
use finger_move.Clib.{
  Bytes, Bytes-discrete, codes, decimal, digits_value, find, has_byte, newline, same, skip_space,
}
use finger_move.Prodeal.Count.{bump, count_lines, song_id}
use finger_move.Prodeal.Count.Record.{log_record, song_id-log_record}
use finger_move.Prodeal.Count.Tally.{asked, count_of, count_of-count_lines}
use finger_move.Prodeal.Select.{cold_loop, hot_loop, top_loop}
use finger_move.Prodeal.Select.Bottom.{bot_loops, cold, last_count, song_text}
use finger_move.Prodeal.Select.Entries.{IsEntry, entry_line}
use finger_move.Prodeal.Select.Top.{top_loop-empty_song}

abbrev some_log : List Bytes
some_log =
    codes "$$1|12|x"
    ∷ codes "$$2|-1|x"
    ∷ codes "noise|12|x"
    ∷ codes "$$3|7|x"
    ∷ codes "$$4|12|"
    ∷ []

counted : count_lines some_log [] ≡ (codes "12", 2) ∷ (codes "7", 1) ∷ []
unfolding count_lines song_id bump find Bytes-discrete
counted = refl

count_of-count_lines_example :
    count_of (codes "12") (count_lines some_log [])
    ≡ count_of (codes "12") [] + asked (codes "12") some_log
count_of-count_lines_example = count_of-count_lines (codes "12") some_log []

song_id-log_record_example :
    song_id (log_record (codes "1") (codes "12") (codes "x"))
    ≡ (if same (codes "12") (codes "-1") then none else some (codes "12"))
unfolding has_byte
song_id-log_record_example = song_id-log_record (codes "1") (codes "12") (codes "x") refl refl

abbrev some_counts : List (Bytes × ℕ)
some_counts = (codes "12", 40) ∷ (codes "7", 25) ∷ (codes "90", 3) ∷ []

some_counts-IsEntry : All IsEntry some_counts
unfolding has_byte
some_counts-IsEntry = (
  (((λ e. cc), refl, omega arith), omega arith),
  (
    (((λ e. cc), refl, omega arith), omega arith),
    ((((λ e. cc), refl, omega arith), omega arith), tt),
  ),
)

top_two :
    top_loop 10 (pos 20) (map entry_line some_counts) 0
    ≡ some (2, codes "12.afp" ++ newline ∷ codes "7.afp" ++ newline ∷ [])
unfolding top_loop decimal skip_space digits_value
top_two = refl

top_loop-empty_song_example :
    top_loop 10 (pos 2) (map entry_line some_counts ++ entry_line ([], 40) ∷ []) 0 ≡ none
top_loop-empty_song_example =
    top_loop-empty_song 10 (pos 2) some_counts 40 [] some_counts-IsEntry (refl, (refl, (refl, tt)))
      (omega arith)

abbrev some_names : List Bytes
some_names = codes "12.afp" ∷ codes "55.afp" ∷ []

bot_loops_example :
    let chosen = take 2 (cold (pos 12 ∷ pos 7 ∷ []) some_names) in
    let hot = take (2 - length chosen) some_counts in
    (cold_loop 2 (pos 12 ∷ pos 7 ∷ []) some_names 0 ≡ (length chosen, flatten chosen))
    × (hot_loop 2 (map entry_line some_counts) (length chosen) (pos 0)
        ≡ some (last_count (pos 0) hot, song_text hot))
    × (length chosen + length hot ≤ 2)
bot_loops_example = bot_loops 2 (pos 12 ∷ pos 7 ∷ []) some_names some_counts some_counts-IsEntry
