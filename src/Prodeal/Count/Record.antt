-- ===== src/Prodeal/Count/Record.antt =====
-- The lines of the log that `cntSrhNums` reads, and those of the file that it writes.
use finger_move.Base.{
  [], ap, append_assoc, arith, drop, false, if◌then◌else◌, length, length-append, none, some, sym,
  ℕ, ◌++◌, ◌+◌, ◌-◌, ◌∷◌, ◌≡◌,
}
use finger_move.Clib.{Bytes, codes, find_from, has_byte, same, substr}
use finger_move.Clib.Laws.Tokens.{drop-append, find-delimiter, take-append}
use finger_move.Prodeal.Count.{bar, song_id}

-- "$$", a field, the song, and the rest of the line.
abbrev pub log_record : Bytes → Bytes → Bytes → Bytes
log_record field sid rest = b'$' ∷ b'$' ∷ (field ++ bar ∷ (sid ++ bar ∷ rest))

drop-delimiter : (c : ℕ) (f r : Bytes) → drop (length f + 1) (f ++ c ∷ r) ≡ r
drop-delimiter c f r =
    rw (← append_assoc f (c ∷ []) r)
      (drop-append (f ++ c ∷ []) r (length f + 1) (sym (length-append f (c ∷ []))))

first_bar :
    (f r : Bytes) → has_byte bar f ≡ false → find_from bar (f ++ bar ∷ r) 0 ≡ some (length f)
unfolding find_from
first_bar f r h = rw (find-delimiter bar f r h) (ap some (omega arith))

second_bar :
    (f s r : Bytes)
    → has_byte bar s ≡ false
    → find_from bar (f ++ bar ∷ (s ++ bar ∷ r)) (length f + 1) ≡ some (length f + 1 + length s)
unfolding find_from
second_bar f s r h = rw (drop-delimiter bar f (s ++ bar ∷ r), find-delimiter bar s r h)

between :
    (f s r : Bytes)
    → substr (f ++ bar ∷ (s ++ bar ∷ r)) (length f + 1) (length f + 1 + length s - length f - 1) ≡ s
between f s r = rw (drop-delimiter bar f (s ++ bar ∷ r)) (take-append s (bar ∷ r) _ (omega arith))

-- The song of a log record is its second field, unless that is "-1". The first two fields hold no
-- bar.
pub song_id-log_record :
    (field sid rest : Bytes)
    → has_byte bar field ≡ false
    → has_byte bar sid ≡ false
    → song_id (log_record field sid rest) ≡ (if same sid (codes "-1") then none else some sid)
unfolding song_id has_byte
song_id-log_record field sid rest hf hs =
    let f : Bytes = b'$' ∷ b'$' ∷ field in
    rw (first_bar f (sid ++ bar ∷ rest) hf, song_id)
      (rw (second_bar f sid rest hs, song_id) (rw (between f sid rest)))
