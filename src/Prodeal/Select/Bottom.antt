-- ===== src/Prodeal/Select/Bottom.antt =====
-- What `botAfpFile` selects.
use mathlib.Core.List.{flatten}
use finger_move.Base.{
  All, Bool-cases, List, [], ap, arith, false, inl, inr, keep, leb, length, length-take, map, not,
  pos, refl, some, take, take-cons, take-nil, take-zero, ℕ, ℤ, ◌++◌, ◌+◌, ◌-◌, ◌∙◌, ◌∷◌, ◌≡◌, ◌≤◌,
}
use finger_move.Clib.{Bytes, atoi, newline}
use finger_move.Prodeal.Filter.{elem_ℤ}
use finger_move.Prodeal.Select.{cold_loop, hot_loop}
use finger_move.Prodeal.Select.Entries.{IsEntry, entry_line, parse_count-entry_line}

-- The names whose number nobody asked for.
abbrev pub cold : List ℤ → List Bytes → List Bytes
cold asked = keep (λ l. not (elem_ℤ (atoi l) asked))

abbrev Chosen : ℕ × Bytes → ℕ → List Bytes → Type 0
Chosen r count ls = r ≡ (count + length ls, flatten ls)

Chosen-nil : (count : ℕ) (ls : List Bytes) → ls ≡ [] → Chosen (count, []) count ls
unfolding flatten
Chosen-nil count ls h = rw h (ap (λ (n : ℕ). (n, [])) (omega arith))

Chosen-cons :
    (limit count : ℕ) (l : Bytes) (ls : List Bytes)
    → leb limit count ≡ false
    → let rest = take (limit - (count + 1)) ls in
      Chosen (count + 1 + length rest, l ++ flatten rest) count (take (limit - count) (l ∷ ls))
unfolding flatten
Chosen-cons limit count l ls more =
    let rest = take (limit - (count + 1)) ls in
    rw (take-cons (limit - count) (limit - (count + 1)) l ls (ground arith))
      (ap (λ (n : ℕ). (n, l ++ flatten rest)) (omega arith))

cold_loop-cold :
    (limit count : ℕ) (asked : List ℤ) (ls : List Bytes)
    → Chosen (cold_loop limit asked ls count) count (take (limit - count) (cold asked ls))
unfolding cold_loop
cold_loop-cold limit count asked [] = Chosen-nil count _ (take-nil (limit - count) [] refl)
cold_loop-cold limit count asked (l ∷ ls) = elim (Bool-cases (leb limit count)) [
  | inl full ↦
      rw (full, cold_loop) (Chosen-nil count _ (take-zero (limit - count) _ (ground arith)))
  | inr more ↦
      rw (more, cold_loop)
        (elim (Bool-cases (elem_ℤ (atoi l) asked)) [
          | inl found ↦ rw (found, cold_loop) (cold_loop-cold limit count asked ls)
          | inr free ↦
              rw (free, cold_loop)
                (rw (cold_loop-cold limit (count + 1) asked ls)
                  (Chosen-cons limit count l (cold asked ls) more))
        ])
]

-- The count of the last entry, or `thr` if there is none.
abbrev pub last_count : ℤ → List (Bytes × ℕ) → ℤ
last_count thr [] = thr
last_count thr (e ∷ es) = last_count (pos e.1) es

-- The names as they stand in the log, with no extension.
abbrev pub song_text : List (Bytes × ℕ) → Bytes
song_text [] = []
song_text (e ∷ es) = e.0 ++ newline ∷ song_text es

hot_loop-take :
    (limit count : ℕ) (thr : ℤ) (es : List (Bytes × ℕ))
    → All IsEntry es
    → let hot = take (limit - count) es in
      hot_loop limit (map entry_line es) count thr ≡ some (last_count thr hot, song_text hot)
unfolding hot_loop
hot_loop-take limit count thr [] h = rw (take-nil {A = Bytes × ℕ} (limit - count) [] refl)
hot_loop-take limit count thr (e ∷ es) h = elim (Bool-cases (leb limit count)) [
  | inl full ↦ rw (full, hot_loop) (rw (take-zero (limit - count) (e ∷ es) (ground arith)))
  | inr more ↦
      rw (more, hot_loop)
        (rw (parse_count-entry_line e h.0, hot_loop)
          (rw (
            hot_loop-take limit (count + 1) (pos e.1) es h.1,
            take-cons (limit - count) (limit - (count + 1)) e es (ground arith),
          )))
]

-- botAfpFile selects the names that nobody asked for, and after them the songs from the start of
-- the counts, together at most CACHE_LIMIT; the threshold that it returns is the count of the last
-- song, 0 if there is none. Where the songs with a count are written, they have no extension. The
-- songs have names of one token that fit the buffer, and counts that fit an int.
pub bot_loops :
    (limit : ℕ) (asked : List ℤ) (afps : List Bytes) (es : List (Bytes × ℕ))
    → All IsEntry es
    → let chosen = take limit (cold asked afps) in
      let hot = take (limit - length chosen) es in
      (cold_loop limit asked afps 0 ≡ (length chosen, flatten chosen))
      × (hot_loop limit (map entry_line es) (length chosen) (pos 0)
          ≡ some (last_count (pos 0) hot, song_text hot))
      × (length chosen + length hot ≤ limit)
bot_loops limit asked afps es h =
    let chosen = take limit (cold asked afps) in
    (
      rw same_limit at (cold_loop-cold limit 0 asked afps)
          ∙ ap (λ (n : ℕ). (n, flatten chosen)) (omega arith),
      hot_loop-take limit (length chosen) (pos 0) es h,
      omega (arith, length-take limit (cold asked afps), length-take (limit - length chosen) es),
    )
  where
    same_limit : limit - 0 ≡ limit
    same_limit = omega arith
