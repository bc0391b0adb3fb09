-- ===== src/Prodeal/Select/Top.antt =====
-- What `topAfpFile` selects.
use finger_move.Base.{
  All, Bool-cases, List, Option, Ordered, [], ap, arith, false, inl, inr, keep, leb, leb_ℤ, length,
  length-append, ltb_ℤ, map, none, pos, refl, some, take, take-cons, take-nil, take-zero, true, ℕ,
  ℤ, ◌++◌, ◌+◌, ◌-◌, ◌<◌, ◌∙◌, ◌∷◌, ◌≡◌, ◌≤◌,
}
use finger_move.Clib.{Bytes, codes, newline}
use finger_move.Prodeal.Select.{afp_line, top_loop}
use finger_move.Prodeal.Select.Entries.{
  IsEntry, IsSong, entry_line, parse_count-empty_song, parse_count-entry_line,
}

-- The songs that were asked for more often than the threshold.
abbrev pub above : ℤ → List (Bytes × ℕ) → List (Bytes × ℕ)
above cnt = keep (λ e. ltb_ℤ cnt (pos e.1))

-- The counts do not ascend.
abbrev pub Descending : List (Bytes × ℕ) → Type 0
Descending = Ordered (λ x y. y.1 ≤ x.1)

-- A finger file for each song.
abbrev pub afp_text : List (Bytes × ℕ) → Bytes
afp_text [] = []
afp_text (e ∷ es) = (e.0 ++ codes ".afp" ++ newline ∷ []) ++ afp_text es

above-none :
    (cnt : ℤ) (n : ℕ) (es : List (Bytes × ℕ))
    → leb_ℤ (pos n) cnt ≡ true
    → All (λ (y : Bytes × ℕ). y.1 ≤ n) es
    → above cnt es ≡ []
above-none cnt n [] h a = refl
above-none cnt n (e ∷ es) h a = ground (arith, above-none cnt n es h a.1)

afp_line-song : (k : Bytes) → IsSong k → afp_line k ≡ some (k ++ codes ".afp" ++ newline ∷ [])
unfolding afp_line
afp_line-song k h =
    rw (length-append (k ++ codes ".afp") (newline ∷ []), length-append k (codes ".afp"))
      (ground arith)

-- The first of them, while the count stays below the limit.
abbrev pub top_songs : ℕ → ℕ → ℤ → List (Bytes × ℕ) → List (Bytes × ℕ)
top_songs limit count cnt es = take (limit - count) (above cnt es)

-- The loop's result for the songs that it selects, behind a count.
abbrev Selected : Option (ℕ × Bytes) → ℕ → List (Bytes × ℕ) → Type 0
Selected r count es = r ≡ some (count + length es, afp_text es)

Selected-nil : (count : ℕ) (es : List (Bytes × ℕ)) → es ≡ [] → Selected (some (count, [])) count es
Selected-nil count es h = rw h (ap (λ (n : ℕ). some (n, [])) (omega arith))

Selected-cons :
    (limit count : ℕ) (cnt : ℤ) (e : Bytes × ℕ) (es : List (Bytes × ℕ))
    → leb limit count ≡ false
    → leb_ℤ (pos e.1) cnt ≡ false
    → let rest = top_songs limit (count + 1) cnt es in
      Selected
        (some (count + 1 + length rest, (e.0 ++ codes ".afp" ++ newline ∷ []) ++ afp_text rest))
        count
        (top_songs limit count cnt (e ∷ es))
Selected-cons limit count cnt e es more high =
    let passes : ltb_ℤ cnt (pos e.1) ≡ true = ground arith in
    rw (passes, keep)
      (rw (take-cons (limit - count) (limit - (count + 1)) e (above cnt es) (ground arith))
        (ap (λ (n : ℕ). some (n, afp_text (e ∷ top_songs limit (count + 1) cnt es))) (omega arith)))

top_loop-above :
    (limit count : ℕ) (cnt : ℤ) (es : List (Bytes × ℕ))
    → All IsEntry es
    → Descending es
    → Selected (top_loop limit cnt (map entry_line es) count) count (top_songs limit count cnt es)
unfolding top_loop
top_loop-above limit count cnt [] h d = Selected-nil count _ (take-nil (limit - count) [] refl)
top_loop-above limit count cnt (e ∷ es) h d = elim (Bool-cases (leb limit count)) [
  | inl full ↦
      rw (full, top_loop) (Selected-nil count _ (take-zero (limit - count) _ (ground arith)))
  | inr more ↦
      rw (more, top_loop)
        (rw (parse_count-entry_line e h.0, top_loop)
          (elim (Bool-cases (leb_ℤ (pos e.1) cnt)) [
            | inl low ↦
                rw (low, top_loop)
                  (Selected-nil count _ (
                    take-nil (limit - count) _
                      (above-none cnt e.1 (e ∷ es) low (omega arith, d.0))))
            | inr high ↦
                rw (high, top_loop)
                  (rw (afp_line-song e.0 h.0.0, top_loop)
                    (rw (top_loop-above limit (count + 1) cnt es h.1 d.1)
                      (Selected-cons limit count cnt e es more high)))
          ]))
]

-- From counts that do not ascend, topAfpFile selects the songs above the threshold, the first
-- GROUP_LIMIT of them if there are more: it counts them, and writes a finger file for each. The
-- songs have names of one token that fit the buffer, and counts that fit an int.
pub top_loop-above_limit :
    (limit : ℕ) (cnt : ℤ) (es : List (Bytes × ℕ))
    → All IsEntry es
    → Descending es
    → let chosen = take limit (above cnt es) in
      top_loop limit cnt (map entry_line es) 0 ≡ some (length chosen, afp_text chosen)
top_loop-above_limit limit cnt es h d =
    let same_limit : limit - 0 ≡ limit = omega arith in
    rw same_limit at (top_loop-above limit 0 cnt es h d)
    ∙ ap (λ (n : ℕ). some (n, afp_text (take limit (above cnt es)))) (omega arith)

empty_song-behind :
    (limit count : ℕ) (cnt : ℤ) (es : List (Bytes × ℕ)) (n : ℕ) (ls : List Bytes)
    → All IsEntry es
    → All (λ (e : Bytes × ℕ). ltb_ℤ cnt (pos e.1) ≡ true) es
    → count + length es < limit
    → top_loop limit cnt (map entry_line es ++ entry_line ([], n) ∷ ls) count ≡ none
unfolding top_loop
empty_song-behind limit count cnt [] n ls h a l =
    let more : leb limit count ≡ false = ground arith in
    rw (more, top_loop) (rw (parse_count-empty_song n, top_loop))
empty_song-behind limit count cnt (e ∷ es) n ls h a l =
    let more : leb limit count ≡ false = ground arith in
    let high : leb_ℤ (pos e.1) cnt ≡ false = ground (arith, a.0) in
    rw (more, top_loop)
      (rw (parse_count-entry_line e h.0, top_loop)
        (rw (high, top_loop)
          (rw (afp_line-song e.0 h.0.0, top_loop)
            (rw (empty_song-behind limit (count + 1) cnt es n ls h.1 a.1 (omega arith))))))

-- The loop of topAfpFile passes a null pointer to atoi when it comes to the line of a song with an
-- empty name, whatever its count and whatever lines follow. It comes to it if there are fewer
-- songs before than its limit, all with counts above the threshold; these have names of one token
-- that fit the buffer, and counts that fit an int.
pub top_loop-empty_song :
    (limit : ℕ) (cnt : ℤ) (es : List (Bytes × ℕ)) (n : ℕ) (ls : List Bytes)
    → All IsEntry es
    → All (λ (e : Bytes × ℕ). ltb_ℤ cnt (pos e.1) ≡ true) es
    → length es < limit
    → top_loop limit cnt (map entry_line es ++ entry_line ([], n) ∷ ls) 0 ≡ none
top_loop-empty_song limit cnt es n ls h a l =
    empty_song-behind limit 0 cnt es n ls h a (omega arith)
