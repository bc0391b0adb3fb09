-- ===== src/Prodeal/Move/Window.antt =====
-- Which of the chosen files `movCntFile` moves.
use finger_move.Base.{
  List, [], add_int-pos, ap, arith, dec_lt, drop, drop-cons, drop-nil, drop-sum, drop-zero, false,
  inl, inr, leb, ltb, pos, refl, sym, take, take-cons, take-nil, take-sum, take-zero, true, ℕ, ◌++◌,
  ◌+◌, ◌-◌, ◌<◌, ◌^◌, ◌∙◌, ◌∷◌, ◌≡◌, ◌≤◌,
}
use finger_move.Clib.{Bytes}
use finger_move.Prodeal.Move.{mov_loop, move_line}
use finger_move.World.{Cmd, Run, Run-cases, World, done, fault, for_each, ◌>>=◌, ◌>>◌}

>>-ext :
    (m k k' : Cmd (Unit {0})) (w : World) → ((v : World) → k v ≡ k' v) → (m >> k) w ≡ (m >> k') w
>>-ext m k k' w h = elim (Run-cases (m w)) [
  | inl e ↦ rw (e, ◌>>=◌)
  | inr (_, v, e) ↦ rw (e, ◌>>=◌) (h v)
]

module _ (org dst : Bytes) (start cnt : ℕ) (bound : start + cnt < 2 ^ 31) where
  abbrev loop : List Bytes → ℕ → Cmd (Unit {0})
  loop = mov_loop org dst (pos start) (pos cnt)

  loop-early :
      (l : Bytes) (ls : List Bytes) (count : ℕ) (w : World)
      → count < start
      → loop (l ∷ ls) count w ≡ loop ls (count + 1) w
  unfolding mov_loop
  loop-early l ls count w h = let e : ltb (count + 0) (start + 0) ≡ true = ground arith in rw e

  loop-late :
      (l : Bytes) (ls : List Bytes) (count : ℕ) (w : World)
      → start + cnt ≤ count
      → loop (l ∷ ls) count w ≡ done tt w
  unfolding mov_loop
  loop-late l ls count w h =
      let e : ltb (count + 0) (start + 0) ≡ false = ground arith in
      let p : leb (start + cnt + 0) (count + 0) ≡ true = ground arith in
      rw e (rw (add_int-pos start cnt bound, mov_loop) (rw p))

  loop-inside :
      (l : Bytes) (ls : List Bytes) (count : ℕ) (w : World)
      → start ≤ count
      → count < start + cnt
      → loop (l ∷ ls) count w ≡ (move_line org dst l >> loop ls (count + 1)) w
  unfolding mov_loop
  loop-inside l ls count w h k =
      let e : ltb (count + 0) (start + 0) ≡ false = ground arith in
      let p : leb (start + cnt + 0) (count + 0) ≡ false = ground arith in
      rw e (rw (add_int-pos start cnt bound, mov_loop) (rw p))

  -- Once the loop has come to its window.
  loop-take :
      (ls : List Bytes) (count : ℕ) (w : World)
      → start ≤ count
      → loop ls count w ≡ for_each (take (start + cnt - count) ls) (move_line org dst) w
  unfolding for_each
  loop-take [] count w h =
      rw (take-nil {A = Bytes} (start + cnt - count) [] refl) (unfold mov_loop in refl)
  loop-take (l ∷ ls) count w h = elim (dec_lt count (start + cnt)) [
    | no past ↦
        rw (take-zero (start + cnt - count) (l ∷ ls) (omega arith))
          (loop-late l ls count w (omega arith))
    | yes more ↦
        rw (take-cons (start + cnt - count) (start + cnt - (count + 1)) l ls (omega arith)) (
          loop-inside l ls count w h more
          ∙ >>-ext (move_line org dst l) _ _ w (λ v. loop-take ls (count + 1) v (omega arith)))
  ]

  loop-drop :
      (ls : List Bytes) (count : ℕ) (w : World)
      → count ≤ start
      → loop ls count w ≡ for_each (take cnt (drop (start - count) ls)) (move_line org dst) w
  loop-drop [] count w h =
      rw (take-nil cnt _ (drop-nil {A = Bytes} (start - count) [] refl))
        (unfold mov_loop for_each in refl)
  loop-drop (l ∷ ls) count w h = elim (dec_lt count start) [
    | yes early ↦
        loop-early l ls count w early
        ∙ rw (drop-cons (start - count) (start - (count + 1)) l ls (omega arith))
            (loop-drop ls (count + 1) w (omega arith))
    | no late ↦
        loop-take (l ∷ ls) count w (omega arith)
        ∙ rw (drop-zero (start - count) (l ∷ ls) (omega arith))
            (ap (λ (n : ℕ). for_each (take n (l ∷ ls)) (move_line org dst) w) (omega arith))
  ]

-- `movCntFile` with a position and a count that are not negative moves the files that are named
-- from that line on, as many as the count says.
pub mov_loop-window :
    (org dst : Bytes) (start cnt : ℕ) (ls : List Bytes) (w : World)
    → start + cnt < 2 ^ 31
    → mov_loop org dst (pos start) (pos cnt) ls 0 w
      ≡ for_each (take cnt (drop start ls)) (move_line org dst) w
mov_loop-window org dst start cnt ls w bound =
    loop-drop org dst start cnt bound ls 0 w (omega arith)
    ∙ ap (λ (n : ℕ). for_each (take cnt (drop n ls)) (move_line org dst) w) (omega arith)

for_each-append :
    (xs ys : List Bytes) (body : Bytes → Cmd (Unit {0})) (w : World)
    → for_each (xs ++ ys) body w ≡ (for_each xs body >> for_each ys body) w
unfolding for_each
for_each-append [] ys body w = refl
for_each-append (x ∷ xs) ys body w = elim (Run-cases (body x w)) [
  | inl e ↦ rw (e, for_each, ◌>>=◌)
  | inr (_, v, e) ↦ rw (e, for_each, ◌>>=◌) (for_each-append xs ys body v)
]

-- The parts of two groups that follow one another are disjoint and leave no line out: to move the
-- one and then the one that begins where it ends moves, in order, what a single part of both
-- counts moves. The start of the first part and both counts add up to less than 2^31.
pub mov_loop-mov_loop :
    (org dst : Bytes) (start m n : ℕ) (ls : List Bytes) (w : World)
    → start + m + n < 2 ^ 31
    → (mov_loop org dst (pos start) (pos m) ls 0 >> mov_loop org dst (pos (start + m)) (pos n) ls 0)
        w
      ≡ mov_loop org dst (pos start) (pos (m + n)) ls 0 w
mov_loop-mov_loop org dst start m n ls w bound =
    let body = move_line org dst in
    let tail_lines = drop start ls in
    >>-ext (mov_loop org dst (pos start) (pos m) ls 0) _
      (for_each (take n (drop m tail_lines)) body) w
      (λ v.
        mov_loop-window org dst (start + m) n ls v bound
        ∙ ap (λ (l : List Bytes). for_each (take n l) body v) (drop-sum start m ls))
    ∙ ap
        (λ (r : Run (Unit {0})). elim r [
          | done a v ↦ for_each (take n (drop m tail_lines)) body v
          | fault ↦ fault
        ])
        (mov_loop-window org dst start m ls w (omega (arith, bound)))
    ∙ sym (for_each-append (take m tail_lines) (take n (drop m tail_lines)) body w)
    ∙ ap (λ (l : List Bytes). for_each l body w) (sym (take-sum m n tail_lines))
    ∙ sym (mov_loop-window org dst start (m + n) ls w (omega (arith, bound)))
