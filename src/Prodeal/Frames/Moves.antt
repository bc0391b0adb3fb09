-- ===== src/Prodeal/Frames/Moves.antt =====
-- `CProDeal::movAfpFile` and `CProDeal::movCntFile` change files only.
use finger_move.Base.{
  Bool-cases, List, Option-cases, [], add_int, inl, inr, leb_ℤ, ltb_ℤ, pos, refl, ℕ, ℤ, ◌+◌, ◌∷◌,
}
use finger_move.Clib.{Bytes, lines}
use finger_move.Prodeal.Frames.{OnlyFiles-or_error, OnlyFiles-removed}
use finger_move.Prodeal.Move.{clear_entry, mov_afp_file, mov_cnt_file, mov_loop, move_line}
use finger_move.Prodeal.Names.{bot_afps_file, is_dot_entry, top_afps_file}
use finger_move.World.{fopen_rb, for_each, list_dir, sprintf_path, unit}
use finger_move.World.Frames.{
  OnlyFiles, OnlyFiles->>=, OnlyFiles-fopen_rb, OnlyFiles-for_each, OnlyFiles-if,
  OnlyFiles-list_dir, OnlyFiles-pure, OnlyFiles-rename, OnlyFiles-sprintf_path,
}

clear_entry-OnlyFiles : (dst n : Bytes) → OnlyFiles (clear_entry dst n)
unfolding clear_entry
clear_entry-OnlyFiles dst n =
    OnlyFiles-if (is_dot_entry n) unit _ (OnlyFiles-pure tt) (OnlyFiles-removed dst n)

move_line-OnlyFiles : (org dst line : Bytes) → OnlyFiles (move_line org dst line)
unfolding move_line OnlyFiles
move_line-OnlyFiles org dst [] = λ w. inl refl
move_line-OnlyFiles org dst (c ∷ s) =
    OnlyFiles->>= (sprintf_path org _) _ (OnlyFiles-sprintf_path org _) (λ p.
      OnlyFiles->>= (sprintf_path dst _) _ (OnlyFiles-sprintf_path dst _)
        (λ q. OnlyFiles-rename p q))

mov_loop-OnlyFiles :
    (org dst : Bytes) (start cnt : ℤ) (ls : List Bytes) (count : ℕ)
    → OnlyFiles (mov_loop org dst start cnt ls count)
unfolding OnlyFiles mov_loop
mov_loop-OnlyFiles org dst start cnt [] count w = inr (tt, w.files, refl)
mov_loop-OnlyFiles org dst start cnt (l ∷ ls) count w =
    elim (Bool-cases (ltb_ℤ (pos count) start)) [
      | inl e ↦ rw (e, mov_loop) (mov_loop-OnlyFiles org dst start cnt ls (count + 1) w)
      | inr e ↦
          rw (e, mov_loop)
            (elim (Option-cases (add_int start cnt)) [
              | inl over ↦ inl (rw over)
              | inr (last, sum) ↦
                  rw (sum, mov_loop)
                    (elim (Bool-cases (leb_ℤ last (pos count))) [
                      | inl h ↦ inr (tt, w.files, rw h)
                      | inr h ↦
                          rw (h, mov_loop)
                            (elim (move_line-OnlyFiles org dst l w) [
                              | inl k ↦ inl (rw k)
                              | inr (_, gs, k) ↦
                                  rw (k, mov_loop)
                                    (mov_loop-OnlyFiles org dst start cnt ls (count + 1)
                                      (record w { files = gs }))
                            ])
                    ])
            ])
    ]

-- All loops of the last two steps.
pub mov_afp_file-OnlyFiles : (org dst wrk : Bytes) → OnlyFiles (mov_afp_file org dst wrk)
unfolding mov_afp_file
mov_afp_file-OnlyFiles org dst wrk =
    OnlyFiles-or_error (list_dir dst) _ (OnlyFiles-list_dir dst) (λ entries.
      OnlyFiles->>= (for_each entries _) _
        (OnlyFiles-for_each entries _ (clear_entry-OnlyFiles dst))
        (λ _.
          OnlyFiles->>= (sprintf_path wrk top_afps_file) _
            (OnlyFiles-sprintf_path wrk top_afps_file)
            (λ p. OnlyFiles-or_error (fopen_rb p) _ (OnlyFiles-fopen_rb p) (λ tops.
              OnlyFiles->>= (for_each (lines tops) _) _
                (OnlyFiles-for_each (lines tops) _ (move_line-OnlyFiles org dst))
                (λ _. OnlyFiles-pure (pos 0))))))

pub mov_cnt_file-OnlyFiles :
    (org dst wrk : Bytes) (start cnt : ℤ) → OnlyFiles (mov_cnt_file org dst wrk start cnt)
unfolding mov_cnt_file
mov_cnt_file-OnlyFiles org dst wrk start cnt =
    OnlyFiles-or_error (list_dir dst) _ (OnlyFiles-list_dir dst) (λ entries.
      OnlyFiles->>= (for_each entries _) _
        (OnlyFiles-for_each entries _ (clear_entry-OnlyFiles dst))
        (λ _.
          OnlyFiles->>= (sprintf_path wrk bot_afps_file) _
            (OnlyFiles-sprintf_path wrk bot_afps_file)
            (λ p. OnlyFiles-or_error (fopen_rb p) _ (OnlyFiles-fopen_rb p) (λ bots.
              OnlyFiles->>= (mov_loop org dst start cnt (lines bots) 0) _
                (mov_loop-OnlyFiles org dst start cnt (lines bots) 0)
                (λ _. OnlyFiles-pure (pos 0))))))
