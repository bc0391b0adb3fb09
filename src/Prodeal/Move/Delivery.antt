-- ===== src/Prodeal/Move/Delivery.antt =====
-- `movAfpFile` and `movCntFile` as wholes.
use finger_move.Base.{
  All, All-imp, All-of, List, Option, [], ap, drop, drop-map, false, if_neg, if_pos, map, none, pos,
  refl, sym, take, take-map, true, ℕ, ℤ, ◌+◌, ◌<◌, ◌^◌, ◌∙◌, ◌∷◌, ◌≡◌, ◌≢◌,
}
use finger_move.Clib.{Bytes, Bytes-discrete, elem, has_byte, lines}
use finger_move.Clib.Laws.Lines.{IsText, lines-written, terminated, written}
use finger_move.Prodeal.Move.{clear_entry, mov_afp_file, mov_cnt_file, mov_loop, move_line}
use finger_move.Prodeal.Move.Chosen.{
  Chosen, DistinctNames, after_moves, chosen_lines, for_each-move_line, lookup-moved, moved,
}
use finger_move.Prodeal.Move.Clear.{CanClear, emptied, for_each-clear_entry}
use finger_move.Prodeal.Move.Listing.{names_in-moved, names_in-none, names_of}
use finger_move.Prodeal.Move.Rename.{CanMove}
use finger_move.Prodeal.Move.Window.{mov_loop-window}
use finger_move.Prodeal.Names.{bot_afps_file, or_error, top_afps_file}
use finger_move.World.{
  Cmd, World, done, fopen_rb, for_each, list_dir, pure, sprintf_path, ◌>>=◌, ◌>>◌,
}
use finger_move.World.Effects.{Holds, fopen_rb-there, list_dir-there, sprintf_path-fits}
use finger_move.World.Files.{FilePath, FileTable, lookup, names_in, path, slash}

chosen_lines-names : (fs : Chosen) → map terminated (names_of fs) ≡ chosen_lines fs
chosen_lines-names [] = refl
chosen_lines-names (e ∷ fs) = ap (λ (ls : List Bytes). terminated e.0 ∷ ls) (chosen_lines-names fs)

-- The directory `dst` can be emptied, and the files of `fs` can be moved there from `org`.
pub record CanTake (org dst : Bytes) (fs : Chosen) (w : World) : Type 0 where
  pub dir : elem dst w.dirs ≡ true
  pub clear : All (CanClear dst w) (names_in dst w.files)
  pub apart : dst ≢ org
  pub distinct : DistinctNames fs
  pub can : All (CanMove org dst w) fs

-- The file `list_name` of `wrk` names files line by line, too.
pub record CanDeliver (org dst wrk list_name : Bytes) (listed : List Bytes) (fs : Chosen)
    (w : World) : Type 0 where
  pub takes : CanTake org dst fs w
  pub aside : dst ≢ wrk
  pub holds : Holds wrk list_name (written listed) w
  pub texts : All IsText listed

-- What a path holds when `dst` has been emptied and the files have been moved there.
abbrev pub delivered : Bytes → Bytes → Chosen → FilePath → Option Bytes → Option Bytes
delivered org dst fs q old = after_moves org dst fs q (emptied dst q old)

Holds-emptied :
    (d dst n s : Bytes) (w : World) (gs : FileTable)
    → dst ≢ d
    → ((q : FilePath) → lookup q gs ≡ emptied dst q (lookup q w.files))
    → Holds d n s w
    → Holds d n s (record w { files = gs })
Holds-emptied d dst n s w gs differ left h = record {
  fits = h.fits;
  loose = h.loose;
  there = left (path d n) ∙ rw (if_neg (Bytes-discrete dst d) differ true false) h.there;
}

CanMove-emptied :
    (org dst : Bytes) (fs : Chosen) (w : World) (gs : FileTable)
    → dst ≢ org
    → ((q : FilePath) → lookup q gs ≡ emptied dst q (lookup q w.files))
    → All (CanMove org dst w) fs
    → All (CanMove org dst (record w { files = gs })) fs
CanMove-emptied org dst fs w gs differ left =
    All-imp
      (λ e x. record {
        plain = x.plain;
        fits = x.fits;
        holds = Holds-emptied org dst e.0 e.1 w gs differ left x.holds;
        free = x.free;
      })
      fs

module _ (org dst wrk list_name : Bytes) (plain : has_byte slash list_name ≡ false)
    (loop : List Bytes → Cmd (Unit {0})) where
  -- What both steps do, with the loop over the list.
  abbrev step : Cmd ℤ
  step = or_error (list_dir dst) λ entries. do
    for_each entries (clear_entry dst)
    name ← sprintf_path wrk list_name
    or_error (fopen_rb name) λ s. do loop (lines s); pure (pos 0)

  step-delivers :
      (listed : List Bytes) (fs : Chosen) (w : World)
      → ((v : World)
          → loop (map terminated listed) v ≡ for_each (chosen_lines fs) (move_line org dst) v)
      → CanDeliver org dst wrk list_name listed fs w
      → (gs : FileTable) × (step w ≡ done (pos 0) (record w { files = gs }))
        × ((q : FilePath) → lookup q gs ≡ delivered org dst fs q (lookup q w.files))
        × (names_in dst gs ≡ names_of fs)
  step-delivers listed fs w body h =
      let (cs, cleared, empty) = for_each-clear_entry dst w h.takes.clear in
      let v = record w { files = cs } in
      let held = Holds-emptied wrk dst list_name (written listed) w cs h.aside empty h.holds in
      let ran =
        for_each-move_line org dst fs v h.takes.distinct
          (CanMove-emptied org dst fs w cs h.takes.apart empty h.takes.can) in
      let nothing : (n : Bytes) → lookup (path dst n) cs ≡ none =
        (λ n. empty (path dst n) ∙ rw (if_pos (Bytes-discrete dst dst) refl true false)) in
      (
        moved org dst fs cs,
        rw (list_dir-there dst (names_in dst w.files) w h.takes.dir refl, ◌>>=◌)
            (rw (cleared, ◌>>=◌)
              (rw (sprintf_path-fits wrk list_name v held.fits, ◌>>=◌)
                (rw (fopen_rb-there wrk list_name (written listed) v plain held, ◌>>=◌)
                  (rw (lines-written listed h.texts, body v, ran, ◌>>=◌))))),
        λ q.
            lookup-moved org dst fs q cs h.takes.distinct ∙ ap (after_moves org dst fs q) (empty q),
        names_in-moved org dst h.takes.apart fs cs h.takes.distinct (All-of _ fs (λ f. nothing f.0))
            ∙ rw (names_in-none dst cs nothing),
      )

-- movAfpFile empties the one directory and moves to it, from the other, the files that the list of
-- topAfpFile names: it then holds these and no others, each with what it held and in the order of
-- the list, and every other path holds what it held. The directories differ, the one can be
-- emptied, and the files are there, none twice, and can be moved.
pub mov_afp_file-delivers :
    (org dst wrk : Bytes) (fs : Chosen) (w : World)
    → CanDeliver org dst wrk top_afps_file (names_of fs) fs w
    → (gs : FileTable) × (mov_afp_file org dst wrk w ≡ done (pos 0) (record w { files = gs }))
      × ((q : FilePath) → lookup q gs ≡ delivered org dst fs q (lookup q w.files))
      × (names_in dst gs ≡ names_of fs)
unfolding mov_afp_file
mov_afp_file-delivers org dst wrk fs w h =
    step-delivers org dst wrk top_afps_file refl (λ ls. for_each ls (move_line org dst))
      (names_of fs) fs w (λ v. rw (chosen_lines-names fs)) h

-- movCntFile, with a position and a count that are not negative, empties the one directory and
-- moves to it, from the other, the files that the list of botAfpFile names from that line on, as
-- many as the count says: it then holds these and no others, each with what it held and in the
-- order of the list, and every other path holds what it held. The position and the count add up to
-- less than 2^31, the directory that is emptied is there, differs from the other two and can be
-- emptied, the list can be read and its lines fit the buffer and have no NUL, and the files are
-- there, none twice, and can be moved.
pub mov_cnt_file-delivers :
    (org dst wrk : Bytes) (start cnt : ℕ) (listed : List Bytes) (fs : Chosen) (w : World)
    → start + cnt < 2 ^ 31
    → names_of fs ≡ take cnt (drop start listed)
    → CanDeliver org dst wrk bot_afps_file listed fs w
    → (gs : FileTable) × (mov_cnt_file org dst wrk (pos start) (pos cnt) w
        ≡ done (pos 0) (record w { files = gs }))
      × ((q : FilePath) → lookup q gs ≡ delivered org dst fs q (lookup q w.files))
      × (names_in dst gs ≡ names_of fs)
unfolding mov_cnt_file
mov_cnt_file-delivers org dst wrk start cnt listed fs w bound names_are h =
    step-delivers org dst wrk bot_afps_file refl (λ ls. mov_loop org dst (pos start) (pos cnt) ls 0)
      listed fs w
      (λ v.
        mov_loop-window org dst start cnt (map terminated listed) v bound
        ∙ ap (λ (ls : List Bytes). for_each ls (move_line org dst) v)
            (ap (take cnt) (drop-map terminated start listed)
              ∙ take-map terminated cnt (drop start listed)
              ∙ ap (map terminated) (sym names_are)
              ∙ chosen_lines-names fs))
      h
