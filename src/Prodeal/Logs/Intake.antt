-- ===== src/Prodeal/Logs/Intake.antt =====
-- What the loop of `movLogFile` over the running logs brings into the archive.
use mathlib.Core.List.{flatten}
use finger_move.Base.{
  All, All-both, All-imp, Bool-cases, List, Option, [], ap, arith, false, if◌then◌else◌, inl, inr,
  map, none, not, refl, some, sym, true, ◌&&◌, ◌||◌, ◌∙◌, ◌∷◌, ◌≡◌, ◌≢◌,
}
use finger_move.Clib.{Bytes, c_str, fgets_all, has_byte, lines, same}
use finger_move.Clib.Laws.Lines.{c_str_self, flatten-fgets_all, has_byte-append}
use finger_move.Prodeal.Logs.{server_log, take_in}
use finger_move.Prodeal.Move.Chosen.{Chosen, DistinctNames, same_path-differ}
use finger_move.Prodeal.Move.Listing.{names_of}
use finger_move.Prodeal.Move.Rename.{CanMove, lookup-renamed, renamed}
use finger_move.Prodeal.Names.{is_dot_entry}
use finger_move.World.{World, done, for_each, ◌>>=◌}
use finger_move.World.Effects.{
  fopen_rb-there, fopen_wb-writable, lookup-saved, rename-there, saved, sprintf_path-fits,
}
use finger_move.World.Files.{FilePath, FileTable, locate-join, lookup, path, same_path}

-- What a path holds when one log is taken in, and when all are, in order.
abbrev pub after_log : Bytes → Bytes → Bytes × Bytes → FilePath → Option Bytes → Option Bytes
after_log org dst (n, s) q old =
    if same_path (path dst n) q
    then some s
    else if same_path (path org n) q && not (same server_log n)
    then none
    else old

unfoldable pub after_logs : Bytes → Bytes → Chosen → FilePath → Option Bytes → Option Bytes
after_logs org dst [] q old = old
after_logs org dst (e ∷ fs) q old = after_logs org dst fs q (after_log org dst e q old)

-- A running log, by its name and what it holds, that can be moved or copied.
pub record IsRunning (org dst : Bytes) (w : World) (e : Bytes × Bytes) : Type 0 where
  pub entry : is_dot_entry e.0 ≡ false
  pub text : has_byte 0 e.1 ≡ false
  pub can : CanMove org dst w e

c_str-pieces :
    (ls : List Bytes) → has_byte 0 (flatten ls) ≡ false → flatten (map c_str ls) ≡ flatten ls
unfolding flatten has_byte
c_str-pieces [] h = refl
c_str-pieces (l ∷ ls) h =
    let split : (has_byte 0 l || has_byte 0 (flatten ls)) ≡ false =
      sym (has_byte-append 0 l (flatten ls)) ∙ h in
    rw (c_str_self l (ground (arith, split)), c_str-pieces ls (ground (arith, split)))

-- Copying a log line by line copies all of it, when it has no NUL.
pub flatten-lines : (s : Bytes) → has_byte 0 s ≡ false → flatten (lines s) ≡ s
unfolding lines
flatten-lines s h = c_str-pieces (fgets_all s) (rw (flatten-fgets_all s) h) ∙ flatten-fgets_all s

module _ (org dst : Bytes) where
  after_logs-other :
      (logs : Chosen) (q : FilePath) (old : Option Bytes)
      → All (λ (f : Bytes × Bytes). f.0 ≢ q.name) logs
      → after_logs org dst logs q old ≡ old
  unfolding after_logs
  after_logs-other [] q old h = refl
  after_logs-other ((n, s) ∷ logs) q old h =
      rw (same_path-differ dst n q h.0)
        (rw (same_path-differ org n q h.0) (after_logs-other logs q old h.1))

  -- None of them is lost.
  pub after_logs-each :
      (logs : Chosen)
      → DistinctNames logs
      → All (λ e. (old : Option Bytes) → after_logs org dst logs (path dst e.0) old ≡ some e.1) logs
  unfolding after_logs
  after_logs-each [] d = tt
  after_logs-each (e ∷ logs) d = (
    λ old. after_logs-other logs (path dst e.0) _ d.0 ∙ ground arith,
    All-imp (λ f h old. h (after_log org dst e (path dst f.0) old)) logs (after_logs-each logs d.1),
  )

  copies :
      (n s : Bytes) (w : World)
      → IsRunning org dst w (n, s)
      → same server_log n ≡ true
      → take_in org dst n w ≡ done tt (saved dst n s w)
  unfolding take_in
  copies n s w h live =
      rw (h.entry, take_in)
        (rw (sprintf_path-fits org n w h.can.holds.fits, ◌>>=◌)
          (rw (sprintf_path-fits dst n w h.can.fits, ◌>>=◌)
            (rw live (
              rw (fopen_rb-there org n s w h.can.plain h.can.holds, ◌>>=◌)
                (rw (fopen_wb-writable dst n w h.can.plain h.can.free, ◌>>=◌)
                  (rw (flatten-lines s h.text) (rw (locate-join dst n h.can.plain))))))))

  moves :
      (n s : Bytes) (w : World)
      → IsRunning org dst w (n, s)
      → same server_log n ≡ false
      → take_in org dst n w ≡ done tt (renamed org dst n s w)
  unfolding take_in
  moves n s w h rotated =
      rw (h.entry, take_in)
        (rw (sprintf_path-fits org n w h.can.holds.fits, ◌>>=◌)
          (rw (sprintf_path-fits dst n w h.can.fits, ◌>>=◌)
            (rw rotated (
              rename-there org dst n s w h.can.plain h.can.holds.loose h.can.free
                h.can.holds.there))))

  take_in-run :
      (e : Bytes × Bytes) (w : World)
      → IsRunning org dst w e
      → (fs : FileTable) × (take_in org dst e.0 w ≡ done tt (record w { files = fs }))
        × ((q : FilePath) → lookup q fs ≡ after_log org dst e q (lookup q w.files))
  take_in-run (n, s) w h = elim (Bool-cases (same server_log n)) [
    | inl live ↦ (
      (saved dst n s w).files,
      copies n s w h live,
      λ q. lookup-saved dst n s q w ∙ ground (arith, live),
    )
    | inr rotated ↦ (
      (renamed org dst n s w).files,
      moves n s w h rotated,
      λ q. lookup-renamed org dst n s q w ∙ ground (arith, rotated),
    )
  ]

  IsRunning-next :
      (e : Bytes × Bytes) (fs : FileTable) (w : World)
      → ((q : FilePath) → lookup q fs ≡ after_log org dst e q (lookup q w.files))
      → (f : Bytes × Bytes) → f.0 ≢ e.0
      → IsRunning org dst w f
      → IsRunning org dst (record w { files = fs }) f
  IsRunning-next (n, s) fs w left (m, t) differ h =
      let apart : n ≢ m = (λ p. differ (sym p)) in
      record {
        entry = h.entry;
        text = h.text;
        can = record {
          plain = h.can.plain;
          fits = h.can.fits;
          holds = record {
            fits = h.can.holds.fits;
            loose = h.can.holds.loose;
            there =
                left (path org m)
                ∙ rw (same_path-differ dst n (path org m) apart)
                    (rw (same_path-differ org n (path org m) apart) h.can.holds.there);
          };
          free = h.can.free;
        };
      }

  pub take_in-each :
      (logs : Chosen) (w : World)
      → DistinctNames logs
      → All (IsRunning org dst w) logs
      → (fs : FileTable) × (for_each (names_of logs) (take_in org dst) w
          ≡ done tt (record w { files = fs }))
        × ((q : FilePath) → lookup q fs ≡ after_logs org dst logs q (lookup q w.files))
  unfolding for_each after_logs
  take_in-each [] w d h = (w.files, refl, λ q. refl)
  take_in-each (e ∷ logs) w d h =
      let (fs, ran, left) = take_in-run e w h.0 in
      let (gs, ran', left') =
        take_in-each logs (record w { files = fs }) d.1
          (All-imp (λ f x. IsRunning-next e fs w left f x.0 x.1) logs
            (All-both _ _ logs d.0 h.1)) in
      (gs, rw (ran, for_each) ran', λ q. left' q ∙ ap (after_logs org dst logs q) (left q))
