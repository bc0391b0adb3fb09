-- ===== src/Prodeal/Daily.antt =====
-- The steps `cntSrhNums`, `fltLogFile` and `botAfpFile` of src/prodeal.cc in a row, as runLoop of
-- src/service.cc calls them.
use finger_move.Base.{
  All, All-append, All-keep, All-take, All-unmap, List, [], arith, length-append, map, pos, true, ℕ,
  ◌∙◌, ◌∷◌, ◌≡◌, ◌≢◌,
}
use finger_move.Clib.{Bytes, decimal, elem, newline}
use finger_move.Clib.Laws.Lines.{IsText, written}
use finger_move.Prodeal.Count.{bar, cnt_srh_nums, count_lines, lmp}
use finger_move.Prodeal.Count.Sorter.{Sort}
use finger_move.Prodeal.Count.Totals.{IsLog, all_lines, cnt_srh_nums-run, names}
use finger_move.Prodeal.Filter.{flt_log_file}
use finger_move.Prodeal.Move.Aside.{CanTake-saved}
use finger_move.Prodeal.Move.Chosen.{Chosen}
use finger_move.Prodeal.Move.Delivery.{CanTake}
use finger_move.Prodeal.Names.{afp_name_file, bot_afps_file, flt_logs_file, log_num_count}
use finger_move.Prodeal.Select.{bot_afp_file}
use finger_move.Prodeal.Select.Bottom.{last_count}
use finger_move.Prodeal.Select.Cache.{bot_afp_file-run, cache_names, cold_names, hot_counts}
use finger_move.Prodeal.Select.Entries.{IsEntry}
use finger_move.Prodeal.Select.Fingers.{has_byte-left}
use finger_move.Prodeal.Select.Written.{AreLines, count_text-written, entry_text}
use finger_move.Prodeal.Working.{
  CanWrite, differ_by_first, flt_log_file-counts, known_counts, known_counts-AreLines,
  lookup-elsewhere,
}
use finger_move.World.{Cmd, World, done, ◌>>=◌, ◌>>◌}
use finger_move.World.Effects.{Holds, Holds-other, Holds-saved, saved, writable-loose}
use finger_move.World.Files.{FilePath, lookup, names_in, path}

-- The counts in the order that `sort` gives them, the least first, and those of the songs with a
-- finger file.
abbrev pub rising_counts : Sort → List (Bytes × Bytes) → List (Bytes × ℕ)
rising_counts sort logs = sort lmp (count_lines (all_lines logs) [])

abbrev pub present_counts : Sort → List Bytes → List (Bytes × Bytes) → List (Bytes × ℕ)
present_counts sort ns logs = known_counts (written ns) (rising_counts sort logs)

-- The archive `log` holds these logs, and the steps can work in `wrk`, where the names `ns` of the
-- finger files stand.
pub record CanChoose (sort : Sort) (log wrk : Bytes) (ns : List Bytes) (logs : List (Bytes × Bytes))
    (w : World) : Type 0 where
  pub dir : elem log w.dirs ≡ true
  pub found : names_in log w.files ≡ names logs
  pub logs_hold : All (IsLog log w) logs
  pub differ : log ≢ wrk
  pub named : Holds wrk afp_name_file (written ns) w
  pub lines_good : All IsText ns
  pub counts : CanWrite wrk log_num_count w
  pub filtered : CanWrite wrk flt_logs_file w
  pub bots : CanWrite wrk bot_afps_file w
  pub good : AreLines (rising_counts sort logs)
  pub entries : All IsEntry (rising_counts sort logs)

-- A song whose count makes a line makes one by itself.
song-IsText :
    (es : List (Bytes × ℕ)) → All (λ e. IsText (entry_text e)) es → All IsText (map (λ e. e.0) es)
song-IsText [] h = tt
song-IsText (e ∷ es) h =
    let (no_newline, no_nul, fits) = h.0 in
    (
      (
        has_byte-left newline e.0 (bar ∷ decimal e.1) no_newline,
        has_byte-left 0 e.0 (bar ∷ decimal e.1) no_nul,
        omega (arith, length-append e.0 (bar ∷ decimal e.1), fits),
      ),
      song-IsText es h.1,
    )

module _ (sort : Sort) (log wrk : Bytes) (ns : List Bytes) (logs : List (Bytes × Bytes)) where
  abbrev es : List (Bytes × ℕ)
  es = rising_counts sort logs

  abbrev ks : List (Bytes × ℕ)
  ks = present_counts sort ns logs

  -- The world after each of the steps.
  abbrev counted : World → World
  counted = saved wrk log_num_count (written (map entry_text es))

  abbrev pub filtered_world : World → World
  filtered_world w = saved wrk flt_logs_file (written (map entry_text ks)) (counted w)

  abbrev pub chosen_world : ℕ → World → World
  chosen_world limit w =
      saved wrk bot_afps_file (written (cache_names limit ns ks)) (filtered_world w)

  ks-AreLines : (w : World) → CanChoose sort log wrk ns logs w → AreLines ks
  ks-AreLines w r = known_counts-AreLines (written ns) es r.good

  ks-IsEntry : (w : World) → CanChoose sort log wrk ns logs w → All IsEntry ks
  ks-IsEntry w r = All-keep IsEntry _ es r.entries

  pub bot_afp_file-chosen :
      (limit : ℕ) (w : World)
      → CanChoose sort log wrk ns logs w
      → bot_afp_file limit wrk wrk (filtered_world w)
        ≡ done (last_count (pos 0) (hot_counts limit ns ks)) (chosen_world limit w)
  bot_afp_file-chosen limit w r =
      bot_afp_file-run limit wrk wrk ns ks (filtered_world w) r.lines_good (ks-AreLines w r)
        (ks-IsEntry w r)
        (Holds-other wrk afp_name_file (written ns) wrk flt_logs_file _ (counted w)
          (differ_by_first wrk flt_logs_file afp_name_file (omega arith))
          (Holds-other wrk afp_name_file (written ns) wrk log_num_count _ w
            (differ_by_first wrk log_num_count afp_name_file (omega arith)) r.named))
        (Holds-saved wrk flt_logs_file _ (counted w) r.filtered.fits
          (writable-loose (path wrk flt_logs_file) w r.filtered.free))
        r.bots.fits r.bots.free

  -- The steps before it, whatever follows.
  pub filtered-then {ℓ} :
      {A : Type ℓ} (m : Cmd A) (w : World)
      → CanChoose sort log wrk ns logs w
      → (do cnt_srh_nums sort log wrk true; flt_log_file wrk wrk; m) w ≡ m (filtered_world w)
  filtered-then m w r =
      rw
        (
          cnt_srh_nums-run sort true log wrk logs _ w r.dir r.found r.logs_hold r.differ
              r.counts.fits r.counts.free (count_text-written es r.good),
          ◌>>=◌,
        )
        (rw (flt_log_file-counts wrk (written ns) es w r.good r.named r.counts r.filtered, ◌>>=◌))

  pub chosen-Holds :
      (limit : ℕ) (w : World)
      → CanChoose sort log wrk ns logs w
      → Holds wrk bot_afps_file (written (cache_names limit ns ks)) (chosen_world limit w)
  chosen-Holds limit w r =
      Holds-saved wrk bot_afps_file _ (filtered_world w) r.bots.fits
        (writable-loose (path wrk bot_afps_file) w r.bots.free)

  -- The steps leave other directories alone.
  pub lookup-chosen :
      (limit : ℕ) (w : World) (q : FilePath)
      → wrk ≢ q.dir
      → lookup q (chosen_world limit w).files ≡ lookup q w.files
  lookup-chosen limit w q h =
      lookup-elsewhere wrk bot_afps_file _ q (filtered_world w) h
      ∙ lookup-elsewhere wrk flt_logs_file _ q (counted w) h
      ∙ lookup-elsewhere wrk log_num_count _ q w h

  pub CanTake-chosen :
      (limit : ℕ) (org dst : Bytes) (fs : Chosen) (w : World)
      → org ≢ wrk
      → dst ≢ wrk
      → CanTake org dst fs w
      → CanTake org dst fs (chosen_world limit w)
  CanTake-chosen limit org dst fs w h k can =
      CanTake-saved org dst wrk bot_afps_file _ fs (filtered_world w) h k (
        CanTake-saved org dst wrk flt_logs_file _ fs (counted w) h k
          (CanTake-saved org dst wrk log_num_count _ fs w h k can))

  pub cache_names-IsText :
      (limit : ℕ) (w : World)
      → CanChoose sort log wrk ns logs w
      → All IsText (cache_names limit ns ks)
  cache_names-IsText limit w r =
      All-append IsText (cold_names limit ns ks) _
        (All-take IsText limit _ (All-keep IsText _ ns r.lines_good))
        (song-IsText _ (All-take _ _ ks (All-unmap IsText entry_text ks (ks-AreLines w r))))
