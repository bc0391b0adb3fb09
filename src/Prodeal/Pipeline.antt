-- ===== src/Prodeal/Pipeline.antt =====
-- The steps `cntSrhNums`, `fltLogFile` and `topAfpFile` of src/prodeal.cc in a row, as
-- GCServer::Preconf calls them.
use finger_move.Base.{
  All, All-keep, All-take, All-unmap, List, Ordered-keep, [], false, length, map, pos, take, true,
  ℕ, ℤ, ◌∙◌, ◌≡◌, ◌≢◌,
}
use finger_move.Clib.{Bytes, elem}
use finger_move.Clib.Laws.Lines.{IsText, written}
use finger_move.Prodeal.Count.{cmp, cnt_srh_nums, count_lines}
use finger_move.Prodeal.Count.Sorter.{IsSorter, Sort, sort-Descending}
use finger_move.Prodeal.Count.Totals.{IsLog, all_lines, cnt_srh_nums-run, names}
use finger_move.Prodeal.Filter.{flt_log_file}
use finger_move.Prodeal.Move.Aside.{CanTake-saved}
use finger_move.Prodeal.Move.Chosen.{Chosen}
use finger_move.Prodeal.Move.Delivery.{CanTake}
use finger_move.Prodeal.Names.{afp_name_file, flt_logs_file, log_num_count, top_afps_file}
use finger_move.Prodeal.Select.{top_afp_file}
use finger_move.Prodeal.Select.Entries.{IsEntry}
use finger_move.Prodeal.Select.Fingers.{finger_names, finger_names-IsText}
use finger_move.Prodeal.Select.Top.{above, afp_text}
use finger_move.Prodeal.Select.Written.{AreLines, count_text-written, entry_text, top_afp_file-run}
use finger_move.Prodeal.Working.{
  CanWrite, flt_log_file-counts, known_counts, known_counts-AreLines, lookup-elsewhere,
}
use finger_move.World.{World, done}
use finger_move.World.Effects.{Holds, Holds-saved, saved, writable-loose}
use finger_move.World.Files.{FilePath, lookup, names_in, path}

-- The counts in the order that `sort` gives them, and those of the songs that have a finger file.
abbrev pub sorted_counts : Sort → List (Bytes × Bytes) → List (Bytes × ℕ)
sorted_counts sort logs = sort cmp (count_lines (all_lines logs) [])

-- The archive `log` holds these logs, and the steps can work in `wrk`, where the names of the
-- finger files stand.
pub record Ready (sort : Sort) (log wrk afps : Bytes) (logs : List (Bytes × Bytes)) (w : World)
    : Type 0 where
  pub dir : elem log w.dirs ≡ true
  pub found : names_in log w.files ≡ names logs
  pub logs_hold : All (IsLog log w) logs
  pub differ : log ≢ wrk
  pub afp_names : Holds wrk afp_name_file afps w
  pub counts : CanWrite wrk log_num_count w
  pub filtered : CanWrite wrk flt_logs_file w
  pub tops : CanWrite wrk top_afps_file w
  pub good : AreLines (sorted_counts sort logs)
  pub entries : All IsEntry (sorted_counts sort logs)

module _ (sort : Sort) (log wrk afps : Bytes) (logs : List (Bytes × Bytes)) where
  abbrev es : List (Bytes × ℕ)
  es = sorted_counts sort logs

  abbrev ks : List (Bytes × ℕ)
  ks = known_counts afps es

  -- The world after each of the steps.
  abbrev pub counted : World → World
  counted = saved wrk log_num_count (written (map entry_text es))

  abbrev pub filtered_world : World → World
  filtered_world w = saved wrk flt_logs_file (written (map entry_text ks)) (counted w)

  abbrev pub selected : ℕ → ℤ → World → World
  selected most cnt w =
      saved wrk top_afps_file (afp_text (take most (above cnt ks))) (filtered_world w)

  pub counted-run :
      (w : World)
      → Ready sort log wrk afps logs w
      → cnt_srh_nums sort log wrk false w ≡ done (pos 0) (counted w)
  counted-run w r =
      cnt_srh_nums-run sort false log wrk logs (written (map entry_text es)) w r.dir r.found
        r.logs_hold r.differ r.counts.fits r.counts.free (count_text-written es r.good)

  known-AreLines : AreLines es → AreLines ks
  known-AreLines = known_counts-AreLines afps es

  pub filtered-run :
      (w : World)
      → Ready sort log wrk afps logs w
      → flt_log_file wrk wrk (counted w) ≡ done (pos 0) (filtered_world w)
  filtered-run w r = flt_log_file-counts wrk afps es w r.good r.afp_names r.counts r.filtered

  pub selected-run :
      (most : ℕ) (cnt : ℤ) (w : World)
      → IsSorter sort
      → Ready sort log wrk afps logs w
      → top_afp_file most wrk wrk cnt (filtered_world w)
        ≡ done (pos (length (take most (above cnt ks)))) (selected most cnt w)
  selected-run most cnt w sorts r =
      top_afp_file-run most wrk wrk cnt ks (written (map entry_text ks)) (filtered_world w)
        (count_text-written ks (known-AreLines r.good)) (known-AreLines r.good)
        (All-keep IsEntry _ es r.entries) (Ordered-keep _ _ es (sort-Descending sort _ sorts))
        (Holds-saved wrk flt_logs_file _ (counted w) r.filtered.fits
          (writable-loose (path wrk flt_logs_file) w r.filtered.free))
        r.tops.fits r.tops.free

  pub selected-Holds :
      (most : ℕ) (cnt : ℤ) (w : World)
      → Ready sort log wrk afps logs w
      → Holds wrk top_afps_file (afp_text (take most (above cnt ks))) (selected most cnt w)
  selected-Holds most cnt w r =
      Holds-saved wrk top_afps_file _ (filtered_world w) r.tops.fits
        (writable-loose (path wrk top_afps_file) w r.tops.free)

  -- The steps leave other directories alone.
  pub lookup-selected :
      (most : ℕ) (cnt : ℤ) (w : World) (q : FilePath)
      → wrk ≢ q.dir
      → lookup q (selected most cnt w).files ≡ lookup q w.files
  lookup-selected most cnt w q h =
      lookup-elsewhere wrk top_afps_file _ q (filtered_world w) h
      ∙ lookup-elsewhere wrk flt_logs_file _ q (counted w) h
      ∙ lookup-elsewhere wrk log_num_count _ q w h

  pub CanTake-selected :
      (most : ℕ) (cnt : ℤ) (org dst : Bytes) (fs : Chosen) (w : World)
      → org ≢ wrk
      → dst ≢ wrk
      → CanTake org dst fs w
      → CanTake org dst fs (selected most cnt w)
  CanTake-selected most cnt org dst fs w h k can =
      CanTake-saved org dst wrk top_afps_file _ fs (filtered_world w) h k (
        CanTake-saved org dst wrk flt_logs_file _ fs (counted w) h k
          (CanTake-saved org dst wrk log_num_count _ fs w h k can))

  -- The names of the finger files that are chosen, as lines.
  pub chosen-IsText :
      (most : ℕ) (cnt : ℤ)
      → AreLines es
      → All IsEntry es
      → All IsText (finger_names (take most (above cnt ks)))
  chosen-IsText most cnt good entries =
      finger_names-IsText (take most (above cnt ks))
        (All-take IsEntry most _ (All-keep IsEntry _ ks (All-keep IsEntry _ es entries)))
        (All-take (λ e. IsText (entry_text e)) most _
          (All-keep (λ e. IsText (entry_text e)) _ ks
            (All-keep (λ e. IsText (entry_text e)) _ es (All-unmap IsText entry_text es good))))
