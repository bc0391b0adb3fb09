-- ===== src/Prodeal/Working.antt =====
-- The working files of the steps of src/prodeal.cc, which lie in one directory.
use finger_move.Base.{
  All, All-keep, List, ap, arith, keep, keep-map, map, pos, subst, true, ℕ, ◌∙◌, ◌≡◌, ◌≢◌,
}
use finger_move.Clib.{Bytes, char_at, lines}
use finger_move.Clib.Laws.Lines.{IsText, written}
use finger_move.Prodeal.Filter.{flt_log_file}
use finger_move.Prodeal.Filter.Known.{flt_log_file-run, is_known}
use finger_move.Prodeal.Names.{afp_name_file, flt_logs_file, log_num_count}
use finger_move.Prodeal.Select.Written.{AreLines, entry_text}
use finger_move.World.{World, done, writable}
use finger_move.World.Effects.{
  Fits, Holds, Holds-other, Holds-saved, lookup-saved, saved, writable-loose,
}
use finger_move.World.Files.{FilePath, lookup, path, same_path-elsewhere}

pub differ_by_first : (d n m : Bytes) → char_at n 0 ≢ char_at m 0 → path d n ≢ path d m
differ_by_first d n m h e = h (ap (λ (p : FilePath). char_at p.name 0) e)

pub lookup-elsewhere :
    (d n s : Bytes) (q : FilePath) (w : World)
    → d ≢ q.dir
    → lookup q (saved d n s w).files ≡ lookup q w.files
lookup-elsewhere d n s q w h = lookup-saved d n s q w ∙ rw (same_path-elsewhere d n q h)

-- A working file that can be written.
pub record CanWrite (d n : Bytes) (w : World) : Type 0 where
  pub fits : Fits d n
  pub free : writable (path d n) w ≡ true

abbrev pub known_counts : Bytes → List (Bytes × ℕ) → List (Bytes × ℕ)
known_counts afps = keep (λ e. is_known (lines afps) (entry_text e))

pub known_counts-AreLines :
    (afps : Bytes) (es : List (Bytes × ℕ)) → AreLines es → AreLines (known_counts afps es)
known_counts-AreLines afps es h =
    subst (All IsText) (keep-map (is_known (lines afps)) entry_text es)
      (All-keep IsText (is_known (lines afps)) (map entry_text es) h)

-- fltLogFile on the counts that cntSrhNums has written.
pub flt_log_file-counts :
    (wrk afps : Bytes) (es : List (Bytes × ℕ)) (w : World)
    → AreLines es
    → Holds wrk afp_name_file afps w
    → CanWrite wrk log_num_count w
    → CanWrite wrk flt_logs_file w
    → let v = saved wrk log_num_count (written (map entry_text es)) w in
      flt_log_file wrk wrk v
      ≡ done (pos 0) (saved wrk flt_logs_file (written (map entry_text (known_counts afps es))) v)
flt_log_file-counts wrk afps es w good named counts filtered =
    let v = saved wrk log_num_count (written (map entry_text es)) w in
    flt_log_file-run wrk wrk afps (map entry_text es) v good
      (Holds-other wrk afp_name_file afps wrk log_num_count _ w
        (differ_by_first wrk log_num_count afp_name_file (omega arith)) named)
      (Holds-saved wrk log_num_count _ w counts.fits
        (writable-loose (path wrk log_num_count) w counts.free))
      filtered.fits filtered.free
    ∙ ap (λ (l : List Bytes). done (pos 0) (saved wrk flt_logs_file (written l) v))
        (keep-map (is_known (lines afps)) entry_text es)
