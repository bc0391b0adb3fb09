-- ===== src/Prodeal/Count/Totals.antt =====
-- `cntSrhNums` on the files: what it writes about a directory of logs.
use finger_move.Base.{
  All, Bool, List, [], ap, arith, false, if◌then◌else◌, pos, refl, some, sym, true, ◌++◌, ◌∙◌, ◌∷◌,
  ◌≡◌, ◌≢◌,
}
use finger_move.Clib.{Bytes, Bytes-discrete, elem, has_byte, lines}
use finger_move.Prodeal.Count.{
  CountMap, cmp, cnt_srh_nums, count_files, count_lines, count_text, lmp,
}
use finger_move.Prodeal.Count.Sorter.{IsSorter, Sort, count_of-sort, sort-Descending}
use finger_move.Prodeal.Count.Tally.{asked, count_of, count_of-count_lines}
use finger_move.Prodeal.Names.{is_dot_entry, log_num_count}
use finger_move.Prodeal.Names.Plain.{log_num_count-IsPlain}
use finger_move.Prodeal.Select.Top.{Descending}
use finger_move.World.{World, done, writable, ◌>>=◌}
use finger_move.World.Effects.{
  Fits, Holds, Holds-put, fclose_wb-join, fopen_rb-there, fopen_wb-writable, list_dir-there,
  lookup-saved_self, saved, sprintf_path-fits,
}
use finger_move.World.Files.{dot, dot_dot, lookup, names_in, path, put, slash}

-- A log of a directory, by its name and what it holds.
abbrev pub IsLog : Bytes → World → Bytes × Bytes → Type 0
IsLog org w (n, s) = (is_dot_entry n ≡ false) × (has_byte slash n ≡ false) × Holds org n s w

abbrev pub names : List (Bytes × Bytes) → List Bytes
names [] = []
names ((n, s) ∷ logs) = n ∷ names logs

-- The lines of all the logs.
abbrev pub all_lines : List (Bytes × Bytes) → List Bytes
all_lines [] = []
all_lines ((n, s) ∷ logs) = lines s ++ all_lines logs

count_lines-append :
    (ls ks : List Bytes) (m : CountMap)
    → count_lines (ls ++ ks) m ≡ count_lines ks (count_lines ls m)
unfolding count_lines
count_lines-append [] ks m = refl
count_lines-append (l ∷ ls) ks m = count_lines-append ls ks _

count_files-logs :
    (org : Bytes) (logs : List (Bytes × Bytes)) (m : CountMap) (w : World)
    → All (IsLog org w) logs
    → count_files org (names logs) m w ≡ done (count_lines (all_lines logs) m) w
unfolding count_files
count_files-logs org [] m w h = refl
count_files-logs org ((n, s) ∷ logs) m w h =
    rw (h.0.0, count_files)
      (rw (sprintf_path-fits org n w h.0.2.fits, count_files)
        (rw (fopen_rb-there org n s w h.0.1 h.0.2, count_files)
          (count_files-logs org logs (count_lines (lines s) m) w h.1
            ∙ ap (λ (r : CountMap). done r w)
                (sym (count_lines-append (lines s) (all_lines logs) m)))))

-- The directory's entries "." and ".." are left out.
count_files-dots :
    (org : Bytes) (ns : List Bytes) (m : CountMap) (w : World)
    → count_files org (dot ∷ dot_dot ∷ ns) m w ≡ count_files org ns m w
unfolding count_files Bytes-discrete
count_files-dots org ns m w = refl

logs-put :
    (org dst c t : Bytes) (logs : List (Bytes × Bytes)) (w : World)
    → org ≢ dst
    → All (IsLog org w) logs
    → All (IsLog org (record w { files = put (path dst c) t w.files })) logs
logs-put org dst c t [] w differ h = tt
logs-put org dst c t ((n, s) ∷ logs) w differ h = (
  (h.0.0, h.0.1, Holds-put org dst n c s t w differ h.0.2),
  logs-put org dst c t logs w differ h.1,
)

pub cnt_srh_nums-run :
    (sort : Sort) (flg : Bool) (org dst : Bytes) (logs : List (Bytes × Bytes)) (counts : Bytes)
    (w : World)
    → elem org w.dirs ≡ true
    → names_in org w.files ≡ names logs
    → All (IsLog org w) logs
    → org ≢ dst
    → Fits dst log_num_count
    → writable (path dst log_num_count) w ≡ true
    → count_text (sort (if flg then lmp else cmp) (count_lines (all_lines logs) [])) ≡ some counts
    → cnt_srh_nums sort org dst flg w ≡ done (pos 0) (saved dst log_num_count counts w)
unfolding cnt_srh_nums
cnt_srh_nums-run sort flg org dst logs counts w dir found logs_hold differ fits free wrote =
    let v = record w { files = put (path dst log_num_count) [] w.files } in
    let counting =
      count_files-dots org (names logs) [] v
      ∙ count_files-logs org logs [] v
          (logs-put org dst log_num_count [] logs w differ logs_hold) in
    rw (list_dir-there org (names logs) w dir found, ◌>>=◌)
      (rw (sprintf_path-fits dst log_num_count w fits, ◌>>=◌)
        (rw (fopen_wb-writable dst log_num_count w log_num_count-IsPlain.1 free, ◌>>=◌)
          (rw (counting, ◌>>=◌)
            (rw (wrote, ◌>>=◌)
              (rw (fclose_wb-join dst log_num_count counts v log_num_count-IsPlain.1, ◌>>=◌))))))

-- From an archive of logs that can all be read, cntSrhNums without its flag writes the counts in
-- an order that does not ascend, and the count of each song is how many lines of the logs ask for
-- it. The lines that it writes fit its buffer, its file can be written and lies in another
-- directory, the paths fit theirs, and std::sort sorts.
pub cnt_srh_nums-totals :
    (sort : Sort) (org dst : Bytes) (logs : List (Bytes × Bytes)) (counts k : Bytes) (w : World)
    → IsSorter sort
    → elem org w.dirs ≡ true
    → names_in org w.files ≡ names logs
    → All (IsLog org w) logs
    → org ≢ dst
    → Fits dst log_num_count
    → writable (path dst log_num_count) w ≡ true
    → count_text (sort cmp (count_lines (all_lines logs) [])) ≡ some counts
    → let es = sort cmp (count_lines (all_lines logs) []) in
      (w' : World) × (cnt_srh_nums sort org dst false w ≡ done (pos 0) w')
      × (lookup (path dst log_num_count) w'.files ≡ some counts)
      × Descending es
      × (count_of k es ≡ asked k (all_lines logs))
cnt_srh_nums-totals sort org dst logs counts k w sorts dir found logs_hold differ fits free wrote =
    (
      saved dst log_num_count counts w,
      cnt_srh_nums-run sort false org dst logs counts w dir found logs_hold differ fits free wrote,
      lookup-saved_self dst log_num_count counts w,
      sort-Descending sort _ sorts,
      count_of-sort sort k _ sorts
          ∙ count_of-count_lines k (all_lines logs) []
          ∙ unfold count_of in omega arith,
    )
