-- ===== src/Prodeal/Frames/Logs.antt =====
-- `CProDeal::movLogFile` and `CProDeal::cntSrhNums` change files only.
use mathlib.Core.List.{flatten}
use finger_move.Base.{
  Bool, Bool-cases, List, Option, [], false, if◌then◌else◌, inl, inr, none, pos, refl, some, true,
  ℕ, ◌∷◌,
}
use finger_move.Clib.{Bytes, lines, same}
use finger_move.Prodeal.Count.{
  CountMap, cmp, cnt_srh_nums, count_files, count_lines, count_text, lmp,
}
use finger_move.Prodeal.Count.Sorter.{Sort}
use finger_move.Prodeal.Frames.{
  OnlyFiles-or_error, OnlyFiles-or_error_wb, OnlyFiles-removed, OnlyFiles-written,
}
use finger_move.Prodeal.Logs.{comes_before, expire, mov_log_file, server_log, take_in}
use finger_move.Prodeal.Names.{is_dot_entry, log_num_count}
use finger_move.World.{
  fault, fclose_wb, fopen_rb, fopen_wb, for_each, list_dir, or_fault, rename, sprintf_path, unit,
  ◌>>=◌,
}
use finger_move.World.Frames.{
  OnlyFiles, OnlyFiles->>=, OnlyFiles-fclose_wb, OnlyFiles-fopen_rb, OnlyFiles-fopen_wb,
  OnlyFiles-for_each, OnlyFiles-if, OnlyFiles-list_dir, OnlyFiles-or_fault, OnlyFiles-pure,
  OnlyFiles-rename, OnlyFiles-sprintf_path,
}

expire-OnlyFiles : (dst stamp n : Bytes) → OnlyFiles (expire dst stamp n)
unfolding expire
expire-OnlyFiles dst stamp n =
    OnlyFiles-if (is_dot_entry n) unit _ (OnlyFiles-pure tt)
      (OnlyFiles-if (comes_before n stamp) _ unit (OnlyFiles-removed dst n) (OnlyFiles-pure tt))

copy_opened : (q s : Bytes) (b : Bool) → OnlyFiles (if b then fclose_wb q s else λ w. fault)
unfolding OnlyFiles
copy_opened q s true = OnlyFiles-fclose_wb q s
copy_opened q s false = λ w. inl refl

copy_found :
    (q : Bytes) (o : Option Bytes)
    → OnlyFiles (elim o [
      | none ↦ unit
      | some s ↦ do fdst ← fopen_wb q; if fdst then fclose_wb q (flatten (lines s)) else λ w. fault
    ])
copy_found q none = OnlyFiles-pure tt
copy_found q (some s) = OnlyFiles->>= (fopen_wb q) _ (OnlyFiles-fopen_wb q) (λ b. copy_opened q _ b)

take_in-OnlyFiles : (org dst n : Bytes) → OnlyFiles (take_in org dst n)
unfolding take_in
take_in-OnlyFiles org dst n = OnlyFiles-if (is_dot_entry n) unit _ (OnlyFiles-pure tt) (
    OnlyFiles->>= (sprintf_path org n) _ (OnlyFiles-sprintf_path org n) (λ p.
      OnlyFiles->>= (sprintf_path dst n) _ (OnlyFiles-sprintf_path dst n) (λ q.
        OnlyFiles-if (same server_log n) _ (rename p q)
          (OnlyFiles->>= (fopen_rb p) _ (OnlyFiles-fopen_rb p) (λ o. copy_found q o))
          (OnlyFiles-rename p q))))

pub mov_log_file-OnlyFiles : (now : ℕ) (org dst : Bytes) → OnlyFiles (mov_log_file now org dst)
unfolding mov_log_file
mov_log_file-OnlyFiles now org dst =
    OnlyFiles-or_error (list_dir dst) _ (OnlyFiles-list_dir dst) (λ old.
      OnlyFiles->>= (for_each old _) _ (OnlyFiles-for_each old _ (expire-OnlyFiles dst _)) (λ _.
        OnlyFiles-or_error (list_dir org) _ (OnlyFiles-list_dir org) (λ new.
          OnlyFiles->>= (for_each new _) _ (OnlyFiles-for_each new _ (take_in-OnlyFiles org dst))
            (λ _. OnlyFiles-pure (pos 0)))))

count_files-OnlyFiles :
    (org : Bytes) (ns : List Bytes) (m : CountMap) → OnlyFiles (count_files org ns m)
unfolding OnlyFiles count_files
count_files-OnlyFiles org [] m w = inr (m, w.files, refl)
count_files-OnlyFiles org (n ∷ ns) m w = elim (Bool-cases (is_dot_entry n)) [
  | inl e ↦ rw (e, count_files) (count_files-OnlyFiles org ns m w)
  | inr e ↦
      rw (e, count_files)
        (elim (OnlyFiles-sprintf_path org n w) [
          | inl h ↦ inl (rw h)
          | inr (p, fs, h) ↦
              rw (h, count_files)
                (elim (OnlyFiles-fopen_rb p (record w { files = fs })) [
                  | inl k ↦ inl (rw k)
                  | inr (none, gs, k) ↦
                      rw (k, count_files) (count_files-OnlyFiles org ns m (record w { files = gs }))
                  | inr (some s, gs, k) ↦
                      rw (k, count_files)
                        (count_files-OnlyFiles org ns (count_lines (lines s) m)
                          (record w { files = gs }))
                ])
        ])
]

pub cnt_srh_nums-OnlyFiles :
    (sort : Sort) (org dst : Bytes) (flg : Bool) → OnlyFiles (cnt_srh_nums sort org dst flg)
unfolding cnt_srh_nums
cnt_srh_nums-OnlyFiles sort org dst flg =
    OnlyFiles-or_error (list_dir org) _ (OnlyFiles-list_dir org) (λ entries.
      OnlyFiles->>= (sprintf_path dst log_num_count) _ (OnlyFiles-sprintf_path dst log_num_count)
        (λ p. OnlyFiles-or_error_wb (fopen_wb p) _ (OnlyFiles-fopen_wb p) (
          OnlyFiles->>= (count_files org entries []) _ (count_files-OnlyFiles org entries []) (λ m.
            OnlyFiles->>= (or_fault (count_text (sort (if flg then lmp else cmp) m))) _
              (OnlyFiles-or_fault _) (λ s. OnlyFiles-written p s (pos 0))))))
