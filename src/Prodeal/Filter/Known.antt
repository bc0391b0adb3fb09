-- ===== src/Prodeal/Filter/Known.antt =====
-- Which lines `fltLogFile` lets pass.
use finger_move.Base.{
  All, Bool, Bool-cases, List, [], append_assoc, inl, inr, keep, map, pos, refl, true, ◌∷◌, ◌≡◌,
}
use finger_move.Clib.{Bytes, atoi, lines, newline}
use finger_move.Clib.Laws.Lines.{IsText, lines-written, terminated, written}
use finger_move.Prodeal.Filter.{elem_ℤ, flt_lines, flt_log_file, ids}
use finger_move.Prodeal.Names.{afp_name_file, flt_logs_file, log_num_count}
use finger_move.Prodeal.Names.Plain.{
  afp_name_file-IsPlain, flt_logs_file-IsPlain, log_num_count-IsPlain,
}
use finger_move.World.{World, done, writable, ◌>>=◌}
use finger_move.World.Effects.{
  Fits, Holds, fclose_wb-join, fopen_rb-there, fopen_wb-writable, saved, sprintf_path-fits,
}
use finger_move.World.Files.{path, put}

-- The line begins with a number that a line of another file begins with.
abbrev pub is_known : List Bytes → Bytes → Bool
is_known afps t = elem_ℤ (atoi (terminated t)) (ids afps)

flt_lines-known :
    (afps ts : List Bytes)
    → flt_lines (ids afps) (map terminated ts) ≡ written (keep (is_known afps) ts)
unfolding flt_lines
flt_lines-known afps [] = refl
flt_lines-known afps (t ∷ ts) = elim (Bool-cases (is_known afps t)) [
  | inl e ↦ rw (e, keep, flt_lines) (rw (flt_lines-known afps ts) (append_assoc t (newline ∷ []) _))
  | inr e ↦ rw (e, keep, flt_lines) (flt_lines-known afps ts)
]

pub flt_log_file-run :
    (org dst afps : Bytes) (ts : List Bytes) (w : World)
    → All IsText ts
    → Holds org afp_name_file afps w
    → Holds org log_num_count (written ts) w
    → Fits dst flt_logs_file
    → writable (path dst flt_logs_file) w ≡ true
    → flt_log_file org dst w
      ≡ done (pos 0) (saved dst flt_logs_file (written (keep (is_known (lines afps)) ts)) w)
unfolding flt_log_file
flt_log_file-run org dst afps ts w texts names counts fits free =
    let v = record w { files = put (path dst flt_logs_file) [] w.files } in
    let known = written (keep (is_known (lines afps)) ts) in
    rw (sprintf_path-fits org afp_name_file w names.fits, ◌>>=◌)
      (rw (fopen_rb-there org afp_name_file afps w afp_name_file-IsPlain.1 names, ◌>>=◌)
        (rw (sprintf_path-fits org log_num_count w counts.fits, ◌>>=◌)
          (rw
            (fopen_rb-there org log_num_count (written ts) w log_num_count-IsPlain.1 counts, ◌>>=◌)
            (rw (sprintf_path-fits dst flt_logs_file w fits, ◌>>=◌)
              (rw (fopen_wb-writable dst flt_logs_file w flt_logs_file-IsPlain.1 free, ◌>>=◌)
                (rw (lines-written ts texts, flt_lines-known (lines afps) ts)
                  (rw
                    (fclose_wb-join dst flt_logs_file known v flt_logs_file-IsPlain.1, ◌>>=◌))))))))
