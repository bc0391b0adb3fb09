-- ===== src/Prodeal/Filter.antt =====
-- `CProDeal::fltLogFile`: the counts of songs that have a finger file here.
pub mod Known
use finger_move.Base.{Bool, List, [], eq_ℤ, false, if◌then◌else◌, map, not, pos, ℤ, ◌++◌, ◌||◌, ◌∷◌}
use finger_move.Clib.{Bytes, atoi, lines}
use finger_move.Prodeal.Names.{afp_name_file, flt_logs_file, log_num_count, or_error, or_error_wb}
use finger_move.World.{Cmd, fclose_wb, fopen_rb, fopen_wb, pure, sprintf_path, ◌>>=◌, ◌>>◌}

-- `std::set<int>::count`
unfoldable pub elem_ℤ : ℤ → List ℤ → Bool
elem_ℤ x [] = false
elem_ℤ x (y ∷ ys) = eq_ℤ x y || elem_ℤ x ys

-- The set that a loop fills with `atoi(line)`.
abbrev pub ids : List Bytes → List ℤ
ids ls = map atoi ls

-- The second loop.
unfoldable pub flt_lines : List ℤ → List Bytes → Bytes
unfolding elem_ℤ atoi
flt_lines known [] = []
flt_lines known (l ∷ ls) =
    let rest = flt_lines known ls in if not (elem_ℤ (atoi l) known) then rest else l ++ rest

unfoldable pub flt_log_file : Bytes → Bytes → Cmd ℤ
flt_log_file org dst = do
  afp ← sprintf_path org afp_name_file
  or_error (fopen_rb afp) λ afps. do
    log ← sprintf_path org log_num_count
    or_error (fopen_rb log) λ logs. do
      fname ← sprintf_path dst flt_logs_file
      or_error_wb (fopen_wb fname)
          (do fclose_wb fname (flt_lines (ids (lines afps)) (lines logs)); pure (pos 0))
