-- ===== src/Prodeal/Names.antt =====
-- The names of the working files, and `CProDeal::getAfpName`.
pub mod Listed
pub mod Plain
use finger_move.Base.{
  Bool, List, Option, [], if◌then◌else◌, minus_one, none, pos, some, ℤ, ◌++◌, ◌||◌, ◌∷◌,
}
use finger_move.Clib.{Bytes, codes, newline, same}
use finger_move.World.{Cmd, fclose_wb, fopen_wb, list_dir, pure, sprintf_path, ◌>>=◌, ◌>>◌}
use finger_move.World.Files.{dot, dot_dot}

abbrev pub afp_name_file : Bytes
afp_name_file = codes "afpNameFile.tmp"

abbrev pub log_num_count : Bytes
log_num_count = codes "logNumCount.tmp"

abbrev pub flt_logs_file : Bytes
flt_logs_file = codes "fltLogsFile.tmp"

abbrev pub top_afps_file : Bytes
top_afps_file = codes "topAfpsFile.tmp"

abbrev pub bot_afps_file : Bytes
bot_afps_file = codes "botAfpsFile.tmp"

-- `goto Error` if the step finds nothing.
abbrev pub or_error {ℓ} : {A : Type ℓ} → Cmd (Option A) → (A → Cmd ℤ) → Cmd ℤ
or_error m k = m >>= λ r. elim r [ none ↦ pure minus_one | some a ↦ k a ]

-- `goto Error` if the stream cannot be opened.
abbrev pub or_error_wb : Cmd Bool → Cmd ℤ → Cmd ℤ
or_error_wb m k = m >>= λ r. if r then k else pure minus_one

-- The test that leaves out "." and "..".
abbrev pub is_dot_entry : Bytes → Bool
is_dot_entry n = same dot n || same dot_dot n

-- The text that the loop of `getAfpName` writes. A name has at most 255 bytes, and fits `buff`.
unfoldable pub name_lines : List Bytes → Bytes
name_lines [] = []
name_lines (n ∷ ns) =
    let rest = name_lines ns in if is_dot_entry n then rest else n ++ newline ∷ rest

unfoldable pub get_afp_name : Bytes → Bytes → Cmd ℤ
unfolding name_lines list_dir sprintf_path fopen_wb fclose_wb
get_afp_name org dst = or_error (list_dir org) λ entries. do
  fname ← sprintf_path dst afp_name_file
  or_error_wb (fopen_wb fname) (do fclose_wb fname (name_lines entries); pure (pos 0))
