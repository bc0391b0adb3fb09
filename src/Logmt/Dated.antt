-- ===== src/Logmt/Dated.antt =====
-- The names that the log gets when it is full.
use finger_move.Base.{ap, arith, sym, ℕ, ◌%◌, ◌++◌, ◌+◌, ◌∙◌, ◌≡◌, ◌≢◌}
use finger_move.Clib.{Bytes, char_at, codes, has_byte, log_name}
use finger_move.Clib.Laws.Dates.{log_name-cons, log_name-slash}
use finger_move.Logmt.{log_file}
use finger_move.World.Files.{FilePath, locate, locate-join, path}

abbrev pub run_dir : Bytes
run_dir = codes "../runlog"

-- The name that the log gets at a time.
abbrev pub dated : ℕ → Bytes
dated time = codes "../runlog/" ++ log_name time

pub locate-dated : (t : ℕ) → locate (dated t) ≡ path run_dir (log_name t)
locate-dated t = locate-join run_dir (log_name t) (log_name-slash t)

-- It is never the name of the log itself.
pub dated-log_file : (t : ℕ) → locate (dated t) ≢ locate log_file
unfolding locate has_byte
dated-log_file t e =
    let (d, s, named) = log_name-cons t in
    let first : char_at (log_name t) 0 ≡ 115 =
      ap (λ (p : FilePath). char_at p.name 0) (sym (locate-dated t) ∙ e) in
    let digit : char_at (log_name t) 0 ≡ b'0' + d % 10 = ap (λ (b : Bytes). char_at b 0) named in
    omega (arith, digit, first)
