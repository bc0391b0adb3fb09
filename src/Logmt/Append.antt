-- ===== src/Logmt/Append.antt =====
-- What the logger thread writes between two rotations.
use finger_move.Base.{List, [], some, ◌++◌, ◌∷◌, ◌≡◌}
use finger_move.Clib.{Bytes, c_str}
use finger_move.Logmt.{Entry, append_log, log_file}
use finger_move.World.{World, done}
use finger_move.World.Files.{locate, lookup, put}

-- The lines, one after the other, each up to its NUL.
abbrev pub texts : List Entry → Bytes
texts [] = []
texts (e ∷ es) = c_str e.text ++ texts es

pub append_log-there :
    (s old : Bytes) (w : World)
    → lookup (locate log_file) w.files ≡ some old
    → append_log s w ≡ done tt (record w { files = put (locate log_file) (old ++ s) w.files })
unfolding append_log
append_log-there s old w h = rw h
