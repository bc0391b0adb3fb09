-- ===== src/World/Refusals.antt =====
-- What the commands of World do when they fail.
use finger_move.Base.{false, none, ◌++◌, ◌∷◌, ◌≡◌}
use finger_move.Clib.{Bytes, elem, has_byte}
use finger_move.World.{World, done, fopen_wb, list_dir, writable}
use finger_move.World.Files.{locate-join, path, slash}

pub list_dir-not : (d : Bytes) (w : World) → elem d w.dirs ≡ false → list_dir d w ≡ done none w
unfolding list_dir
list_dir-not d w h = rw h

pub fopen_wb-not :
    (d n : Bytes) (w : World)
    → has_byte slash n ≡ false
    → writable (path d n) w ≡ false
    → fopen_wb (d ++ slash ∷ n) w ≡ done false w
unfolding fopen_wb
fopen_wb-not d n w hs h = rw (locate-join d n hs) (rw h)
