-- ===== src/Logmt/Rotate.antt =====
-- The first line of a log.
use finger_move.Base.{[], arith, if◌then◌else◌, some, true, ℕ, ◌∙◌, ◌≡◌}
use finger_move.Clib.{Bytes, c_str}
use finger_move.Logmt.{Entry, log_file, log_round, rotate}
use finger_move.Logmt.Append.{append_log-there}
use finger_move.Logmt.Dated.{dated}
use finger_move.World.{World, done, fopen_wb, writable, ◌>>=◌}
use finger_move.World.Effects.{rename-found, writable-loose}
use finger_move.World.Files.{
  FilePath, FileTable, erase, locate, lookup, lookup-erase, lookup-put, put, same_path,
}

fopen_wb-found :
    (p : Bytes) (w : World)
    → writable (locate p) w ≡ true
    → fopen_wb p w ≡ done true (record w { files = put (locate p) [] w.files })
unfolding fopen_wb
fopen_wb-found p w h = rw h

-- The files when the log before has its dated name, and the new log holds a line.
abbrev pub turned : ℕ → Bytes → Bytes → FileTable → FileTable
turned time old text fs =
    let p = locate log_file in put p text (put p [] (put (locate (dated time)) old (erase p fs)))

pub lookup-turned :
    (time : ℕ) (old text : Bytes) (q : FilePath) (fs : FileTable)
    → lookup q (turned time old text fs) ≡ (
        if same_path (locate log_file) q
        then some text
        else if same_path (locate (dated time)) q
        then some old
        else lookup q fs)
lookup-turned time old text q fs =
    let p = locate log_file in
    let fs' = put (locate (dated time)) old (erase p fs) in
    ground (
      arith,
      lookup-put p q text (put p [] fs'),
      lookup-put p q [] fs',
      lookup-put (locate (dated time)) q old (erase p fs),
      lookup-erase p q fs,
    )

pub log_round-turns :
    (e : Entry) (old : Bytes) (w : World)
    → lookup (locate log_file) w.files ≡ some old
    → writable (locate log_file) w ≡ true
    → writable (locate (dated e.time)) w ≡ true
    → log_round 0 e w ≡ done 1 (record w { files = turned e.time old (c_str e.text) w.files })
unfolding log_round rotate
log_round-turns e old w there free free' =
    let p = locate log_file in
    let u = record w { files = put (locate (dated e.time)) old (erase p w.files) } in
    let v = record u { files = put p [] u.files } in
    let opened : lookup p v.files ≡ some [] = lookup-put p p [] u.files ∙ ground arith in
    rw (rename-found log_file (dated e.time) old w (writable-loose p w free) free' there, ◌>>=◌)
      (rw (fopen_wb-found log_file u free, ◌>>=◌)
        (rw (append_log-there (c_str e.text) [] v opened, ◌>>=◌)))
