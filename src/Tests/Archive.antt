-- ===== src/Tests/Archive.antt =====
-- The archive that `movLogFile` keeps, and the frame of the steps of src/prodeal.cc.
use finger_move.Base.{
  All, [], ap, arith, false, if◌then◌else◌, none, pos, refl, some, true, ◌++◌, ◌-◌, ◌∷◌, ◌≡◌, ◌≢◌,
}
use finger_move.Clib.{
  Bytes, Bytes-discrete, char_at, codes, elem, has_byte, log_name, newline, strcmp,
}
use finger_move.Prodeal.Logs.{mov_log_file, retention, server_log}
use finger_move.Prodeal.Logs.Archive.{mov_log_file-archives}
use finger_move.Prodeal.Logs.Expire.{CanRemove, expires}
use finger_move.Prodeal.Logs.Intake.{IsRunning, after_logs}
use finger_move.Prodeal.Move.Chosen.{Chosen, DistinctNames}
use finger_move.Prodeal.Move.Listing.{names_of}
use finger_move.Tests.Steps.{day_archive}
use finger_move.World.{World, done}
use finger_move.World.Files.{FilePath, FilePath-discrete, FileTable, lookup, names_in, path}

abbrev running_logs : Chosen
running_logs =
    (server_log, codes "live" ++ newline ∷ [])
    ∷ (codes "2015-11-26_10-00-00.log", codes "turned" ++ newline ∷ [])
    ∷ []

abbrev logs_world : World
logs_world = record day_archive {
  dirs = codes "dat" ∷ codes "log" ∷ [];
  files =
      (path (codes "dat") server_log, codes "live" ++ newline ∷ [])
      ∷ (path (codes "log") (codes "2015-11-01_00-00-00.log"), codes "old")
      ∷ (path (codes "log") server_log, codes "li")
      ∷ (path (codes "dat") (codes "2015-11-26_10-00-00.log"), codes "turned" ++ newline ∷ [])
      ∷ [];
}

log-dat : codes "log" ≢ codes "dat"
log-dat e = let first : 108 ≡ 100 = ap (λ (s : Bytes). char_at s 0) e in omega (arith, first)

logs_world-CanRemove :
    All (CanRemove (codes "log") logs_world) (names_in (codes "log") logs_world.files)
unfolding names_in has_byte Bytes-discrete
logs_world-CanRemove = ((refl, omega arith, refl), ((refl, omega arith, refl), tt))

running_logs-found : names_in (codes "dat") logs_world.files ≡ names_of running_logs
unfolding names_in Bytes-discrete
running_logs-found = refl

running_logs-IsRunning : All (IsRunning (codes "dat") (codes "log") logs_world) running_logs
unfolding has_byte elem lookup Bytes-discrete FilePath-discrete
running_logs-IsRunning = (
  record {
    entry = refl;
    text = refl;
    can = record {
      plain = refl;
      fits = omega arith;
      holds = record { fits = omega arith; loose = refl; there = refl };
      free = refl;
    };
  },
  (
    record {
      entry = refl;
      text = refl;
      can = record {
        plain = refl;
        fits = omega arith;
        holds = record { fits = omega arith; loose = refl; there = refl };
        free = refl;
      };
    },
    tt,
  ),
)

running_logs-DistinctNames : DistinctNames running_logs
running_logs-DistinctNames = (
  ((λ e. let first : 50 ≡ 115 = ap (λ (s : Bytes). char_at s 0) e in omega (arith, first)), tt),
  (tt, tt),
)

-- 2015-11-27
old_log_goes :
    expires
      (codes "log")
      (log_name (1448611750 - retention))
      (names_in (codes "log") logs_world.files)
      (path (codes "log") (codes "2015-11-01_00-00-00.log"))
    ≡ true
unfolding names_in expires strcmp log_name Bytes-discrete FilePath-discrete
old_log_goes = refl

mov_log_file-archives_example :
    let stamp = log_name (1448611750 - retention) in
    let old = names_in (codes "log") logs_world.files in
    (fs : FileTable) × (mov_log_file 1448611750 (codes "dat") (codes "log") logs_world
      ≡ done (pos 0) (record logs_world { files = fs }))
    × ((q : FilePath)
        → lookup q fs
          ≡ after_logs
              (codes "dat")
              (codes "log")
              running_logs
              q
              (if expires (codes "log") stamp old q then none else lookup q logs_world.files))
    × All (λ e. lookup (path (codes "log") e.0) fs ≡ some e.1) running_logs
    × (expires (codes "log") stamp old (path (codes "log") server_log) ≡ false)
unfolding elem Bytes-discrete
mov_log_file-archives_example =
    mov_log_file-archives 1448611750 (codes "dat") (codes "log") running_logs logs_world log-dat
      refl refl logs_world-CanRemove running_logs-found running_logs-DistinctNames
      running_logs-IsRunning
