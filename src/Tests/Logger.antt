-- ===== src/Tests/Logger.antt =====
-- The thread of src/logmt.cc.
use finger_move.Autoconf.Config.{defaults}
use finger_move.Base.{
  All, Bool, List, [], ap, arith, false, length, refl, some, true, ℕ, ◌%◌, ◌++◌, ◌+◌, ◌∷◌, ◌≡◌, ◌≢◌,
}
use finger_move.Clib.{Bytes-discrete, char_at, codes, elem, has_byte, log_name, newline}
use finger_move.Logmt.{Entry, log_file, max_log_count, mtlogthr}
use finger_move.Logmt.Append.{texts}
use finger_move.Logmt.Archive.{CanDate, DistinctTimes, archive, contents, mtlogthr-archive, turns}
use finger_move.Logmt.Dated.{dated}
use finger_move.Logmt.Order.{PipeReach-IsOrdered}
use finger_move.Logmt.Pipe.{
  LogNode, Pipe, PipeReach, fill, gives, log_put, pending, pipe_later, pipe_start, takes,
}
use finger_move.Tpqueue.{Exit, Node, PQueue, get, init, link, put, unlink}
use finger_move.Tpqueue.Fifo.{IsQueue}
use finger_move.World.{World, done, writable}
use finger_move.World.Files.{FilePath, FilePath-discrete, locate, lookup, path}

abbrev running : World
running = record {
  dirs = codes "../runlog" ∷ [];
  files = (path (codes "../runlog") (codes "server.log"), codes "old") ∷ [];
  locked = λ p. false;
  logged = [];
  sent = [];
  config = defaults;
  sublist = [];
}

running-log : lookup (locate log_file) running.files ≡ some (codes "old")
unfolding lookup locate has_byte Bytes-discrete FilePath-discrete
running-log = refl

running-writable : writable (locate log_file) running ≡ true
unfolding locate has_byte elem Bytes-discrete
running-writable = refl

dated-writable : writable (locate (dated 86400)) running ≡ true
unfolding locate has_byte elem Bytes-discrete log_name
dated-writable = refl

abbrev late_entry : Entry
late_entry = record { text = codes "c" ++ newline ∷ []; time = 86400 }

-- The second line finds the log full.
abbrev full_entries : List Entry
full_entries = record { text = codes "a" ++ newline ∷ []; time = 5 } ∷ late_entry ∷ []

full-turns : turns 49999 full_entries ≡ 86400 ∷ []
unfolding turns
full-turns = refl

abbrev elsewhere : FilePath
elsewhere = path (codes "afp") (codes "1.afp")

elsewhere-Apart :
    (elsewhere ≢ locate log_file)
    × All (λ t. locate (dated t) ≢ elsewhere) (turns 49999 full_entries)
unfolding turns locate has_byte log_name
elsewhere-Apart = (
  (λ e.
      let first : char_at elsewhere.dir 0 ≡ char_at (locate log_file).dir 0 =
        ap (λ (p : FilePath). char_at p.dir 0) e in
      omega (arith, first)),
  (
    (λ e.
        let first : char_at (locate (dated 86400)).dir 0 ≡ char_at elsewhere.dir 0 =
          ap (λ (p : FilePath). char_at p.dir 0) e in
        omega (arith, first)),
    tt,
  ),
)

full-CanDate : CanDate running (turns 49999 full_entries) × DistinctTimes (turns 49999 full_entries)
unfolding turns
full-CanDate = ((dated-writable, tt), (tt, tt))

mtlogthr-archive_example :
    (w' : World) × (mtlogthr 49999 full_entries running
      ≡ done ((49999 + length full_entries) % max_log_count) w')
    × (archive (turns 49999 full_entries) w'.files ++ contents (locate log_file) w'.files
        ≡ codes "old" ++ texts full_entries)
    × (lookup elsewhere w'.files ≡ lookup elsewhere running.files)
mtlogthr-archive_example =
    mtlogthr-archive 49999 full_entries (codes "old") elsewhere running (omega arith) running-log
      running-writable full-CanDate.0 full-CanDate.1 elsewhere-Apart.0 elsewhere-Apart.1

abbrev blank : ℕ → Node LogNode
blank a = record { content = record { m_buf = [] }; next = 0 }

-- A line is given, and the thread takes it.
abbrev one_given : Exit × Bool × PQueue LogNode
one_given = put 7 (fill 7 (codes "hi" ++ newline ∷ []) (init blank))

abbrev given_pipe : Pipe
given_pipe = record {
  queue = one_given.2;
  live = 7 ∷ [];
  given = (codes "hi" ++ newline ∷ []) ∷ [];
  taken = [];
}

abbrev taken_pipe : Pipe
taken_pipe = record {
  queue = (get one_given.2).2;
  live = [];
  given = (codes "hi" ++ newline ∷ []) ∷ [];
  taken = (codes "hi" ++ newline ∷ []) ∷ [];
}

given-PipeReach : PipeReach blank given_pipe
unfolding log_put put link init
given-PipeReach = pipe_later pipe_start (gives 7 (codes "hi") false _ (omega arith) tt refl)

taken-PipeReach : PipeReach blank taken_pipe
unfolding put link init get unlink
taken-PipeReach = pipe_later given-PipeReach (takes 7 false _ (omega arith) refl)

PipeReach-IsOrdered_example :
    IsQueue taken_pipe.queue taken_pipe.live
    × (taken_pipe.given ≡ taken_pipe.taken ++ pending taken_pipe.queue.mem taken_pipe.live)
PipeReach-IsOrdered_example = PipeReach-IsOrdered taken-PipeReach
