-- ===== src/Logmt.antt =====
-- src/logmt.cc: the logger. `logstring` stands in World; the queue is that of Tpqueue.
pub mod Append
pub mod Archive
pub mod Dated
pub mod Order
pub mod Pipe
pub mod Rotate
pub mod Shutdown
use mathlib.Core.Option
use finger_move.Base.{
  Bool, List, Option, [], false, if◌then◌else◌, leb, pos, true, ℕ, ◌++◌, ◌+◌, ◌==◌, ◌∷◌,
}
use finger_move.Clib.{Bytes, c_str, codes, log_name}
use finger_move.Tpqueue.{PQueue, resetqueue, setflag, setsize}
use finger_move.Tpqueue.System.{System, release_free}
use finger_move.World.{Cmd, done, fault, fopen_wb, pure, rename, ◌>>=◌, ◌>>◌}
use finger_move.World.Files.{locate, lookup, put}

abbrev pub log_file : Bytes
log_file = codes "../runlog/server.log"

abbrev pub max_log_count : ℕ
max_log_count = 50000

-- `logmt::logstart`, without the thread that it creates.
unfoldable pub logstart {ℓ} : {T : Type ℓ} → PQueue T → PQueue T
unfolding setsize setflag
logstart q = setflag false (setsize (pos 100) q)

-- A call that works on the queue alone.
abbrev on_queue {ℓ} : {T : Type ℓ} → (PQueue T → PQueue T) → System T → System T
on_queue f s = record s { queue = f s.queue }

-- `logmt::logover`, as it runs when no other thread gets the mutex between its three calls.
unfoldable pub logover {ℓ} : {T : Type ℓ} → System T → System T
unfolding resetqueue setflag release_free
logover s = on_queue resetqueue (release_free (on_queue (setflag true) s))

-- A line that the thread takes from the queue, and the local time at that moment.
pub record Entry : Type 0 where
  pub text : Bytes
  pub time : ℕ

-- `fputs` and `fflush` at the end of the open log.
unfoldable pub append_log : Bytes → Cmd (Unit {0})
unfolding lookup put locate
append_log s w =
    let old = Option.get_or (lookup (locate log_file) w.files) [] in
    done tt (record w { files = put (locate log_file) (old ++ s) w.files })

-- `if (!count)`: the old log gets a dated name, and a new one is opened.
unfoldable pub rotate : ℕ → Cmd Bool
rotate time = do rename log_file (codes "../runlog/" ++ log_name time); fopen_wb log_file

-- One round of `mtlogthr` with a node: `count`, and the count after. A log that does not open is
-- written to all the same.
unfoldable pub log_round : ℕ → Entry → Cmd ℕ
log_round count e = do
  opened ← if count == 0 then rotate e.time else pure true
  if opened
      then (do
        append_log (c_str e.text)
        pure (if leb max_log_count (count + 1) then 0 else count + 1))
      else λ w. fault

-- `mtlogthr`, over the lines that it gets before `get` returns null.
unfoldable pub mtlogthr : ℕ → List Entry → Cmd ℕ
mtlogthr count [] w = done count w
mtlogthr count (e ∷ es) w = elim (log_round count e w) [
  | fault ↦ fault
  | done n w' ↦ mtlogthr n es w'
]
