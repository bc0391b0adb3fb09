-- ===== src/Prodeal/Logs.antt =====
-- `CProDeal::movLogFile`: logs of the archive that are out of date go, and new ones come in.
pub mod Expire
pub mod Intake
pub mod Archive
use Prim.Native.Nat.{Ordering}
use mathlib.Core.List.{flatten}
use finger_move.Base.{Bool, false, if◌then◌else◌, none, pos, some, true, ℕ, ℤ, ◌*◌, ◌-◌}
use finger_move.Clib.{Bytes, codes, lines, log_name, same, strcmp}
use finger_move.Prodeal.Names.{is_dot_entry, or_error}
use finger_move.World.{
  Cmd, fault, fclose_wb, fopen_rb, fopen_wb, for_each, list_dir, pure, remove, rename, sprintf_path,
  unit, ◌>>=◌, ◌>>◌,
}

abbrev pub server_log : Bytes
server_log = codes "server.log"

-- Logs are kept for six days.
abbrev pub retention : ℕ
retention = 3600 * 24 * 6

abbrev pub comes_before : Bytes → Bytes → Bool
comes_before a b = elim (strcmp a b) [ Ordering.lt ↦ true | _ ↦ false ]

-- One entry of the archive, `dst`.
unfoldable pub expire : Bytes → Bytes → Bytes → Cmd (Unit {0})
expire dst stamp n =
    if is_dot_entry n
    then unit
    else if comes_before n stamp
    then (do p ← sprintf_path dst n; remove p; unit)
    else unit

-- One entry of the directory of running logs: the live log is copied line by line, others move.
-- A stream that does not open to write is used all the same.
unfoldable pub take_in : Bytes → Bytes → Bytes → Cmd (Unit {0})
unfolding sprintf_path rename fopen_rb fopen_wb fclose_wb lines
take_in org dst n = if is_dot_entry n then unit else do
  p ← sprintf_path org n
  q ← sprintf_path dst n
  if same server_log n
      then (do
        forg ← fopen_rb p
        elim forg [
          | none ↦ unit
          | some s ↦ do
            fdst ← fopen_wb q
            if fdst then fclose_wb q (flatten (lines s)) else λ w. fault
        ])
      else rename p q

-- `now` is the time in seconds.
unfoldable pub mov_log_file : ℕ → Bytes → Bytes → Cmd ℤ
unfolding expire take_in list_dir for_each log_name
mov_log_file now org dst = or_error (list_dir dst) λ old. do
  for_each old (expire dst (log_name (now - retention)))
  or_error (list_dir org) λ new. do for_each new (take_in org dst); pure (pos 0)
