-- ===== src/Prodeal/Logs/Archive.antt =====
-- `movLogFile` as a whole: the archive that it leaves.
use finger_move.Base.{
  All, All-imp, List, ap, false, if◌then◌else◌, none, pos, refl, some, sym, true, ℕ, ◌-◌, ◌∙◌, ◌∷◌,
  ◌≡◌, ◌≢◌,
}
use finger_move.Clib.{Bytes, Bytes-discrete, elem, log_name}
use finger_move.Prodeal.Logs.{expire, mov_log_file, retention, server_log, take_in}
use finger_move.Prodeal.Logs.Expire.{
  CanRemove, expire-each, expires, expires-other, expires-server_log,
}
use finger_move.Prodeal.Logs.Intake.{IsRunning, after_logs, after_logs-each, take_in-each}
use finger_move.Prodeal.Move.Chosen.{Chosen, DistinctNames}
use finger_move.Prodeal.Move.Listing.{names_of}
use finger_move.World.{World, done, for_each, ◌>>=◌}
use finger_move.World.Effects.{list_dir-there}
use finger_move.World.Files.{FilePath, FileTable, dot, dot_dot, lookup, names_in, path}

expire-dots :
    (dst stamp : Bytes) (ns : List Bytes) (w : World)
    → for_each (dot ∷ dot_dot ∷ ns) (expire dst stamp) w ≡ for_each ns (expire dst stamp) w
unfolding for_each expire Bytes-discrete
expire-dots dst stamp ns w = refl

take_in-dots :
    (org dst : Bytes) (ns : List Bytes) (w : World)
    → for_each (dot ∷ dot_dot ∷ ns) (take_in org dst) w ≡ for_each ns (take_in org dst) w
unfolding for_each take_in Bytes-discrete
take_in-dots org dst ns w = refl

-- The running logs are still there when the archive has been cleared.
IsRunning-cleared :
    (org dst stamp : Bytes) (ns : List Bytes) (fs : FileTable) (w : World) (e : Bytes × Bytes)
    → dst ≢ org
    → ((q : FilePath) → lookup q fs ≡ (if expires dst stamp ns q then none else lookup q w.files))
    → IsRunning org dst w e
    → IsRunning org dst (record w { files = fs }) e
IsRunning-cleared org dst stamp ns fs w e apart left h = record {
  entry = h.entry;
  text = h.text;
  can = record {
    plain = h.can.plain;
    fits = h.can.fits;
    holds = record {
      fits = h.can.holds.fits;
      loose = h.can.holds.loose;
      there =
          left (path org e.0)
          ∙ rw (expires-other dst stamp ns (path org e.0) apart) h.can.holds.there;
    };
    free = h.can.free;
  };
}

-- movLogFile removes from the archive those entries whose names come before the name that a log of
-- six days ago would have, and never server.log, and then takes in the running logs: each is in
-- the archive with what it held, server.log as a copy, and the others are gone from where they
-- were. Every other path holds what it held. The directories are there and differ, what is in the
-- archive can be removed, no running log has a NUL, they can be read and moved and stand there
-- once each, no name has a slash, and the paths fit.
pub mov_log_file-archives :
    (now : ℕ) (org dst : Bytes) (logs : Chosen) (w : World)
    → dst ≢ org
    → elem dst w.dirs ≡ true
    → elem org w.dirs ≡ true
    → All (CanRemove dst w) (names_in dst w.files)
    → names_in org w.files ≡ names_of logs
    → DistinctNames logs
    → All (IsRunning org dst w) logs
    → let stamp = log_name (now - retention) in
      (fs : FileTable) × (mov_log_file now org dst w ≡ done (pos 0) (record w { files = fs }))
      × ((q : FilePath)
          → lookup q fs
            ≡ after_logs org dst logs q
                (if expires dst stamp (names_in dst w.files) q then none else lookup q w.files))
      × All (λ e. lookup (path dst e.0) fs ≡ some e.1) logs
      × (expires dst stamp (names_in dst w.files) (path dst server_log) ≡ false)
unfolding mov_log_file
mov_log_file-archives now org dst logs w apart dst_dir org_dir can found distinct running =
    let stamp = log_name (now - retention) in
    let ns = names_in dst w.files in
    let (fs, cleared, left, others) = expire-each dst stamp ns w can in
    let v = record w { files = fs } in
    let (gs, took, left') =
      take_in-each org dst logs v distinct
        (All-imp (λ e h. IsRunning-cleared org dst stamp ns fs w e apart left h) logs running) in
    (
      gs,
      rw (list_dir-there dst ns w dst_dir refl, ◌>>=◌)
          (rw (expire-dots dst stamp ns w ∙ cleared, ◌>>=◌)
            (rw
              (
                list_dir-there org (names_of logs) v org_dir
                    (others org (λ e. apart (sym e)) ∙ found),
                ◌>>=◌,
              )
              (rw (take_in-dots org dst (names_of logs) v ∙ took, ◌>>=◌)))),
      λ q. left' q ∙ ap (after_logs org dst logs q) (left q),
      All-imp (λ e h. left' (path dst e.0) ∙ h _) logs (after_logs-each org dst logs distinct),
      expires-server_log dst (now - retention) ns,
    )
