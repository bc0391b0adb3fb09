-- ===== src/Server/Broadcast.antt =====
-- McServer::Afpmove of src/server.cc: a file that the main cache is sent, and its sub caches.
use finger_move.Autoconf.Inspect.{runs}
use finger_move.Base.{
  List, [], ap, append_assoc, arith, false, if◌then◌else◌, map, refl, some, true, ◌++◌, ◌∙◌, ◌∷◌,
  ◌≡◌,
}
use finger_move.Clib.{Bytes, c_str, codes, has_byte, newline}
use finger_move.Clib.Laws.Lines.{c_str_self}
use finger_move.Client.{app_add, failure, host_of, log_text, success}
use finger_move.Grpcwrap.{sync_clt_addafps}
use finger_move.Rpc.{Call, FingerValue, Peers, addafps, cancelled, status_ok}
use finger_move.Server.{mc_afpmove, mc_loop, mc_round, peer_host, value_bytes}
use finger_move.Server.Store.{open-then, stored}
use finger_move.World.{World, call, done, writable, ◌>>=◌}
use finger_move.World.Effects.{Fits, IsPlain, LogFits, fclose_wb-join, logstring-fits}
use finger_move.World.Files.{FilePath, lookup, lookup-put, path, put, same_path}

-- What the main cache is when it stores a file: its directory can be written to, and no line that
-- it logs is too long.
pub record CanStore (url n : Bytes) (w : World) : Type 0 where
  pub plain : IsPlain n
  pub fits : Fits w.config.dst_dir n
  pub free : writable (path w.config.dst_dir n) w ≡ true
  pub told_line :
      LogFits (log_text n (codes "++>") (c_str (host_of w.config.clt_sync_addr)) success)
  pub stored_line : LogFits (log_text n (codes "<==") (peer_host url) success)

-- The call that tells the sub cache at an address to add a file.
abbrev pub add_call : FingerValue → Bytes → Call
add_call request addr = record { addr = addr; request = addafps request }

-- The copy of a request for the sub caches.
abbrev pub copy : FingerValue → Bytes → FingerValue
copy req s = record { name = req.name; val = s; len = req.len }

-- Peers that accept every call.
abbrev pub Accepting : Peers → Type 0
Accepting peers = (past : List Call) (c : Call) → (peers past c).status ≡ status_ok

module _ (peers : Peers) (accept : Accepting peers) (url : Bytes) where
  module _ (req : FingerValue) (s : Bytes) (reads : value_bytes req.val req.len ≡ some s) where
    -- The world when a sub cache has accepted, and at the end of the round.
    abbrev after_call : Bytes → World → World
    after_call addr w = record w {
      sent = w.sent ++ add_call (copy req s) addr ∷ [];
      logged =
          w.logged
          ++ (log_text req.name (codes "++>") (c_str (host_of w.config.clt_sync_addr)) success
              ++ newline ∷ [])
            ∷ [];
    }

    abbrev after_round : Bytes → World → World
    after_round addr w =
        let p = path w.config.dst_dir req.name in
        let v = after_call addr w in
        record v {
          files = put p s (put p [] w.files);
          logged =
              v.logged
              ++ (log_text req.name (codes "<==") (peer_host url) success ++ newline ∷ []) ∷ [];
        }

    mc_round-run :
        (addr : Bytes) (w : World)
        → CanStore url req.name w
        → mc_round peers url req (copy req s) addr w ≡ done status_ok (after_round addr w)
    unfolding mc_round app_add sync_clt_addafps call
    mc_round-run addr w can = rw (c_str_self req.name can.plain.0) (
        rw (accept w.sent (add_call (copy req s) addr)) (
          rw (logstring-fits _ _ can.told_line, ◌>>=◌)
            (open-then req.name s (after_call addr w) can.plain w.config.dst_dir _ can.fits can.free
              ∙ rw (reads, ◌>>=◌)
                  (rw (fclose_wb-join w.config.dst_dir req.name s _ can.plain.1, ◌>>=◌)
                    (rw (logstring-fits _ _ can.stored_line, ◌>>=◌))))))

    lookup-after_round :
        (addr : Bytes) (q : FilePath) (w : World)
        → lookup q (after_round addr w).files
          ≡ (if same_path (path w.config.dst_dir req.name) q then some s else lookup q w.files)
    lookup-after_round addr q w = ground (
      arith,
      lookup-put (path w.config.dst_dir req.name) q s
          (put (path w.config.dst_dir req.name) [] w.files),
      lookup-put (path w.config.dst_dir req.name) q [] w.files,
    )

    mc_loop-run :
        (addr : Bytes) (addrs : List Bytes) (q : FilePath) (w : World)
        → CanStore url req.name w
        → (w' : World) × (mc_loop peers url req (copy req s) (addr ∷ addrs) w ≡ done status_ok w')
          × (w'.sent ≡ w.sent ++ map (add_call (copy req s)) (addr ∷ addrs))
          × (lookup q w'.files
              ≡ (if same_path (path w.config.dst_dir req.name) q then some s else lookup q w.files))
    unfolding mc_loop
    mc_loop-run addr [] q w can = (
      after_round addr w,
      rw (mc_round-run addr w can, mc_loop),
      refl,
      lookup-after_round addr q w,
    )
    mc_loop-run addr (b ∷ addrs) q w can =
        let can' : CanStore url req.name (after_round addr w) = record {
          plain = can.plain;
          fits = can.fits;
          free = can.free;
          told_line = can.told_line;
          stored_line = can.stored_line;
        } in
        let (w', runs, sent, stored) = mc_loop-run b addrs q (after_round addr w) can' in
        (
          w',
          rw (mc_round-run addr w can, mc_loop) runs,
          sent
              ∙ append_assoc w.sent (add_call (copy req s) addr ∷ [])
                  (map (add_call (copy req s)) (b ∷ addrs)),
          ground (arith, stored, lookup-after_round addr q w),
        )

mc_afpmove-loop :
    (peers : Peers) (url : Bytes) (req : FingerValue) (s : Bytes) (subs : List Bytes) (w : World)
    → value_bytes req.val req.len ≡ some s
    → w.sublist ≡ subs
    → mc_afpmove peers url req w ≡ mc_loop peers url req (copy req s) subs w
unfolding mc_afpmove
mc_afpmove-loop peers url req s subs w h e =
    rw (h, ◌>>=◌) (ap (λ (l : List Bytes). mc_loop peers url req (copy req s) l w) e)

-- If all its sub caches accept, a main cache that has one and can store the file answers OK to a
-- request whose length can be read: it has told every sub cache to add the file, in the order of
-- its list and with one call each, and holds the bytes that it was sent under the name in DST_DIR,
-- and every other path holds what it held.
pub mc_afpmove-tells_subs :
    (peers : Peers) (url : Bytes) (req : FingerValue) (s addr : Bytes) (addrs : List Bytes)
    (q : FilePath) (w : World)
    → Accepting peers
    → value_bytes req.val req.len ≡ some s
    → w.sublist ≡ addr ∷ addrs
    → CanStore url req.name w
    → (w' : World) × (mc_afpmove peers url req w ≡ done status_ok w')
      × (w'.sent ≡ w.sent ++ map (add_call (copy req s)) (addr ∷ addrs))
      × (lookup q w'.files
          ≡ (if same_path (path w.config.dst_dir req.name) q then some s else lookup q w.files))
mc_afpmove-tells_subs peers url req s addr addrs q w accept h subs can =
    let (w', runs, sent, stored) = mc_loop-run peers accept url req s h addr addrs q w can in
    (w', mc_afpmove-loop peers url req s _ w h subs ∙ runs, sent, stored)

abbrev after_refusal : FingerValue → Bytes → Bytes → World → World
after_refusal req s addr w = record w {
  sent = w.sent ++ add_call (copy req s) addr ∷ [];
  logged =
      w.logged
      ++ (log_text req.name (codes "++>") (c_str (host_of w.config.clt_sync_addr)) failure
          ++ newline ∷ [])
        ∷ [];
}

mc_round-refused :
    (peers : Peers) (url : Bytes) (req : FingerValue) (s addr : Bytes) (w : World)
    → has_byte 0 req.name ≡ false
    → LogFits (log_text req.name (codes "++>") (c_str (host_of w.config.clt_sync_addr)) failure)
    → (peers w.sent (add_call (copy req s) addr)).status ≡ cancelled
    → mc_round peers url req (copy req s) addr w ≡ done cancelled (after_refusal req s addr w)
unfolding mc_round app_add sync_clt_addafps call
mc_round-refused peers url req s addr w plain fits refuses =
    rw (c_str_self req.name plain) (rw refuses (rw (logstring-fits _ _ fits, ◌>>=◌)))

-- A main cache whose first sub cache refuses answers CANCELLED to a request whose length can be
-- read: it makes no other call, and all files stay as they were. The line that it logs fits the
-- buffer.
pub mc_afpmove-refused :
    (peers : Peers) (url : Bytes) (req : FingerValue) (s addr : Bytes) (addrs : List Bytes)
    (w : World)
    → value_bytes req.val req.len ≡ some s
    → w.sublist ≡ addr ∷ addrs
    → has_byte 0 req.name ≡ false
    → LogFits (log_text req.name (codes "++>") (c_str (host_of w.config.clt_sync_addr)) failure)
    → (peers w.sent (add_call (copy req s) addr)).status ≡ cancelled
    → (w' : World) × (mc_afpmove peers url req w ≡ done cancelled w')
      × (w'.sent ≡ w.sent ++ add_call (copy req s) addr ∷ [])
      × (w'.files ≡ w.files)
unfolding mc_loop
mc_afpmove-refused peers url req s addr addrs w h subs plain fits refuses = (
  after_refusal req s addr w,
  mc_afpmove-loop peers url req s _ w h subs
      ∙ rw (mc_round-refused peers url req s addr w plain fits refuses, mc_loop),
  refl,
  refl,
)
