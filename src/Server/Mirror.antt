-- ===== src/Server/Mirror.antt =====
-- The main cache and a sub cache of src/server.cc hold the same files.
use finger_move.Base.{
  List, [], arith, length, length-append, length-take, map, negsuc, pos, some, subst, true, ℕ, ℤ,
  ◌++◌, ◌∙◌, ◌∷◌, ◌≡◌,
}
use finger_move.Clib.{Bytes}
use finger_move.Prodeal.Steps.{CProDeal}
use finger_move.Rpc.{FingerValue, Peers, Request, addafps, status_ok}
use finger_move.Server.{mc_afpmove, value_bytes}
use finger_move.Server.Broadcast.{Accepting, CanStore, copy, mc_afpmove-tells_subs}
use finger_move.Server.Dispatch.{answer, reply, sc_server}
use finger_move.Server.Store.{sc_addafps-stores, value_bytes-whole}
use finger_move.World.{World, done, writable, ◌>>=◌}
use finger_move.World.Effects.{Fits}
use finger_move.World.Files.{lookup, path}

value_bytes-length : (val s : Bytes) (n : ℕ) → value_bytes val (pos n) ≡ some s → length s ≡ n
unfolding value_bytes
value_bytes-length val s n h =
    let whole = length-append val (0 ∷ []) in
    let part = length-take n (val ++ 0 ∷ []) in ground (arith, h, whole, part)

-- What is read of a value is read again from the copy of it.
value_bytes-copy :
    (val s : Bytes) (len : ℤ) → value_bytes val len ≡ some s → value_bytes s len ≡ some s
value_bytes-copy val s (pos n) h =
    subst (λ (k : ℕ). value_bytes s (pos k) ≡ some s) (value_bytes-length val s n h)
      (value_bytes-whole s)
value_bytes-copy val s (negsuc n) h = absurd (unfold value_bytes in cc h)

-- If all its sub caches accept, a main cache that has one and can store the file stores it, and
-- the request that it sends to every sub cache is such that a sub cache which gets it stores the
-- same bytes under the same name, each in its own DST_DIR; both answer OK. The length in the
-- request can be read, and the sub cache can write the file.
pub mc_afpmove-answer :
    (peers : Peers) (steps : CProDeal) (url from : Bytes) (req : FingerValue) (s addr : Bytes)
    (addrs : List Bytes) (w u : World)
    → Accepting peers
    → value_bytes req.val req.len ≡ some s
    → w.sublist ≡ addr ∷ addrs
    → CanStore url req.name w
    → Fits u.config.dst_dir req.name
    → writable (path u.config.dst_dir req.name) u ≡ true
    → (w' : World) × (u' : World) × (r : Request) × (mc_afpmove peers url req w ≡ done status_ok w')
      × (w'.sent ≡ w.sent ++ map (λ a. record { addr = a; request = r }) (addr ∷ addrs))
      × (answer peers steps from sc_server r u ≡ done (reply status_ok) u')
      × (lookup (path w.config.dst_dir req.name) w'.files ≡ some s)
      × (lookup (path u.config.dst_dir req.name) u'.files ≡ some s)
unfolding answer
mc_afpmove-answer peers steps url from req s addr addrs w u accept reads subs can fits free =
    let p = path w.config.dst_dir req.name in
    let p' = path u.config.dst_dir req.name in
    let (w', ran, sent, held) =
      mc_afpmove-tells_subs peers url req s addr addrs p w accept reads subs can in
    let (u', ran', held') =
      sc_addafps-stores req.name s u can.plain s req.len (value_bytes-copy req.val s req.len reads)
        p' fits free in
    (
      w',
      u',
      addafps (copy req s),
      ran,
      sent,
      rw (ran', ◌>>=◌),
      held ∙ ground arith,
      held' ∙ ground arith,
    )
