-- ===== src/Server.antt =====
-- src/server.cc: the handlers of the remote procedure calls. `cxt->peer()` is an argument.
pub mod Answer
pub mod Broadcast
pub mod Cache
pub mod Delete
pub mod Dispatch
pub mod Limits
pub mod Mirror
pub mod Offer
pub mod Served
pub mod Started
pub mod Store
use finger_move.Base.{
  Bool, List, Option, [], drop, false, if◌then◌else◌, leb, leb_ℤ, length, negsuc, none, not, pos,
  some, take, true, ℤ, ◌++◌, ◌+◌, ◌-◌, ◌∷◌,
}
use finger_move.Clib.{Bytes, c_str, codes, find_from, substr}
use finger_move.Client.{
  app_add, colon, failure, host_of, log_text, new_mc_sync, success, verdict_of,
}
use finger_move.Prodeal.Count.{cnt_srh_nums}
use finger_move.Prodeal.Filter.{flt_log_file}
use finger_move.Prodeal.Logs.{mov_log_file}
use finger_move.Prodeal.Move.{mov_afp_file}
use finger_move.Prodeal.Names.{get_afp_name}
use finger_move.Prodeal.Select.{top_afp_file}
use finger_move.Prodeal.Steps.{CProDeal}
use finger_move.Rpc.{
  AfpDelName, ConfigValue, FingerValue, Peers, Status, cancelled, is_ok, status_ok,
}
use finger_move.World.{
  Cmd, done, fault, fclose_wb, fopen_wb, get_config, get_sublist, logstring, or_fault, pure,
  remove_path, sprintf_path, ◌>>=◌, ◌>>◌,
}

-- `fwrite(data, 1, len, fdp)` of a value: its bytes and the NUL behind them can be read, and no
-- more. A negative length is a huge one.
unfoldable pub value_bytes : Bytes → ℤ → Option Bytes
value_bytes val (pos n) = if leb n (length val + 1) then some (take n (val ++ 0 ∷ [])) else none
value_bytes val (negsuc n) = none

-- `url.substr(pos1 + 1, pos2 - pos1 - 1)`: what stands between the first two colons. A colon that
-- is not there counts as position -1, and a negative length reaches to the end.
unfoldable pub peer_host : Bytes → Bytes
unfolding find_from
peer_host url = elim (find_from colon url 0) [
  | none ↦ url
  | some pos1 ↦ elim (find_from colon url (pos1 + 1)) [
    | none ↦ drop (pos1 + 1) url
    | some pos2 ↦ substr url (pos1 + 1) (pos2 - pos1 - 1)
  ]
]

-- GMServer::Afpmove
unfoldable pub gm_afpmove : FingerValue → Cmd Status
unfolding value_bytes sprintf_path fopen_wb fclose_wb logstring c_str
gm_afpmove req = do
  c ← get_config
  fname ← sprintf_path c.dst_dir (c_str req.name)
  fdp ← fopen_wb fname
  if fdp
      then (do s ← or_fault (value_bytes req.val req.len); fclose_wb fname s; pure status_ok)
      else (do logstring (codes "open " ++ fname ++ codes " error!"); pure cancelled)

-- ScServer::Addafps
unfoldable pub sc_addafps : FingerValue → Cmd Status
unfolding value_bytes sprintf_path fopen_wb fclose_wb c_str
sc_addafps req = do
  c ← get_config
  fname ← sprintf_path c.dst_dir (c_str req.name)
  fdp ← fopen_wb fname
  if fdp
      then (do s ← or_fault (value_bytes req.val req.len); fclose_wb fname s; pure status_ok)
      else pure cancelled

-- ScServer::Delafps. With an empty name the path is that of AFP_DIR.
unfoldable pub sc_delafps : AfpDelName → Cmd Status
unfolding sprintf_path remove_path c_str
sc_delafps req = do
  c ← get_config
  name ← sprintf_path c.afp_dir (c_str req.name)
  failed ← remove_path name
  pure (if failed then cancelled else status_ok)

-- What Preconf answers, and whether it got as far as starting the thread of GrMoveClient.
pub record Preconf : Type 0 where
  pub status : Status
  pub len : ℤ
  pub starts_client : Bool

-- GCServer::Preconf, over the steps of CProDeal. Only the result of topAfpFile is looked at.
unfoldable pub gc_preconf : CProDeal → ConfigValue → Cmd Preconf
gc_preconf steps req = do
  c ← get_config
  steps.get_afp_name c.afp_dir c.wrk_dir
  steps.mov_log_file c.dat_dir c.log_dir
  steps.cnt_srh_nums c.log_dir c.wrk_dir false
  steps.flt_log_file c.wrk_dir c.wrk_dir
  count ← steps.top_afp_file c.wrk_dir c.wrk_dir req.len
  if leb_ℤ count (pos 0)
      then (do
        logstring (codes "preconf error!")
        pure (record { status = cancelled; len = pos 0; starts_client = false }))
      else (do
        steps.mov_afp_file c.afp_dir c.org_dir c.wrk_dir
        pure (record { status = status_ok; len = count; starts_client = true }))

module _ (peers : Peers) where
  -- One round of the loop of McServer::Afpmove: a sub cache is told to add the file, and the file
  -- is written here. The log names the host of CLT_SYNC_ADDR, not the sub cache.
  unfoldable pub mc_round : Bytes → FingerValue → FingerValue → Bytes → Cmd Status
  mc_round url req request addr = do
    c ← get_config
    s ← app_add peers (new_mc_sync (record { addr = addr })) request
    logstring (
        log_text (c_str req.name) (codes "++>") (c_str (host_of c.clt_sync_addr))
          (verdict_of s success failure))
    if not (is_ok s) then pure cancelled else do
      fname ← sprintf_path c.dst_dir (c_str req.name)
      fdp ← fopen_wb fname
      if fdp
          then (do
            text ← or_fault (value_bytes req.val req.len)
            fclose_wb fname text
            logstring (log_text (c_str req.name) (codes "<==") (peer_host url) success)
            pure status_ok)
          else (do
            logstring (log_text (c_str req.name) (codes "<==") (peer_host url) failure)
            pure cancelled)

  -- The loop: the first round that fails ends it.
  unfoldable pub mc_loop : Bytes → FingerValue → FingerValue → List Bytes → Cmd Status
  mc_loop url req request [] w = done status_ok w
  mc_loop url req request (addr ∷ addrs) w = elim (mc_round url req request addr w) [
    | fault ↦ fault
    | done cancelled w' ↦ done cancelled w'
    | done status_ok w' ↦ mc_loop url req request addrs w'
  ]

  -- McServer::Afpmove, called by the peer at `url`. The request is copied for the sub caches.
  unfoldable pub mc_afpmove : Bytes → FingerValue → Cmd Status
  unfolding value_bytes
  mc_afpmove url req = do
    val ← or_fault (value_bytes req.val req.len)
    subs ← get_sublist
    mc_loop url req (record { name = req.name; val = val; len = req.len }) subs
