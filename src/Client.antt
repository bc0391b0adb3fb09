-- ===== src/Client.antt =====
-- src/client.cc: the clients. What they print on the terminal is left out; what they log is not.
pub mod Handover
pub mod Sync
pub mod Upload
use finger_move.Base.{
  Option, if◌then◌else◌, length, ltb, minus_one, none, pos, some, ℕ, ℤ, ◌++◌, ◌^◌, ◌∷◌,
}
use finger_move.Clib.{Bytes, codes, find_from, strtok, substr}
use finger_move.Grpcwrap.{
  CConfCltWrap, CMoveCltWrap, CSyncCltWrap, Channel, conf_clt_preconf, move_clt_afpmove,
  new_conf_clt, new_move_clt, new_sync_clt, sync_clt_addafps, sync_clt_delafps,
}
use finger_move.Prodeal.Names.{is_dot_entry, or_error}
use finger_move.Rpc.{AfpDelName, FingerValue, Peers, Status, is_ok}
use finger_move.World.{
  Cmd, fopen_rb, for_each, get_config, get_sublist, list_dir, logstring, or_fault, pure,
  sprintf_path, unit, ◌>>=◌, ◌>>◌,
}

abbrev pub colon : ℕ
colon = b':'

-- `addr.substr(0, addr.find(":"))`
unfoldable pub host_of : Bytes → Bytes
unfolding find_from
host_of addr = elim (find_from colon addr 0) [ none ↦ addr | some p ↦ substr addr 0 p ]

-- "%s\t:\t\tmain\t\tOP\t\t%s", and the verdict behind it.
unfoldable pub log_text : Bytes → Bytes → Bytes → Bytes → Bytes
log_text name op host verdict =
    name ++ 9 ∷ colon ∷ 9 ∷ 9 ∷ codes "main" ++ 9 ∷ 9 ∷ op ++ 9 ∷ 9 ∷ host ++ verdict

abbrev pub success : Bytes
success = 9 ∷ 9 ∷ codes "Success!"

abbrev pub failure : Bytes
failure = 9 ∷ 9 ∷ codes "Error!"

abbrev pub verdict_of : Status → Bytes → Bytes → Bytes
verdict_of s yes_text no_text = if is_ok s then yes_text else no_text

-- The buffer of `flen` bytes that a file is read into. A size that is no `int` is an error.
unfoldable pub file_request : Bytes → Bytes → Option FingerValue
file_request n s =
    if ltb (length s) (2 ^ 31)
    then some (record { name = n; val = s; len = pos (length s) })
    else none

-- The client classes, each with the wrapper that it calls through, and their constructors.
pub record GrMoveClient : Type 0 where
  pub stub : CMoveCltWrap

pub record McMoveClient : Type 0 where
  pub stub : CMoveCltWrap

pub record McSyncClient : Type 0 where
  pub stub : CSyncCltWrap

pub record McConfClient : Type 0 where
  pub stub : CConfCltWrap

abbrev pub new_gr_move : Channel → GrMoveClient
new_gr_move channel = record { stub = new_move_clt channel }

abbrev pub new_mc_move : Channel → McMoveClient
new_mc_move channel = record { stub = new_move_clt channel }

abbrev pub new_mc_sync : Channel → McSyncClient
new_mc_sync channel = record { stub = new_sync_clt channel }

abbrev pub new_mc_conf : Channel → McConfClient
new_mc_conf channel = record { stub = new_conf_clt channel }

module _ (peers : Peers) where
  -- McSyncClient::appAdd and McSyncClient::appDel
  unfoldable pub app_add : McSyncClient → FingerValue → Cmd Status
  unfolding sync_clt_addafps
  app_add clt req = do r ← sync_clt_addafps peers clt.stub req; pure r.status

  unfoldable pub app_del : McSyncClient → AfpDelName → Cmd Status
  unfolding sync_clt_delafps
  app_del clt req = do r ← sync_clt_delafps peers clt.stub req; pure r.status

  -- McConfClient::preConf: the status, and `output`.
  unfoldable pub pre_conf : McConfClient → ℤ → Cmd (Status × ℤ)
  unfolding conf_clt_preconf
  pre_conf clt threshold = do
    r ← conf_clt_preconf peers clt.stub (record { len = threshold })
    pure (r.status, r.len)

  -- One entry in the loop of GrMoveClient::afpMove. The answer is only printed.
  unfoldable pub gr_send : GrMoveClient → Bytes → Bytes → Cmd (Unit {0})
  unfolding move_clt_afpmove file_request sprintf_path fopen_rb
  gr_send clt org n = if is_dot_entry n then unit else do
    fname ← sprintf_path org n
    fop ← fopen_rb fname
    elim fop [
      | none ↦ unit
      | some s ↦ do req ← or_fault (file_request n s); move_clt_afpmove peers clt.stub req; unit
    ]

  -- GrMoveClient::afpMove
  unfoldable pub gr_afp_move : GrMoveClient → Bytes → Cmd ℤ
  unfolding gr_send list_dir for_each
  gr_afp_move clt org =
      or_error (list_dir org) λ entries. do for_each entries (gr_send clt org); pure (pos 0)

  -- GrMoveClient::runClient
  unfoldable pub run_client : Cmd (Unit {0})
  unfolding gr_afp_move
  run_client = do
    c ← get_config
    gr_afp_move (new_gr_move (record { addr = c.clt_move_addr })) c.org_dir
    unit

  -- One sub cache in the loop of McMoveClient::afpMove: it is told to delete.
  unfoldable pub sync_del : Bytes → Bytes → Cmd (Unit {0})
  sync_del n addr = do
    s ← app_del (new_mc_sync (record { addr = addr })) (record { name = n })
    logstring (log_text n (codes "-->") (host_of addr) (verdict_of s success (codes "Error!")))

  -- One entry of McMoveClient::afpMove: the file goes to the group, and every sub cache is told,
  -- whatever the group answers. `hostaddr` loses all behind its host in the first strtok, and
  -- gives the same host each time; an address without a host prints a null pointer.
  unfoldable pub mc_send : McMoveClient → Bytes → Bytes → Bytes → Cmd (Unit {0})
  mc_send clt hostaddr org n = if is_dot_entry n then unit else do
    fname ← sprintf_path org n
    fop ← fopen_rb fname
    elim fop [
      | none ↦ logstring (codes "open file : " ++ fname ++ codes " Error")
      | some s ↦ do
        req ← or_fault (file_request n s)
        r ← move_clt_afpmove peers clt.stub req
        (host, _) ← or_fault (strtok colon hostaddr)
        logstring (log_text n (codes "==>") host (verdict_of r.status success failure))
        subs ← get_sublist
        for_each subs (sync_del n)
    ]

  -- McMoveClient::afpMove
  unfoldable pub mc_afp_move : McMoveClient → Bytes → Bytes → Cmd ℤ
  unfolding mc_send list_dir for_each logstring
  mc_afp_move clt org hostaddr = do
    dp ← list_dir org
    elim dp [
      | none ↦ do logstring (codes "open dir : " ++ org ++ codes " Error!"); pure minus_one
      | some entries ↦ do for_each entries (mc_send clt hostaddr org); pure (pos 0)
    ]
