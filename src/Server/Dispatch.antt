-- ===== src/Server/Dispatch.antt =====
-- The classes of src/server.h, and which method answers which request.
use finger_move.Base.{List, [], if◌then◌else◌, pos, ◌∷◌}
use finger_move.Clib.{Bytes}
use finger_move.Client.{run_client}
use finger_move.Prodeal.Steps.{CProDeal}
use finger_move.Rpc.{Peers, Reply, Request, Status, addafps, afpmove, cancelled, delafps, preconf}
use finger_move.Server.{gc_preconf, gm_afpmove, mc_afpmove, sc_addafps, sc_delafps}
use finger_move.World.{Cmd, done, fault, pure, unit, ◌>>=◌, ◌>>◌}

-- CMoveWrap, CConfWrap and CSyncWrap of src/grpcwrap.h, by the service that they stand for.
pub data Wrap : Type 0 where
  move_wrap conf_wrap sync_wrap : Wrap

-- GMServer, GCServer, McServer and ScServer.
pub data Handlers : Type 0 where
  gm_server gc_server mc_server sc_server : Handlers

abbrev pub base_class : Handlers → Wrap
base_class gm_server = move_wrap
base_class gc_server = conf_wrap
base_class mc_server = move_wrap
base_class sc_server = sync_wrap

abbrev pub service_of : Request → Wrap
service_of (afpmove v) = move_wrap
service_of (preconf v) = conf_wrap
service_of (delafps v) = sync_wrap
service_of (addafps v) = sync_wrap

-- `len` is read from the answer to a ConfigValue only.
abbrev pub reply : Status → Reply
reply s = record { status = s; len = pos 0 }

module _ (peers : Peers) (steps : CProDeal) (url : Bytes) where
  -- What a server with these handlers answers the peer at `url`. A method that a class does not
  -- override is not implemented. The thread that Preconf starts is run when the handler has ended.
  unfoldable pub answer : Handlers → Request → Cmd Reply
  answer gm_server (afpmove v) = do s ← gm_afpmove v; pure (reply s)
  answer gc_server (preconf v) = do
    r ← gc_preconf steps v
    if r.starts_client then run_client peers else unit
    pure (record { status = r.status; len = r.len })
  answer mc_server (afpmove v) = do s ← mc_afpmove peers url v; pure (reply s)
  answer sc_server (delafps v) = do s ← sc_delafps v; pure (reply s)
  answer sc_server (addafps v) = do s ← sc_addafps v; pure (reply s)
  answer _ _ = pure (reply cancelled)

  -- A server gets requests one after the other.
  unfoldable pub serve : Handlers → List Request → Cmd (List Reply)
  serve h [] w = done [] w
  serve h (r ∷ rs) w = elim (answer h r w) [
    | fault ↦ fault
    | done a w' ↦ elim (serve h rs w') [ fault ↦ fault | done as' v ↦ done (a ∷ as') v ]
  ]
