-- ===== src/Grpcwrap.antt =====
-- src/grpcwrap.h, src/grpcwrap.cc: the base class of a server for each service, and a client
-- wrapper for each. A channel is known by its address, and so is the stub that is made over it;
-- each method of a wrapper makes one call.
use finger_move.Clib.{Bytes}
use finger_move.Rpc.{
  AfpDelName, ConfigValue, FingerValue, Peers, Reply, addafps, afpmove, delafps, preconf,
}
use finger_move.World.{Cmd, call}

-- `grpc::CreateChannel(addr, …)`
pub record Channel : Type 0 where
  pub addr : Bytes

pub record CMoveCltWrap : Type 0 where
  pub m_stub : Channel

pub record CConfCltWrap : Type 0 where
  pub m_stub : Channel

pub record CSyncCltWrap : Type 0 where
  pub m_stub : Channel

-- The constructors.
abbrev pub new_move_clt : Channel → CMoveCltWrap
new_move_clt channel = record { m_stub = channel }

abbrev pub new_conf_clt : Channel → CConfCltWrap
new_conf_clt channel = record { m_stub = channel }

abbrev pub new_sync_clt : Channel → CSyncCltWrap
new_sync_clt channel = record { m_stub = channel }

module _ (peers : Peers) where
  -- CMoveCltWrap::Afpmove
  unfoldable pub move_clt_afpmove : CMoveCltWrap → FingerValue → Cmd Reply
  unfolding call
  move_clt_afpmove clt req = call peers (record { addr = clt.m_stub.addr; request = afpmove req })

  -- CConfCltWrap::Preconf
  unfoldable pub conf_clt_preconf : CConfCltWrap → ConfigValue → Cmd Reply
  unfolding call
  conf_clt_preconf clt req = call peers (record { addr = clt.m_stub.addr; request = preconf req })

  -- CSyncCltWrap::Delafps
  unfoldable pub sync_clt_delafps : CSyncCltWrap → AfpDelName → Cmd Reply
  unfolding call
  sync_clt_delafps clt req = call peers (record { addr = clt.m_stub.addr; request = delafps req })

  -- CSyncCltWrap::Addafps
  unfoldable pub sync_clt_addafps : CSyncCltWrap → FingerValue → Cmd Reply
  unfolding call
  sync_clt_addafps clt req = call peers (record { addr = clt.m_stub.addr; request = addafps req })
