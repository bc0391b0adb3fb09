-- ===== src/Rpc.antt =====
-- The messages of proto/dynamicFingerMove.proto, the remote procedure calls that carry them, and
-- the client wrappers of src/grpcwrap.cc. The gRPC library, with the peers behind it, is a
-- parameter: what a call gets back may depend on all the calls that were made before.
use finger_move.Base.{Bool, List, false, true, ℤ}
use finger_move.Clib.{Bytes}

pub record FingerValue : Type 0 where
  pub name : Bytes
  pub val : Bytes
  pub len : ℤ

pub record ConfigValue : Type 0 where
  pub len : ℤ

pub record AfpDelName : Type 0 where
  pub name : Bytes

pub data Request : Type 0 where
  afpmove : FingerValue → Request
  preconf : ConfigValue → Request
  delafps : AfpDelName → Request
  addafps : FingerValue → Request

-- A request, and the address of the channel that it goes out on.
pub record Call : Type 0 where
  pub addr : Bytes
  pub request : Request

-- Status::OK and Status::CANCELLED, or any other status that is not ok.
pub data Status : Type 0 where
  status_ok : Status
  cancelled : Status

abbrev pub is_ok : Status → Bool
is_ok status_ok = true
is_ok cancelled = false

-- `len` is the field of a ConfigValue, 0 in an answer of another type.
pub record Reply : Type 0 where
  pub status : Status
  pub len : ℤ

-- The peers: their answer to a call, from the calls made so far, oldest first.
abbrev pub Peers : Type 0
Peers = List Call → Call → Reply
