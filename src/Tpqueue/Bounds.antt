-- ===== src/Tpqueue/Bounds.antt =====
-- The limit on the size of a `pqueue<T>`, over any history of calls.
use finger_move.Base.{Bool, List, [], arith, ℕ, ℤ, ◌<◌, ◌∷◌, ◌≤◌}
use finger_move.Tpqueue.{Node, PQueue, get, init, link, put, resetqueue, setflag, setsize, unlink}

pub data Op : Type 0 where
  op_get : Op
  op_put : ℕ → Op
  op_setsize : ℤ → Op
  op_setflag : Bool → Op
  op_resetqueue : Op

module _ {ℓ} {T : Type ℓ} where
  unfoldable pub perform : Op → PQueue T → PQueue T
  unfolding get put link unlink setsize setflag resetqueue
  perform op_get q = (get q).2
  perform (op_put v) q = (put v q).2
  perform (op_setsize n) q = setsize n q
  perform (op_setflag b) q = setflag b q
  perform op_resetqueue q = resetqueue q

  unfoldable pub history : List Op → PQueue T → PQueue T
  unfolding perform
  history [] q = q
  history (o ∷ os) q = history os (perform o q)

  abbrev pub IsBounded : PQueue T → Type 0
  IsBounded q = (q.cur_size ≤ q.max_size) × (0 < q.max_size)

  perform-IsBounded : (o : Op) (q : PQueue T) → IsBounded q → IsBounded (perform o q)
  unfolding perform
  perform-IsBounded op_get q h = ground arith
  perform-IsBounded (op_put v) q h = ground arith
  perform-IsBounded (op_setsize n) q h = ground arith
  perform-IsBounded (op_setflag b) q h = ground arith
  perform-IsBounded op_resetqueue q h = ground arith

  history-IsBounded : (os : List Op) (q : PQueue T) → IsBounded q → IsBounded (history os q)
  unfolding history
  history-IsBounded [] q h = h
  history-IsBounded (o ∷ os) q h = history-IsBounded os (perform o q) (perform-IsBounded o q h)

  -- After any history of calls on a new queue, its count of nodes is at most its limit, and the
  -- limit is not 0; setsize cannot put the limit below the count.
  pub history-init-IsBounded : (os : List Op) (mem : ℕ → Node T) → IsBounded (history os (init mem))
  unfolding init
  history-init-IsBounded os mem = history-IsBounded os _ (omega arith, omega arith)
