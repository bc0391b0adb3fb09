-- ===== src/Tpqueue/Wakeup.antt =====
-- No signal of src/tpqueue.h is lost.
use finger_move.Base.{arith, false, ℕ, ◌+◌, ◌-◌, ◌<◌, ◌≡◌, ◌≤◌, ◌⊎◌}
use finger_move.Tpqueue.{PQueue}
use finger_move.Tpqueue.System.{
  Reach, Step, System, at_start, call_get, call_put, later, resume_get, resume_put, run_get,
  run_put, spurious_get, spurious_put,
}

-- Each thread that waits is counted. While one waits for a node, each node there has a woken
-- thread on its way to it, and while one waits for room, so has each free place.
pub record NoLoss {ℓ} {T : Type ℓ} (s : System T) : Type 0 where
  pub open_flag : s.queue.over_flag ≡ false
  pub counted_get : s.get_waiting ≤ s.queue.free_wait
  pub counted_put : s.put_waiting ≤ s.queue.full_wait
  pub nodes : 0 < s.get_waiting → s.queue.cur_size ≤ s.get_woken
  pub room : 0 < s.put_waiting → s.queue.max_size ≤ s.queue.cur_size + s.put_woken

module _ {ℓ} {T : Type ℓ} where
  run_get-NoLoss : (s : System T) → NoLoss s → NoLoss (run_get s)
  unfolding run_get
  run_get-NoLoss s i = ground (arith, i.nodes, i.room)

  run_put-NoLoss : (v : ℕ) (s : System T) → NoLoss s → NoLoss (run_put v s)
  unfolding run_put
  run_put-NoLoss v s i = ground (arith, i.nodes, i.room)

  resume_get-NoLoss :
      (s : System T)
      → 0 < s.get_woken
      → NoLoss s
      → NoLoss (run_get (record s { get_woken = s.get_woken - 1 }))
  unfolding run_get
  resume_get-NoLoss s h i = ground (arith, i.nodes, i.room)

  resume_put-NoLoss :
      (v : ℕ) (s : System T)
      → 0 < s.put_woken
      → NoLoss s
      → NoLoss (run_put v (record s { put_woken = s.put_woken - 1 }))
  unfolding run_put
  resume_put-NoLoss v s h i = ground (arith, i.nodes, i.room)

  -- Every step keeps the invariant.
  pub Step-NoLoss : {s t : System T} → Step s t → NoLoss s → NoLoss t
  Step-NoLoss {s} call_get i = run_get-NoLoss s i
  Step-NoLoss {s} (call_put v) i = run_put-NoLoss v s i
  Step-NoLoss {s} (resume_get h) i = resume_get-NoLoss s h i
  Step-NoLoss {s} (resume_put v h) i = resume_put-NoLoss v s h i
  Step-NoLoss {s} (spurious_get h) i = ground (arith, i.nodes, i.room)
  Step-NoLoss {s} (spurious_put h) i = ground (arith, i.nodes, i.room)

  Reach-NoLoss : {q : PQueue T} {s : System T} → q.over_flag ≡ false → Reach q s → NoLoss s
  Reach-NoLoss e at_start = record {
    open_flag = e;
    counted_get = omega arith;
    counted_put = omega arith;
    nodes = λ h. absurd (omega arith);
    room = λ h. absurd (omega arith);
  }
  Reach-NoLoss e (later r st) = Step-NoLoss st (Reach-NoLoss e r)

  -- In every state that threads reach by `get` and `put`, in any order, from a queue whose flag is
  -- not set: when all woken threads have run, no thread waits in `get` or the queue is empty, and no
  -- thread waits in `put` or it is full.
  pub Reach-waits :
      {q : PQueue T} {s : System T}
      → q.over_flag ≡ false
      → Reach q s
      → s.get_woken ≡ 0
      → s.put_woken ≡ 0
      → ((s.get_waiting ≡ 0) ⊎ (s.queue.cur_size ≡ 0))
        × ((s.put_waiting ≡ 0) ⊎ (s.queue.max_size ≤ s.queue.cur_size))
  Reach-waits {s} e r hg hp = let i : NoLoss s = Reach-NoLoss e r in ground (arith, i.nodes, i.room)
