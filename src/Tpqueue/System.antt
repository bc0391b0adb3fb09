-- ===== src/Tpqueue/System.antt =====
-- The threads that use one `pqueue<T>`, interleaved in any order: how many wait in `get` and in
-- `put`, and how many have been woken and have not run yet.
use finger_move.Base.{Bool, if◌then◌else◌, ltb, ℕ, ◌&&◌, ◌+◌, ◌-◌, ◌<◌}
use finger_move.Tpqueue.{PQueue, get, link, put, returns, unlink, waits}

-- `get_waiting` threads wait on `m_free`, `put_waiting` on `m_full`.
pub record System {ℓ} (T : Type ℓ) : Type ℓ where
  pub queue : PQueue T
  pub get_waiting : ℕ
  pub get_woken : ℕ
  pub put_waiting : ℕ
  pub put_woken : ℕ

module _ {ℓ} {T : Type ℓ} where
  -- pthread_cond_signal wakes one of the threads that wait, if there is one.
  abbrev pub signal_free : Bool → System T → System T
  signal_free b s =
      if b && ltb 0 s.get_waiting
      then record s { get_waiting = s.get_waiting - 1; get_woken = s.get_woken + 1 }
      else s

  abbrev pub signal_full : Bool → System T → System T
  signal_full b s =
      if b && ltb 0 s.put_waiting
      then record s { put_waiting = s.put_waiting - 1; put_woken = s.put_woken + 1 }
      else s

  -- A thread runs `get`, or `put` of a node, until it gives up the mutex.
  unfoldable pub run_get : System T → System T
  unfolding get unlink
  run_get s =
      let (e, b, q) = get s.queue in
      let t = record s { queue = q } in
      elim e [ waits ↦ record t { get_waiting = s.get_waiting + 1 } | returns _ ↦ signal_full b t ]

  unfoldable pub run_put : ℕ → System T → System T
  unfolding put link
  run_put v s =
      let (e, b, q) = put v s.queue in
      let t = record s { queue = q } in
      elim e [ waits ↦ record t { put_waiting = s.put_waiting + 1 } | returns _ ↦ signal_free b t ]

  -- `releaseFree`: pthread_cond_broadcast wakes all that wait for a node.
  unfoldable pub release_free : System T → System T
  release_free s = record s { get_waiting = 0; get_woken = s.get_woken + s.get_waiting }

-- A new call, a woken thread that gets the mutex, or a wakeup that no signal has caused.
pub data Step {ℓ} {T : Type ℓ} (s : System T) : System T → Type ℓ where
  call_get : Step s (run_get s)
  call_put : (v : ℕ) → Step s (run_put v s)
  resume_get : 0 < s.get_woken → Step s (run_get (record s { get_woken = s.get_woken - 1 }))
  resume_put :
      (v : ℕ) → 0 < s.put_woken → Step s (run_put v (record s { put_woken = s.put_woken - 1 }))
  spurious_get :
      0 < s.get_waiting
      → Step s (record s { get_waiting = s.get_waiting - 1; get_woken = s.get_woken + 1 })
  spurious_put :
      0 < s.put_waiting
      → Step s (record s { put_waiting = s.put_waiting - 1; put_woken = s.put_woken + 1 })

-- No thread has used the queue yet.
abbrev pub start_system {ℓ} : {T : Type ℓ} → PQueue T → System T
start_system q = record {
  queue = q;
  get_waiting = 0;
  get_woken = 0;
  put_waiting = 0;
  put_woken = 0;
}

pub data Reach {ℓ} {T : Type ℓ} (q : PQueue T) : System T → Type ℓ where
  at_start : Reach q (start_system q)
  later : {s t : System T} → Reach q s → Step s t → Reach q t
