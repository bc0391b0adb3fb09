-- ===== src/Logmt/Shutdown.antt =====
-- How the logger of src/logmt.cc is told to stop.
use finger_move.Base.{arith, false, refl, suc, true, zero, ℕ, ◌+◌, ◌-◌, ◌∙◌, ◌≡◌}
use finger_move.Logmt.{logover}
use finger_move.Tpqueue.{get, init, returns, setflag}
use finger_move.Tpqueue.System.{System, release_free, run_get}

module _ {ℓ} {T : Type ℓ} where
  -- Woken threads, one after the other, get the mutex and run the loop in `get` on.
  unfoldable pub resume_all : ℕ → System T → System T
  resume_all zero s = s
  resume_all (suc k) s = resume_all k (run_get (record s { get_woken = s.get_woken - 1 }))

  -- On an empty queue without the flag they all wait again.
  resume_all-waits :
      (k : ℕ) (s : System T)
      → s.queue.cur_size ≡ 0
      → s.queue.over_flag ≡ false
      → s.get_woken ≡ k
      → ((resume_all k s).get_waiting ≡ s.get_waiting + k) × ((resume_all k s).get_woken ≡ 0)
  unfolding resume_all run_get get
  resume_all-waits zero s empty no_flag woken = (omega arith, woken)
  resume_all-waits (suc k) s empty no_flag woken =
      let t = run_get (record s { get_woken = s.get_woken - 1 }) in
      let same_size : t.queue.cur_size ≡ 0 = ground (arith, empty, no_flag) in
      let same_flag : t.queue.over_flag ≡ false = ground (arith, empty, no_flag) in
      let fewer : t.get_woken ≡ k = ground (arith, empty, no_flag, woken) in
      let more : t.get_waiting ≡ s.get_waiting + 1 = ground (arith, empty, no_flag) in
      let (a, b) = resume_all-waits k t same_size same_flag fewer in (a ∙ omega (arith, more), b)

  -- Once the flag is set, get returns null, whatever the queue holds. logover wakes all threads
  -- that wait in get and keeps those that are woken already, but it also takes the flag away
  -- again: when all woken threads then get the mutex, each of them waits again, and none has
  -- returned.
  pub get-logover :
      (s : System T)
      → let t = logover s in
        let u = resume_all t.get_woken t in
        ((get (setflag true s.queue)).0 ≡ returns 0)
        × (t.get_woken ≡ s.get_woken + s.get_waiting)
        × (t.get_waiting ≡ 0)
        × (u.get_waiting ≡ s.get_woken + s.get_waiting)
        × (u.get_woken ≡ 0)
  unfolding get setflag logover release_free init
  get-logover s =
      let (a, b) = resume_all-waits (logover s).get_woken (logover s) refl refl refl in
      (ground arith, refl, refl, a ∙ omega arith, b)
