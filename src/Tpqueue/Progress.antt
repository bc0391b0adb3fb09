-- ===== src/Tpqueue/Progress.antt =====
-- The threads that the signals of src/tpqueue.h wake get done.
use finger_move.Base.{arith, dec_lt, false, suc, zero, ℕ, ◌*◌, ◌+◌, ◌-◌, ◌<◌, ◌≡◌, ◌≤◌, ◌⊎◌}
use finger_move.Tpqueue.{PQueue}
use finger_move.Tpqueue.System.{Reach, System, later, resume_get, resume_put, run_get, run_put}
use finger_move.Tpqueue.Wakeup.{Reach-waits}

module _ {ℓ} {T : Type ℓ} where
  -- A woken thread gets the mutex: the state after it has run.
  abbrev pub next_get : System T → System T
  next_get s = run_get (record s { get_woken = s.get_woken - 1 })

  abbrev pub next_put : ℕ → System T → System T
  next_put v s = run_put v (record s { put_woken = s.put_woken - 1 })

  -- What is left to do at most: a woken thread ends, or waits again, and may wake another.
  abbrev pub work : System T → ℕ
  work s = 2 * (s.get_waiting + s.put_waiting) + 3 * (s.get_woken + s.put_woken)

-- A number of woken threads run, in some order, while no new call is made.
pub data Resumes {ℓ} {T : Type ℓ} (s : System T) : ℕ → System T → Type ℓ where
  at_rest : Resumes s 0 s
  then_get :
      {n : ℕ} {t : System T} → Resumes s n t → 0 < t.get_woken → Resumes s (n + 1) (next_get t)
  then_put :
      {n : ℕ} {t : System T} (v : ℕ)
      → Resumes s n t
      → 0 < t.put_woken
      → Resumes s (n + 1) (next_put v t)

module _ {ℓ} {T : Type ℓ} where
  next_get-work : (s : System T) → 0 < s.get_woken → work (next_get s) + 1 ≤ work s
  unfolding run_get
  next_get-work s h = ground arith

  next_put-work : (v : ℕ) (s : System T) → 0 < s.put_woken → work (next_put v s) + 1 ≤ work s
  unfolding run_put
  next_put-work v s h = ground arith

  Resumes-work : {s t : System T} {n : ℕ} → Resumes s n t → n + work t ≤ work s
  Resumes-work at_rest = omega arith
  Resumes-work (then_get {n} {t} r h) = omega (arith, Resumes-work r, next_get-work t h)
  Resumes-work (then_put {n} {t} v r h) = omega (arith, Resumes-work r, next_put-work v t h)

  Resumes-Reach : {q : PQueue T} {s t : System T} {n : ℕ} → Reach q s → Resumes s n t → Reach q t
  Resumes-Reach r at_rest = r
  Resumes-Reach r (then_get m h) = later (Resumes-Reach r m) (resume_get h)
  Resumes-Reach r (then_put v m h) = later (Resumes-Reach r m) (resume_put v h)

  -- All woken threads have run.
  abbrev pub Quiet : System T → Type 0
  Quiet s = (s.get_woken ≡ 0) × (s.put_woken ≡ 0)

  resume_on :
      (fuel : ℕ) {s t : System T} {n : ℕ}
      → Resumes s n t
      → work t < fuel
      → (m : ℕ) × (u : System T) × Resumes s m u × Quiet u
  resume_on zero r h = absurd (omega arith)
  resume_on (suc fuel) {s} {t} {n} r h = elim (dec_lt 0 t.get_woken) [
    | yes g ↦ resume_on fuel (then_get r g) (omega (arith, next_get-work t g))
    | no g ↦ elim (dec_lt 0 t.put_woken) [
      | yes p ↦ resume_on fuel (then_put 0 r p) (omega (arith, next_put-work 0 t p))
      | no p ↦ (n, t, r, (omega arith, omega arith))
    ]
  ]

  -- In every state that threads reach from a queue whose flag is not set: however the woken
  -- threads run on from there, no more than a bounded number of them does, and from where they are
  -- the rest can run until all have; then no thread waits in `get` or the queue is empty, and no
  -- thread waits in `put` or it is full.
  pub Reach-Resumes :
      {q : PQueue T} {s u : System T} {k : ℕ}
      → q.over_flag ≡ false
      → Reach q s
      → Resumes s k u
      → (k ≤ work s)
        × ((n : ℕ) × (t : System T) × Resumes u n t
            × Quiet t
            × ((t.get_waiting ≡ 0) ⊎ (t.queue.cur_size ≡ 0))
            × ((t.put_waiting ≡ 0) ⊎ (t.queue.max_size ≤ t.queue.cur_size)))
  Reach-Resumes {s} {u} e r run =
      let (n, t, m, quiet) = resume_on (work u + 1) {s = u} at_rest (omega arith) in
      let there = Resumes-Reach (Resumes-Reach r run) m in
      let calm = Reach-waits e there quiet.0 quiet.1 in
      (omega (arith, Resumes-work run), (n, t, m, quiet, calm.0, calm.1))
