-- ===== src/Tests/Queues.antt =====
-- The queue of src/tpqueue.h and the logger that uses it.
use finger_move.Base.{
  List, [], arith, false, pos, refl, some, true, ℕ, ◌++◌, ◌+◌, ◌-◌, ◌<◌, ◌∷◌, ◌≡◌, ◌≤◌, ◌⊎◌,
}
use finger_move.Logmt.{logover}
use finger_move.Logmt.Shutdown.{get-logover, resume_all}
use finger_move.Tpqueue.{
  Node, PQueue, delete_from, destroy, get, init, link, put, resetqueue, returns, setflag, unlink,
  waits,
}
use finger_move.Tpqueue.Bounds.{
  IsBounded, Op, history, history-init-IsBounded, op_get, op_put, op_setsize,
}
use finger_move.Tpqueue.Fifo.{IsQueue, get-IsQueue, put-IsQueue, resetqueue-IsQueue}
use finger_move.Tpqueue.Progress.{Quiet, Reach-Resumes, Resumes, at_rest, then_get, work}
use finger_move.Tpqueue.System.{
  Reach, System, at_start, call_get, call_put, later, resume_get, run_get, run_put, start_system,
}
use finger_move.Tpqueue.Wakeup.{Reach-waits}

abbrev memory : ℕ → Node ℕ
memory a = record { content = a; next = 0 }

abbrev two_nodes : PQueue ℕ
two_nodes = (put 9 (put 7 (init memory)).2).2

abbrev addresses : List ℕ
addresses = 7 ∷ 9 ∷ []

two_nodes-IsQueue : IsQueue two_nodes addresses
unfolding put link init
two_nodes-IsQueue = record { chain = omega arith; last = refl; size = refl; distinct = omega arith }

first_out : (get two_nodes).0 ≡ returns 7
unfolding put link init get unlink
first_out = refl

put-IsQueue_example :
    let (e, _, q') = put 5 two_nodes in
    ((two_nodes.max_size ≤ 2) × (e ≡ waits) × IsQueue q' addresses)
    ⊎ ((2 < two_nodes.max_size) × (e ≡ returns 0) × IsQueue q' (addresses ++ 5 ∷ []))
put-IsQueue_example =
    put-IsQueue two_nodes addresses 5 (omega arith) (omega arith) two_nodes-IsQueue

get-IsQueue_example :
    let (e, _, q') = get two_nodes in
    ((two_nodes.over_flag ≡ true) × (e ≡ returns 0) × IsQueue q' addresses)
    ⊎ ((two_nodes.over_flag ≡ false) × (addresses ≡ []) × (e ≡ waits) × IsQueue q' [])
    ⊎ ((x : ℕ) × (ys : List ℕ) × (two_nodes.over_flag ≡ false)
        × (addresses ≡ x ∷ ys)
        × (e ≡ returns x)
        × IsQueue q' ys)
get-IsQueue_example = get-IsQueue two_nodes addresses two_nodes-IsQueue

resetqueue-IsQueue_example :
    (delete_from (two_nodes.cur_size + 1) two_nodes.mem two_nodes.head ≡ some addresses)
    × (destroy (two_nodes.cur_size + 1) two_nodes ≡ some addresses)
    × IsQueue (resetqueue two_nodes) []
resetqueue-IsQueue_example = resetqueue-IsQueue two_nodes addresses two_nodes-IsQueue

abbrev some_calls : List Op
some_calls = op_put 3 ∷ op_setsize (pos 5) ∷ op_put 4 ∷ op_get ∷ []

history-init-IsBounded_example : IsBounded (history some_calls (init memory))
history-init-IsBounded_example = history-init-IsBounded some_calls memory

-- One thread waits in `get`, and is then woken by a `put`.
abbrev waiting : System ℕ
waiting = run_put 7 (run_get (start_system (init memory)))

abbrev served : System ℕ
served = run_get (record waiting { get_woken = waiting.get_woken - 1 })

woken_once : waiting.get_woken ≡ 1
unfolding run_put run_get init
woken_once = refl

served-Reach : Reach (init memory) served
unfolding run_put run_get init
served-Reach = later (later (later at_start call_get) (call_put 7)) (resume_get (omega arith))

Reach-waits_example :
    ((served.get_waiting ≡ 0) ⊎ (served.queue.cur_size ≡ 0))
    × ((served.put_waiting ≡ 0) ⊎ (served.queue.max_size ≤ served.queue.cur_size))
unfolding run_put run_get init
Reach-waits_example = Reach-waits refl served-Reach refl refl

-- Two threads wait, and one has been woken.
abbrev three_threads : System ℕ
three_threads = record (start_system two_nodes) { get_waiting = 2; get_woken = 1 }

get-logover_example :
    let s = three_threads in
    let t = logover s in
    let u = resume_all t.get_woken t in
    ((get (setflag true s.queue)).0 ≡ returns 0)
    × (t.get_woken ≡ 1 + 2)
    × (t.get_waiting ≡ 0)
    × (u.get_waiting ≡ 1 + 2)
    × (u.get_woken ≡ 0)
get-logover_example = get-logover three_threads

waiting-Reach : Reach (init memory) waiting
unfolding run_put run_get init
waiting-Reach = later (later at_start call_get) (call_put 7)

Reach-Resumes_example :
    (1 ≤ work waiting)
    × ((n : ℕ) × (t : System ℕ) × Resumes served n t
        × Quiet t
        × ((t.get_waiting ≡ 0) ⊎ (t.queue.cur_size ≡ 0))
        × ((t.put_waiting ≡ 0) ⊎ (t.queue.max_size ≤ t.queue.cur_size)))
unfolding run_put run_get init
Reach-Resumes_example = Reach-Resumes refl waiting-Reach (then_get at_rest (omega arith))
