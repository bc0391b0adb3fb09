-- ===== src/Tpqueue.antt =====
-- src/tpqueue.h: the blocking queue `pqueue<T>`, a singly linked list of nodes in memory behind a
-- mutex. Each function here is what one thread does from taking the mutex until it gives it up,
-- by returning or by waiting; a thread that wakes runs the same code again, from the loop's test.
pub mod Bounds
pub mod Fifo
pub mod Progress
pub mod System
pub mod Wakeup
use finger_move.Base.{
  Bool, List, Option, [], false, if◌then◌else◌, leb, ltb, ltb_ℤ, none, pos, pos_part, some, suc,
  true, zero, ℕ, ℤ, ◌+◌, ◌-◌, ◌==◌, ◌∷◌,
}

-- `node<T>`; address 0 is the null pointer.
pub record Node {ℓ} (T : Type ℓ) : Type ℓ where
  pub content : T
  pub next : ℕ

-- What `m_tail` points to: the member `m_head`, or the `m_next` of a node.
pub data Tail : Type 0 where
  at_head : Tail
  at_next : ℕ → Tail

-- `mem` is the memory that the nodes stand in. `free_wait` and `full_wait` count the calls of
-- pthread_cond_wait that no signal has answered. `over_flag` is `m_overflag != 0`.
pub record PQueue {ℓ} (T : Type ℓ) : Type ℓ where
  pub mem : ℕ → Node T
  pub head : ℕ
  pub tail : Tail
  pub cur_size : ℕ
  pub max_size : ℕ
  pub over_flag : Bool
  pub free_wait : ℕ
  pub full_wait : ℕ

-- How a thread gives up the mutex: it waits on a condition, or returns a pointer.
pub data Exit : Type 0 where
  waits : Exit
  returns : ℕ → Exit

abbrev pub default_size : ℕ
default_size = 100

module _ {ℓ} {T : Type ℓ} where
  -- A write to a node's `m_next`.
  abbrev pub set_next : (ℕ → Node T) → ℕ → ℕ → ℕ → Node T
  set_next mem p q a = if a == p then record (mem a) { next = q } else mem a

  unfoldable pub init : (ℕ → Node T) → PQueue T
  init mem = record {
    mem = mem;
    head = 0;
    tail = at_head;
    cur_size = 0;
    max_size = default_size;
    over_flag = false;
    free_wait = 0;
    full_wait = 0;
  }

  -- `*m_tail = val; m_tail = &(val->m_next); m_cursize++`, and `val->m_next = 0` before.
  unfoldable pub link : ℕ → PQueue T → PQueue T
  link val q = elim q.tail [
    | at_head ↦ record q {
      mem = set_next q.mem val 0;
      head = val;
      tail = at_next val;
      cur_size = q.cur_size + 1;
    }
    | at_next p ↦ record q {
      mem = set_next (set_next q.mem val 0) p val;
      tail = at_next val;
      cur_size = q.cur_size + 1;
    }
  ]

  -- The node at the head is taken off.
  unfoldable pub unlink : PQueue T → PQueue T
  unlink q =
      let next = (q.mem q.head).next in
      record q {
        head = next;
        tail = if next == 0 then at_head else q.tail;
        cur_size = q.cur_size - 1;
      }

  -- The last test of `get`, and that of `put`; true if the condition is signalled.
  abbrev pub wake_full : PQueue T → Bool × PQueue T
  wake_full q =
      if ltb 0 q.full_wait then (true, record q { full_wait = q.full_wait - 1 }) else (false, q)

  abbrev pub wake_free : PQueue T → Bool × PQueue T
  wake_free q =
      if ltb 0 q.free_wait then (true, record q { free_wait = q.free_wait - 1 }) else (false, q)

  -- `get`: the exit, whether `m_full` is signalled, and the queue after.
  unfoldable pub get : PQueue T → Exit × Bool × PQueue T
  get q =
      if q.cur_size == 0
      then (if q.over_flag
          then (returns 0, false, q)
          else (waits, false, record q { free_wait = q.free_wait + 1 }))
      else if q.over_flag
      then (returns 0, false, q)
      else (let (signal, q') = wake_full (unlink q) in (returns q.head, signal, q'))

  -- `put` of a node that is not null: the same, with `m_free`.
  unfoldable pub put : ℕ → PQueue T → Exit × Bool × PQueue T
  put val q =
      if leb q.max_size q.cur_size
      then (waits, false, record q { full_wait = q.full_wait + 1 })
      else (let (signal, q') = wake_free (link val q) in (returns 0, signal, q'))

  unfoldable pub setsize : ℤ → PQueue T → PQueue T
  setsize size q = if ltb_ℤ (pos q.cur_size) size then record q { max_size = pos_part size } else q

  unfoldable pub setflag : Bool → PQueue T → PQueue T
  setflag flag q = record q { over_flag = flag }

  -- The loop that deletes the nodes: the addresses that it frees, in order. `none` if the fuel
  -- runs out.
  unfoldable pub delete_from : ℕ → (ℕ → Node T) → ℕ → Option (List ℕ)
  delete_from zero mem p = none
  delete_from (suc f) mem p =
      if p == 0
      then some []
      else elim (delete_from f mem (mem p).next) [ none ↦ none | some ps ↦ some (p ∷ ps) ]

  -- `~pqueue`: the nodes that it deletes.
  unfoldable pub destroy : ℕ → PQueue T → Option (List ℕ)
  unfolding delete_from
  destroy f q = delete_from f q.mem q.head

  -- `resetqueue`, without the nodes that it frees.
  unfoldable pub resetqueue : PQueue T → PQueue T
  unfolding init
  resetqueue q = init q.mem
