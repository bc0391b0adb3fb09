-- ===== src/Logmt/Pipe.antt =====
-- The logger of src/logmt.h and src/logmt.cc over the queue of src/tpqueue.h: what threads hand to
-- `logstring`, and what the logger thread takes.
use finger_move.Base.{
  Bool, List, Option, [], drop, if◌then◌else◌, length, ltb, map, none, some, ℕ, ◌++◌, ◌+◌, ◌==◌,
  ◌∷◌, ◌≡◌, ◌≢◌,
}
use finger_move.Clib.{Bytes, max_line_len, newline}
use finger_move.Tpqueue.{Exit, Node, PQueue, get, init, put, returns, waits}
use finger_move.Tpqueue.Fifo.{Fresh}

-- The content of a node, a buffer of MAX_LINE_LEN bytes, by the string in it.
pub record LogNode : Type 0 where
  pub m_buf : Bytes

-- `new node<LogNode>()` at the address `p`, and the string that sprintf writes there.
abbrev pub fill : ℕ → Bytes → PQueue LogNode → PQueue LogNode
fill p s q = record q {
  mem = λ a. if a == p then record { content = record { m_buf = s }; next = 0 } else q.mem a;
}

-- `logmt::logstring` with its queue; `none` is an overrun of the buffer.
unfoldable pub log_put : ℕ → Bytes → PQueue LogNode → Option (Exit × Bool × PQueue LogNode)
log_put p str q =
    if ltb (length str + 1) max_line_len
    then some (put p (fill p (str ++ newline ∷ []) q))
    else none

-- `live` are the nodes in the queue, oldest first; `given` are the lines that calls of `logstring`
-- have put, and `taken` those that the thread has got.
pub record Pipe : Type 0 where
  pub queue : PQueue LogNode
  pub live : List ℕ
  pub given : List Bytes
  pub taken : List Bytes

-- `new` returns an address that is not null and that no node has. A thread that has to wait runs
-- the same again.
pub data PipeStep (s : Pipe) : Pipe → Type 0 where
  gives :
      (p : ℕ) (str : Bytes) (b : Bool) (q : PQueue LogNode)
      → p ≢ 0
      → Fresh p s.live
      → log_put p str s.queue ≡ some (returns 0, b, q)
      → PipeStep s (record s {
        queue = q;
        live = s.live ++ p ∷ [];
        given = s.given ++ (str ++ newline ∷ []) ∷ [];
      })
  give_waits :
      (p : ℕ) (str : Bytes) (b : Bool) (q : PQueue LogNode)
      → p ≢ 0
      → Fresh p s.live
      → log_put p str s.queue ≡ some (waits, b, q)
      → PipeStep s (record s { queue = q })
  takes :
      (x : ℕ) (b : Bool) (q : PQueue LogNode)
      → x ≢ 0
      → get s.queue ≡ (returns x, b, q)
      → PipeStep s (record s {
        queue = q;
        live = drop 1 s.live;
        taken = s.taken ++ (s.queue.mem x).content.m_buf ∷ [];
      })
  take_waits :
      (b : Bool) (q : PQueue LogNode)
      → get s.queue ≡ (waits, b, q)
      → PipeStep s (record s { queue = q })

pub data PipeReach (mem : ℕ → Node LogNode) : Pipe → Type 0 where
  pipe_start : PipeReach mem (record { queue = init mem; live = []; given = []; taken = [] })
  pipe_later : {s t : Pipe} → PipeReach mem s → PipeStep s t → PipeReach mem t

-- The lines in the queue.
abbrev pub pending : (ℕ → Node LogNode) → List ℕ → List Bytes
pending mem xs = map (λ a. (mem a).content.m_buf) xs
