-- ===== src/Logmt/Order.antt =====
-- The logger writes the lines in the order in which they were given.
use finger_move.Base.{
  Bool, List, [], ap, append_assoc, ap₂, arith, drop, inl, inr, refl, some, subst, sym, ℕ, ◌++◌,
  ◌∙◌, ◌∷◌, ◌≡◌, ◌≢◌,
}
use finger_move.Clib.{Bytes, newline}
use finger_move.Logmt.Pipe.{
  LogNode, Pipe, PipeReach, PipeStep, fill, give_waits, gives, log_put, pending, pipe_later,
  pipe_start, take_waits, takes,
}
use finger_move.Tpqueue.{Exit, Node, PQueue, get, init, link, put, returns, unlink, waits}
use finger_move.Tpqueue.Fifo.{Chain, Fresh, IsQueue, get-IsQueue, put-IsQueue}

-- The nodes in the queue are as they should be, and no line is lost, doubled or out of order.
pub record IsOrdered (s : Pipe) : Type 0 where
  pub nodes : IsQueue s.queue s.live
  pub lines : s.given ≡ s.taken ++ pending s.queue.mem s.live

put-content : (v a : ℕ) (q : PQueue LogNode) → ((put v q).2.mem a).content ≡ (q.mem a).content
unfolding put link
put-content v a q = ground arith

get-mem : (q : PQueue LogNode) → (get q).2.mem ≡ q.mem
unfolding get unlink
get-mem q = ground arith

fill-Chain :
    (p h : ℕ) (s : Bytes) (q : PQueue LogNode) (xs : List ℕ)
    → Fresh p xs
    → Chain q.mem h xs
    → Chain (fill p s q).mem h xs
fill-Chain p h s q [] f c = c
fill-Chain p h s q (x ∷ xs) f c =
    (c.0, c.1, ground (arith, fill-Chain p (q.mem x).next s q xs f.1 c.2))

fill-IsQueue :
    (p : ℕ) (s : Bytes) (q : PQueue LogNode) (xs : List ℕ)
    → Fresh p xs
    → IsQueue q xs
    → IsQueue (fill p s q) xs
fill-IsQueue p s q xs f i = record {
  chain = fill-Chain p q.head s q xs f i.chain;
  last = i.last;
  size = i.size;
  distinct = i.distinct;
}

fill-pending :
    (p : ℕ) (s : Bytes) (q : PQueue LogNode) (xs : List ℕ)
    → Fresh p xs
    → pending (fill p s q).mem xs ≡ pending q.mem xs
fill-pending p s q [] f = refl
fill-pending p s q (x ∷ xs) f = ground (arith, fill-pending p s q xs f.1)

pending-eq :
    (m k : ℕ → Node LogNode) (xs : List ℕ)
    → ((a : ℕ) → (m a).content ≡ (k a).content)
    → pending m xs ≡ pending k xs
pending-eq m k [] h = refl
pending-eq m k (x ∷ xs) h =
    ap₂ (λ (c : LogNode) (l : List Bytes). c.m_buf ∷ l) (h x) (pending-eq m k xs h)

pending-snoc :
    (m : ℕ → Node LogNode) (p : ℕ) (xs : List ℕ)
    → pending m (xs ++ p ∷ []) ≡ pending m xs ++ (m p).content.m_buf ∷ []
pending-snoc m p [] = refl
pending-snoc m p (x ∷ xs) = ap (λ (l : List Bytes). (m x).content.m_buf ∷ l) (pending-snoc m p xs)

log_put-put :
    (p : ℕ) (str : Bytes) (q : PQueue LogNode) (r : Exit × Bool × PQueue LogNode)
    → log_put p str q ≡ some r
    → put p (fill p (str ++ newline ∷ []) q) ≡ r
unfolding log_put
log_put-put p str q r h = ground (arith, h)

-- What put and get leave, by the exit that they take.
put-returns :
    (q q' : PQueue LogNode) (xs : List ℕ) (v : ℕ) (b : Bool)
    → v ≢ 0
    → Fresh v xs
    → IsQueue q xs
    → put v q ≡ (returns 0, b, q')
    → IsQueue q' (xs ++ v ∷ [])
put-returns q q' xs v b nz f i h = elim (put-IsQueue q xs v nz f i) [
  | inl full ↦ absurd (ground (arith, full.1, ap (λ r. r.0) h))
  | inr room ↦ subst (λ (r : Exit × Bool × PQueue LogNode). IsQueue r.2 (xs ++ v ∷ [])) h room.2
]

put-waits :
    (q q' : PQueue LogNode) (xs : List ℕ) (v : ℕ) (b : Bool)
    → v ≢ 0
    → Fresh v xs
    → IsQueue q xs
    → put v q ≡ (waits, b, q')
    → IsQueue q' xs
put-waits q q' xs v b nz f i h = elim (put-IsQueue q xs v nz f i) [
  | inl full ↦ subst (λ (r : Exit × Bool × PQueue LogNode). IsQueue r.2 xs) h full.2
  | inr room ↦ absurd (ground (arith, room.1, ap (λ r. r.0) h))
]

get-returns :
    (q q' : PQueue LogNode) (xs : List ℕ) (x : ℕ) (b : Bool)
    → x ≢ 0
    → IsQueue q xs
    → get q ≡ (returns x, b, q')
    → (xs ≡ x ∷ drop 1 xs) × IsQueue q' (drop 1 xs)
get-returns q q' xs x b nz i h = elim (get-IsQueue q xs i) [
  | inl over ↦ absurd (ground (arith, over.1, ap (λ r. r.0) h))
  | inr (inl empty) ↦ absurd (ground (arith, empty.2, ap (λ r. r.0) h))
  | inr (inr (y, ys, off, e, exit, j)) ↦
      let same_node : y ≡ x = ground (arith, exit, ap (λ r. r.0) h) in
      (
        rw e (ap (λ (z : ℕ). z ∷ ys) same_node),
        rw e (subst (λ (r : Exit × Bool × PQueue LogNode). IsQueue r.2 ys) h j),
      )
]

get-waits :
    (q q' : PQueue LogNode) (xs : List ℕ) (b : Bool)
    → IsQueue q xs
    → get q ≡ (waits, b, q')
    → IsQueue q' xs
get-waits q q' xs b i h = elim (get-IsQueue q xs i) [
  | inl over ↦ absurd (ground (arith, over.1, ap (λ r. r.0) h))
  | inr (inl empty) ↦
      rw empty.1 (subst (λ (r : Exit × Bool × PQueue LogNode). IsQueue r.2 []) h empty.3)
  | inr (inr (y, ys, off, e, exit, j)) ↦ absurd (ground (arith, exit, ap (λ r. r.0) h))
]

-- The lines in the queue stay, whatever get and put do.
pending-put :
    (p : ℕ) (t : Bytes) (q q' : PQueue LogNode) (ys : List ℕ) (e : Exit) (b : Bool)
    → put p (fill p t q) ≡ (e, b, q')
    → pending q'.mem ys ≡ pending (fill p t q).mem ys
pending-put p t q q' ys e b h = pending-eq q'.mem (fill p t q).mem ys (λ a.
    subst (λ (r : Exit × Bool × PQueue LogNode). (r.2.mem a).content ≡ ((fill p t q).mem a).content)
      h (put-content p a (fill p t q)))

pending-get :
    (q q' : PQueue LogNode) (ys : List ℕ) (e : Exit) (b : Bool)
    → get q ≡ (e, b, q')
    → pending q'.mem ys ≡ pending q.mem ys
pending-get q q' ys e b h =
    ap (λ (m : ℕ → Node LogNode). pending m ys)
      (subst (λ (r : Exit × Bool × PQueue LogNode). r.2.mem ≡ q.mem) h (get-mem q))

fill-there : (p : ℕ) (t : Bytes) (q : PQueue LogNode) → ((fill p t q).mem p).content.m_buf ≡ t
fill-there p t q = ground arith

PipeStep-IsOrdered : {s t : Pipe} → PipeStep s t → IsOrdered s → IsOrdered t
PipeStep-IsOrdered {s} (gives p str b q nz f h) i =
    let t = str ++ newline ∷ [] in
    let ran = log_put-put p str s.queue _ h in
    record {
      nodes =
          put-returns (fill p t s.queue) q s.live p b nz f
            (fill-IsQueue p t s.queue s.live f i.nodes) ran;
      lines =
          ap (λ (l : List Bytes). l ++ t ∷ []) i.lines
          ∙ append_assoc s.taken (pending s.queue.mem s.live) (t ∷ [])
          ∙ ap (λ (l : List Bytes). s.taken ++ l)
              (ap₂ (λ (l : List Bytes) (u : Bytes). l ++ u ∷ [])
                  (sym (fill-pending p t s.queue s.live f)) (sym (fill-there p t s.queue))
                ∙ sym (pending-snoc (fill p t s.queue).mem p s.live)
                ∙ sym (pending-put p t s.queue q (s.live ++ p ∷ []) (returns 0) b ran));
    }
PipeStep-IsOrdered {s} (give_waits p str b q nz f h) i =
    let t = str ++ newline ∷ [] in
    let ran = log_put-put p str s.queue _ h in
    record {
      nodes =
          put-waits (fill p t s.queue) q s.live p b nz f (fill-IsQueue p t s.queue s.live f i.nodes)
            ran;
      lines =
          i.lines
          ∙ ap (λ (l : List Bytes). s.taken ++ l)
              (sym (fill-pending p t s.queue s.live f)
                ∙ sym (pending-put p t s.queue q s.live waits b ran));
    }
PipeStep-IsOrdered {s} (takes x b q nz h) i =
    let (front, after) = get-returns s.queue q s.live x b nz i.nodes h in
    record {
      nodes = after;
      lines =
          i.lines
          ∙ ap (λ (l : List ℕ). s.taken ++ pending s.queue.mem l) front
          ∙ sym (append_assoc s.taken _ _)
          ∙ ap (λ (l : List Bytes). (s.taken ++ (s.queue.mem x).content.m_buf ∷ []) ++ l)
              (sym (pending-get s.queue q (drop 1 s.live) (returns x) b h));
    }
PipeStep-IsOrdered {s} (take_waits b q h) i = record {
  nodes = get-waits s.queue q s.live b i.nodes h;
  lines =
      i.lines
      ∙ ap (λ (l : List Bytes). s.taken ++ l) (sym (pending-get s.queue q s.live waits b h));
}

PipeReach-keeps : {mem : ℕ → Node LogNode} {s : Pipe} → PipeReach mem s → IsOrdered s
unfolding init
PipeReach-keeps pipe_start = record {
  nodes = record { chain = refl; last = refl; size = refl; distinct = tt };
  lines = refl;
}
PipeReach-keeps (pipe_later r st) = PipeStep-IsOrdered st (PipeReach-keeps r)

-- In every state that threads reach which call `logstring` while the logger thread takes lines, in
-- any order: the lines that were given are those that the thread has taken and, behind them, those
-- in the queue, in one order; none is lost, doubled or changed, and the list of nodes in memory is
-- well formed.
pub PipeReach-IsOrdered :
    {mem : ℕ → Node LogNode} {s : Pipe}
    → PipeReach mem s
    → IsQueue s.queue s.live × (s.given ≡ s.taken ++ pending s.queue.mem s.live)
PipeReach-IsOrdered r = let i = PipeReach-keeps r in (i.nodes, i.lines)
