-- ===== src/Tpqueue/Fifo.antt =====
-- The linked list behind src/tpqueue.h as a queue of node addresses.
use finger_move.Base.{
  All, All-append, Bool-cases, List, Ordered, [], arith, false, inl, inr, length, length-append,
  refl, some, suc, sym, true, ℕ, ◌++◌, ◌+◌, ◌<◌, ◌∙◌, ◌∷◌, ◌≡◌, ◌≢◌, ◌≤◌, ◌⊎◌,
}
use finger_move.Tpqueue.{
  Node, PQueue, Tail, at_head, at_next, delete_from, destroy, get, link, put, resetqueue, returns,
  set_next, unlink, waits,
}

-- From `p` the `next` pointers lead through `xs` to the null pointer.
abbrev pub Chain {ℓ} : {T : Type ℓ} → (ℕ → Node T) → ℕ → List ℕ → Type 0
Chain mem p [] = p ≡ 0
Chain mem p (x ∷ xs) = (p ≡ x) × (x ≢ 0) × Chain mem (mem x).next xs

-- Where `m_tail` has to point.
abbrev pub tail_of : List ℕ → Tail
tail_of [] = at_head
tail_of (x ∷ []) = at_next x
tail_of (x ∷ y ∷ ys) = tail_of (y ∷ ys)

abbrev pub Fresh : ℕ → List ℕ → Type 0
Fresh v xs = All (λ x. x ≢ v) xs

-- No node stands twice.
abbrev pub Distinct : List ℕ → Type 0
Distinct xs = Ordered (λ x y. y ≢ x) xs

pub record IsQueue {ℓ} {T : Type ℓ} (q : PQueue T) (xs : List ℕ) : Type 0 where
  pub chain : Chain q.mem q.head xs
  pub last : q.tail ≡ tail_of xs
  pub size : q.cur_size ≡ length xs
  pub distinct : Distinct xs

Fresh-tail : (v p y : ℕ) (ys : List ℕ) → Fresh v (y ∷ ys) → tail_of (y ∷ ys) ≡ at_next p → p ≢ v
Fresh-tail v p y [] f e = ground arith
Fresh-tail v p y (z ∷ zs) f e = Fresh-tail v p z zs f.1 e

Distinct-snoc : (v : ℕ) (xs : List ℕ) → Fresh v xs → Distinct xs → Distinct (xs ++ v ∷ [])
Distinct-snoc v [] f d = (tt, tt)
Distinct-snoc v (x ∷ xs) f d =
    (All-append (λ y. y ≢ x) xs (v ∷ []) d.0 ((λ e. f.0 (sym e)), tt), Distinct-snoc v xs f.1 d.1)

tail_of-snoc : (v : ℕ) (xs : List ℕ) → tail_of (xs ++ v ∷ []) ≡ at_next v
tail_of-snoc v [] = refl
tail_of-snoc v (x ∷ []) = refl
tail_of-snoc v (x ∷ y ∷ ys) = tail_of-snoc v (y ∷ ys)

tail_of-cons : (x : ℕ) (xs : List ℕ) → (p : ℕ) × (tail_of (x ∷ xs) ≡ at_next p)
tail_of-cons x [] = (x, refl)
tail_of-cons x (y ∷ ys) = tail_of-cons y ys

module _ {ℓ} {T : Type ℓ} where
  -- The write to the last node's `m_next` hangs the new node behind it.
  Chain-snoc :
      (mem : ℕ → Node T) (v p h x : ℕ) (xs : List ℕ)
      → v ≢ 0
      → Fresh v (x ∷ xs)
      → Distinct (x ∷ xs)
      → tail_of (x ∷ xs) ≡ at_next p
      → Chain mem h (x ∷ xs)
      → Chain (set_next (set_next mem v 0) p v) h (x ∷ xs ++ v ∷ [])
  Chain-snoc mem v p h x [] nz f d e c = ground arith
  Chain-snoc mem v p h x (y ∷ ys) nz f d e c = (
    c.0,
    c.1,
    ground
        (arith, Fresh-tail x p y ys d.0 e, Chain-snoc mem v p (mem x).next y ys nz f.1 d.1 e c.2),
  )

  link-IsQueue :
      (q : PQueue T) (xs : List ℕ) (v : ℕ)
      → v ≢ 0
      → Fresh v xs
      → IsQueue q xs
      → IsQueue (link v q) (xs ++ v ∷ [])
  unfolding link
  link-IsQueue q [] v nz f i =
      rw (i.last, link)
        (record {
          chain = ground arith;
          last = refl;
          size = ground (arith, i.size);
          distinct = (tt, tt);
        })
  link-IsQueue q (x ∷ xs) v nz f i =
      let (p, e) = tail_of-cons x xs in
      rw (i.last ∙ e, link)
        (record {
          chain = Chain-snoc q.mem v p q.head x xs nz f i.distinct e i.chain;
          last = sym (tail_of-snoc v (x ∷ xs));
          size = ground (arith, i.size, length-append (x ∷ xs) (v ∷ []));
          distinct = Distinct-snoc v (x ∷ xs) f i.distinct;
        })

  -- put waits exactly when the queue is full, and leaves it as it is; otherwise it adds the node
  -- behind all others. The node is new and not null, and the list of nodes in memory is well
  -- formed, before and after.
  pub put-IsQueue :
      (q : PQueue T) (xs : List ℕ) (v : ℕ)
      → v ≢ 0
      → Fresh v xs
      → IsQueue q xs
      → let (e, _, q') = put v q in
        ((q.max_size ≤ length xs) × (e ≡ waits) × IsQueue q' xs)
        ⊎ ((length xs < q.max_size) × (e ≡ returns 0) × IsQueue q' (xs ++ v ∷ []))
  unfolding put
  put-IsQueue q xs v nz f i = ground (arith, link-IsQueue q xs v nz f i)

  unlink-IsQueue :
      (q : PQueue T) (x : ℕ) (xs : List ℕ)
      → IsQueue q (x ∷ xs)
      → (q.head ≡ x) × IsQueue (unlink q) xs
  unfolding unlink
  unlink-IsQueue q x [] i = (
    i.chain.0,
    record { chain = ground arith; last = ground arith; size = ground arith; distinct = tt },
  )
  unlink-IsQueue q x (y ∷ ys) i = (
    i.chain.0,
    record {
      chain = ground arith;
      last = ground arith;
      size = ground arith;
      distinct = i.distinct.1;
    },
  )

  -- get returns null, and takes nothing, if the flag is set. Otherwise it waits exactly when the
  -- queue is empty, and takes off the node that was put first when it is not. The list of nodes in
  -- memory is well formed, before and after.
  pub get-IsQueue :
      (q : PQueue T) (xs : List ℕ)
      → IsQueue q xs
      → let (e, _, q') = get q in
        ((q.over_flag ≡ true) × (e ≡ returns 0) × IsQueue q' xs)
        ⊎ ((q.over_flag ≡ false) × (xs ≡ []) × (e ≡ waits) × IsQueue q' [])
        ⊎ ((x : ℕ) × (ys : List ℕ) × (q.over_flag ≡ false)
            × (xs ≡ x ∷ ys)
            × (e ≡ returns x)
            × IsQueue q' ys)
  unfolding get
  get-IsQueue q [] i = ground arith
  get-IsQueue q (x ∷ xs) i = elim (Bool-cases q.over_flag) [
    | inl on ↦ ground (arith, i.size)
    | inr off ↦ ground (arith, i.size, unlink-IsQueue q x xs i)
  ]

  delete_from-Chain :
      (mem : ℕ → Node T) (p : ℕ) (xs : List ℕ)
      → Chain mem p xs
      → delete_from (suc (length xs)) mem p ≡ some xs
  unfolding delete_from
  delete_from-Chain mem p [] c = ground arith
  delete_from-Chain mem p (x ∷ xs) c = ground (arith, delete_from-Chain mem (mem x).next xs c.2)

  -- resetqueue and the destructor end: their loop frees each node of the queue once, in order, and
  -- needs one round more than there are nodes to see the end. After resetqueue the queue is empty.
  -- The list of nodes in memory is well formed before.
  pub resetqueue-IsQueue :
      (q : PQueue T) (xs : List ℕ)
      → IsQueue q xs
      → (delete_from (q.cur_size + 1) q.mem q.head ≡ some xs)
        × (destroy (q.cur_size + 1) q ≡ some xs)
        × IsQueue (resetqueue q) []
  unfolding resetqueue destroy
  resetqueue-IsQueue q xs i =
      let e : q.cur_size + 1 ≡ suc (length xs) = omega (arith, i.size) in
      let freed : delete_from (q.cur_size + 1) q.mem q.head ≡ some xs =
        rw e (delete_from-Chain q.mem q.head xs i.chain) in
      (freed, freed, record { chain = refl; last = refl; size = refl; distinct = tt })
