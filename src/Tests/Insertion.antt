-- ===== src/Tests/Insertion.antt =====
-- A sort that has what the program relies on of std::sort.
use mathlib.Core.List.{Perm}
use mathlib.Core.List.Perm
use finger_move.Base.{
  All, All-map, Bool, Bool-cases, List, Ordered, [], false, if◌then◌else◌, inl, inr, ℕ, ◌∷◌, ◌≡◌,
}
use finger_move.Clib.{Bytes}
use finger_move.Prodeal.Count.Sorter.{IsSorter, IsWeakOrder, Sort}

unfoldable pub insert :
    (Bytes × ℕ → Bytes × ℕ → Bool) → Bytes × ℕ → List (Bytes × ℕ) → List (Bytes × ℕ)
insert lt x [] = x ∷ []
insert lt x (y ∷ ys) = let rest = insert lt x ys in if lt x y then x ∷ y ∷ ys else y ∷ rest

unfoldable pub insertion : Sort
unfolding insert
insertion lt [] = []
insertion lt (e ∷ es) = insert lt e (insertion lt es)

insert-Perm :
    (lt : Bytes × ℕ → Bytes × ℕ → Bool) (x : Bytes × ℕ) (ys : List (Bytes × ℕ))
    → Perm (insert lt x ys) (x ∷ ys)
unfolding insert
insert-Perm lt x [] = Perm.rfl
insert-Perm lt x (y ∷ ys) = elim (Bool-cases (lt x y)) [
  | inl e ↦ rw (e, insert) Perm.rfl
  | inr e ↦ rw (e, insert) (Perm.trans (Perm.cons y (insert-Perm lt x ys)) (Perm.swap x y ys))
]

insertion-Perm :
    (lt : Bytes × ℕ → Bytes × ℕ → Bool) (es : List (Bytes × ℕ)) → Perm (insertion lt es) es
unfolding insertion
insertion-Perm lt [] = Perm.rfl
insertion-Perm lt (e ∷ es) =
    Perm.trans (insert-Perm lt e (insertion lt es)) (Perm.cons e (insertion-Perm lt es))

insert-All :
    (lt : Bytes × ℕ → Bytes × ℕ → Bool) (P : Bytes × ℕ → Type 0) (x : Bytes × ℕ)
    (ys : List (Bytes × ℕ))
    → P x
    → All P ys
    → All P (insert lt x ys)
unfolding insert
insert-All lt P x [] h a = (h, tt)
insert-All lt P x (y ∷ ys) h a = elim (Bool-cases (lt x y)) [
  | inl e ↦ rw (e, insert) (h, a)
  | inr e ↦ rw (e, insert) (a.0, insert-All lt P x ys h a.1)
]

insert-Ordered :
    (lt : Bytes × ℕ → Bytes × ℕ → Bool) (x : Bytes × ℕ) (ys : List (Bytes × ℕ))
    → IsWeakOrder lt
    → Ordered (λ a b. lt b a ≡ false) ys
    → Ordered (λ a b. lt b a ≡ false) (insert lt x ys)
unfolding insert
insert-Ordered lt x [] o h = (tt, tt)
insert-Ordered lt x (y ∷ ys) o h = elim (Bool-cases (lt x y)) [
  | inl e ↦
      rw (e, insert)
        (
          (
            o.asym x y e,
            All-map (λ b. lt b y ≡ false) (λ b. lt b x ≡ false) ys
                (λ b k. o.negative_trans b y x k (o.asym x y e)) h.0,
          ),
          h,
        )
  | inr e ↦
      rw (e, insert) (insert-All lt (λ b. lt b y ≡ false) x ys e h.0, insert-Ordered lt x ys o h.1)
]

insertion-Ordered :
    (lt : Bytes × ℕ → Bytes × ℕ → Bool) (es : List (Bytes × ℕ))
    → IsWeakOrder lt
    → Ordered (λ a b. lt b a ≡ false) (insertion lt es)
unfolding insertion
insertion-Ordered lt [] o = tt
insertion-Ordered lt (e ∷ es) o =
    insert-Ordered lt e (insertion lt es) o (insertion-Ordered lt es o)

pub insertion-IsSorter : IsSorter insertion
insertion-IsSorter = record { perm = λ lt es o. insertion-Perm lt es; sorted = insertion-Ordered }
