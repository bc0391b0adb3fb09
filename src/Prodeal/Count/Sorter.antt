-- ===== src/Prodeal/Count/Sorter.antt =====
-- What src/prodeal.cc relies on of std::sort.
use mathlib.Core.List.{Perm, Permᴰ}
use mathlib.Core.HLevel.{hedberg}
use mathlib.Core.Logic.{∥∥₁_elim}
use finger_move.Base.{
  All-map, Bool, List, Ordered, [], arith, false, refl, true, ℕ, ℕ_discrete, ◌∙◌, ◌∷◌, ◌≡◌, ◌≤◌,
}
use finger_move.Clib.{Bytes}
use finger_move.Prodeal.Count.{cmp}
use finger_move.Prodeal.Count.Tally.{count_of}
use finger_move.Prodeal.Select.Top.{Descending}

-- A comparison that std::sort accepts, a strict weak order.
pub record IsWeakOrder {ℓ} {A : Type ℓ} (lt : A → A → Bool) : Type ℓ where
  pub asym : (x y : A) → lt x y ≡ true → lt y x ≡ false
  pub negative_trans : (x y z : A) → lt x y ≡ false → lt y z ≡ false → lt x z ≡ false

abbrev pub Sort : Type 0
Sort = (Bytes × ℕ → Bytes × ℕ → Bool) → List (Bytes × ℕ) → List (Bytes × ℕ)

-- std::sort: the result has the same entries, and none of them is less than one before it.
pub record IsSorter (sort : Sort) : Type 0 where
  pub perm :
      (lt : Bytes × ℕ → Bytes × ℕ → Bool) (es : List (Bytes × ℕ))
      → IsWeakOrder lt
      → Perm (sort lt es) es
  pub sorted :
      (lt : Bytes × ℕ → Bytes × ℕ → Bool) (es : List (Bytes × ℕ))
      → IsWeakOrder lt
      → Ordered (λ x y. lt y x ≡ false) (sort lt es)

cmp-IsWeakOrder : IsWeakOrder cmp
cmp-IsWeakOrder = record {
  asym = λ x y h. ground arith;
  negative_trans = λ x y z h k. ground arith;
}

Ordered-map :
    (R S : Bytes × ℕ → Bytes × ℕ → Type 0) (es : List (Bytes × ℕ))
    → ((x y : Bytes × ℕ) → R x y → S x y)
    → Ordered R es
    → Ordered S es
Ordered-map R S [] f o = tt
Ordered-map R S (e ∷ es) f o = (All-map (R e) (S e) es (f e) o.0, Ordered-map R S es f o.1)

-- `cmp` puts the greatest counts first.
pub sort-Descending :
    (sort : Sort) (es : List (Bytes × ℕ)) → IsSorter sort → Descending (sort cmp es)
sort-Descending sort es s =
    Ordered-map (λ x y. cmp y x ≡ false) (λ x y. y.1 ≤ x.1) (sort cmp es) (λ x y h. ground arith)
      (s.sorted cmp es cmp-IsWeakOrder)

count_of-Permᴰ :
    (k : Bytes) {es fs : List (Bytes × ℕ)} → Permᴰ es fs → count_of k es ≡ count_of k fs
unfolding count_of
count_of-Permᴰ k Permᴰ.nil = refl
count_of-Permᴰ k (Permᴰ.cons e p) = rw e (omega (arith, count_of-Permᴰ k p))
count_of-Permᴰ k (Permᴰ.swap e f) = rw (e, f) (omega arith)
count_of-Permᴰ k (Permᴰ.trans p q) = count_of-Permᴰ k p ∙ count_of-Permᴰ k q

-- Sorting leaves each song's count.
pub count_of-sort :
    (sort : Sort) (k : Bytes) (es : List (Bytes × ℕ))
    → IsSorter sort
    → count_of k (sort cmp es) ≡ count_of k es
count_of-sort sort k es s =
    ∥∥₁_elim (s.perm cmp es cmp-IsWeakOrder) (hedberg ℕ_discrete _ _) (λ p. count_of-Permᴰ k p)
