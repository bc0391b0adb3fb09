-- ===== src/Clib/Laws/Order.antt =====
-- `strcmp` is a strict order on byte strings.
use Prim.Native.Nat.{Ordering}
use finger_move.Base.{[], arith, inl, inr, refl, ◌∷◌, ◌≡◌, ◌⊎◌}
use finger_move.Clib.Text.{Bytes, strcmp}

pub Ordering-cases : (o : Ordering) → (o ≡ Ordering.lt) ⊎ (o ≡ Ordering.eq) ⊎ (o ≡ Ordering.gt)
Ordering-cases Ordering.lt = inl refl
Ordering-cases Ordering.eq = inr (inl refl)
Ordering-cases Ordering.gt = inr (inr refl)

pub strcmp-eq : (a b : Bytes) → strcmp a b ≡ Ordering.eq → a ≡ b
unfolding strcmp
strcmp-eq [] [] h = refl
strcmp-eq [] (y ∷ b) h = cc
strcmp-eq (x ∷ a) [] h = cc
strcmp-eq (x ∷ a) (y ∷ b) h = ground (arith, strcmp-eq a b)

pub strcmp-gt : (a b : Bytes) → strcmp a b ≡ Ordering.gt → strcmp b a ≡ Ordering.lt
unfolding strcmp
strcmp-gt [] [] h = cc
strcmp-gt [] (y ∷ b) h = cc
strcmp-gt (x ∷ a) [] h = refl
strcmp-gt (x ∷ a) (y ∷ b) h = ground (arith, strcmp-gt a b)

pub strcmp_trans :
    (a b c : Bytes) → strcmp a b ≡ Ordering.lt → strcmp b c ≡ Ordering.lt → strcmp a c ≡ Ordering.lt
unfolding strcmp
strcmp_trans [] [] c h k = cc
strcmp_trans [] (y ∷ b) [] h k = cc
strcmp_trans [] (y ∷ b) (z ∷ c) h k = refl
strcmp_trans (x ∷ a) [] c h k = cc
strcmp_trans (x ∷ a) (y ∷ b) [] h k = cc
strcmp_trans (x ∷ a) (y ∷ b) (z ∷ c) h k = ground (arith, strcmp_trans a b c)
