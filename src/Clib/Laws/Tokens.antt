-- ===== src/Clib/Laws/Tokens.antt =====
-- Tokens and substrings at a delimiter.
use finger_move.Base.{
  [], ap, ap₂, arith, drop, false, length, refl, some, take, true, ℕ, ◌++◌, ◌==◌, ◌∷◌, ◌≡◌,
}
use finger_move.Clib.Text.{Bytes, after, before, find, has_byte, skip, strtok}

pub before-delimiter : (c : ℕ) (a r : Bytes) → has_byte c a ≡ false → before c (a ++ c ∷ r) ≡ a
unfolding before has_byte
before-delimiter c [] r h = ground arith
before-delimiter c (x ∷ a) r h = ground (arith, before-delimiter c a r)

pub after-delimiter : (c : ℕ) (a r : Bytes) → has_byte c a ≡ false → after c (a ++ c ∷ r) ≡ r
unfolding after has_byte
after-delimiter c [] r h = ground arith
after-delimiter c (x ∷ a) r h = ground (arith, after-delimiter c a r)

has_byte-head : (c x : ℕ) (a : Bytes) → has_byte c (x ∷ a) ≡ false → (x == c) ≡ false
unfolding has_byte
has_byte-head c x a h = ground arith

-- A token that is not empty ends at the delimiter.
pub strtok-token :
    (c x : ℕ) (a r : Bytes)
    → has_byte c (x ∷ a) ≡ false
    → strtok c (x ∷ (a ++ c ∷ r)) ≡ some (x ∷ a, r)
unfolding strtok skip
strtok-token c x a r h =
    rw (has_byte-head c x a h, strtok)
      (ap₂ (λ (t u : Bytes). some (t, u)) (before-delimiter c (x ∷ a) r h)
        (after-delimiter c (x ∷ a) r h))

before-none : (c : ℕ) (a : Bytes) → has_byte c a ≡ false → before c a ≡ a
unfolding before has_byte
before-none c [] h = refl
before-none c (x ∷ a) h = ground (arith, before-none c a)

after-none : (c : ℕ) (a : Bytes) → has_byte c a ≡ false → after c a ≡ []
unfolding after has_byte
after-none c [] h = refl
after-none c (x ∷ a) h = ground (arith, after-none c a)

-- The last token ends with the string.
pub strtok-last :
    (c x : ℕ) (a : Bytes) → has_byte c (x ∷ a) ≡ false → strtok c (x ∷ a) ≡ some (x ∷ a, [])
unfolding strtok skip
strtok-last c x a h =
    rw (has_byte-head c x a h, strtok)
      (ap₂ (λ (t u : Bytes). some (t, u)) (before-none c (x ∷ a) h) (after-none c (x ∷ a) h))

-- A delimiter in front is passed over.
pub strtok-delimiter : (c : ℕ) (s : Bytes) → strtok c (c ∷ s) ≡ strtok c s
unfolding strtok skip
strtok-delimiter c s = let e : (c == c) ≡ true = ground arith in rw (e, strtok)

pub find-delimiter :
    (c : ℕ) (a r : Bytes) → has_byte c a ≡ false → find c (a ++ c ∷ r) ≡ some (length a)
unfolding find has_byte
find-delimiter c [] r h = ground arith
find-delimiter c (x ∷ a) r h = ground (arith, find-delimiter c a r)

pub drop-append : (a r : Bytes) (n : ℕ) → n ≡ length a → drop n (a ++ r) ≡ r
drop-append a r n e = rw e (go a)
  where
    go : (b : Bytes) → drop (length b) (b ++ r) ≡ r
    go [] = refl
    go (x ∷ b) = go b

pub take-append : (a r : Bytes) (n : ℕ) → n ≡ length a → take n (a ++ r) ≡ a
take-append a r n e = rw e (go a)
  where
    go : (b : Bytes) → take (length b) (b ++ r) ≡ b
    go [] = refl
    go (x ∷ b) = ap (◌∷◌ x) (go b)
