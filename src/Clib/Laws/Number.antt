-- ===== src/Clib/Laws/Number.antt =====
-- `atoi` reads back what "%d" has written.
use finger_move.Base.{
  All, All-append, Bool-cases, [], arith, false, inl, inr, ltb, ltb→lt, pos, refl, subst, suc, true,
  zero, ℕ, ◌%◌, ◌*◌, ◌++◌, ◌+◌, ◌-◌, ◌/◌, ◌<◌, ◌^◌, ◌∷◌, ◌≡◌,
}
use finger_move.Clib.Number.{
  atoi, decimal, decimal_loop, digits_value, is_digit, is_space, signed, skip_space, to_int32,
}
use finger_move.Clib.Text.{Bytes, char_at}

-- Digits, and at least one.
abbrev pub AllDigits : Bytes → Type 0
AllDigits = All (λ c. is_digit c ≡ true)

digits_value-append :
    (acc : ℕ) (ds s : Bytes)
    → AllDigits ds
    → digits_value acc (ds ++ s) ≡ digits_value (digits_value acc ds) s
unfolding digits_value
digits_value-append acc [] s h = refl
digits_value-append acc (d ∷ ds) s h =
    ground (arith, digits_value-append (acc * 10 + (d - b'0')) ds s h.1)

decimal_loop-AllDigits : (f n : ℕ) → AllDigits (decimal_loop f n)
unfolding decimal_loop
decimal_loop-AllDigits zero n = tt
decimal_loop-AllDigits (suc f) n = elim (Bool-cases (ltb n 10)) [
  | inl e ↦ rw (e, decimal_loop) (ground arith, tt)
  | inr e ↦
      rw (e, decimal_loop)
        (All-append (λ c. is_digit c ≡ true) (decimal_loop f (n / 10)) _
          (decimal_loop-AllDigits f (n / 10)) (ground arith, tt))
]

digits_value-digit : (acc d : ℕ) → d < 10 → digits_value acc ((b'0' + d) ∷ []) ≡ acc * 10 + d
unfolding digits_value
digits_value-digit acc d h = ground arith

digits_value-decimal_loop : (f n : ℕ) → n < f → digits_value 0 (decimal_loop f n) ≡ n
unfolding decimal_loop
digits_value-decimal_loop zero n h = elim h [ ]
digits_value-decimal_loop (suc f) n h = elim (Bool-cases (ltb n 10)) [
  | inl e ↦ rw (e, decimal_loop) (omega (arith, digits_value-digit 0 n (ltb→lt n 10 e)))
  | inr e ↦
      rw (e, decimal_loop)
        (rw
          (
            digits_value-append 0 (decimal_loop f (n / 10)) _ (decimal_loop-AllDigits f (n / 10)),
            digits_value-decimal_loop f (n / 10) (ground arith),
          )
          (omega (arith, digits_value-digit (n / 10) (n % 10))))
]

digits_value-stop :
    (acc : ℕ) (s : Bytes) → is_digit (char_at s 0) ≡ false → digits_value acc s ≡ acc
unfolding digits_value
digits_value-stop acc [] h = refl
digits_value-stop acc (c ∷ s) h = ground arith

digits_value-decimal :
    (n : ℕ) (s : Bytes) → is_digit (char_at s 0) ≡ false → digits_value 0 (decimal n ++ s) ≡ n
unfolding decimal
digits_value-decimal n s h =
    rw
      (
        digits_value-append 0 (decimal_loop (suc n) n) s (decimal_loop-AllDigits (suc n) n),
        digits_value-decimal_loop (suc n) n (omega arith),
      )
      (digits_value-stop n s h)

pub decimal-AllDigits : (n : ℕ) → AllDigits (decimal n)
unfolding decimal
decimal-AllDigits n = decimal_loop-AllDigits (suc n) n

snoc-cons :
    (xs : Bytes) (c : ℕ)
    → AllDigits xs
    → is_digit c ≡ true
    → (d : ℕ) × (ds : Bytes) × (xs ++ c ∷ [] ≡ d ∷ ds) × (is_digit d ≡ true)
snoc-cons [] c a h = (c, [], refl, h)
snoc-cons (x ∷ xs) c a h = (x, xs ++ c ∷ [], refl, a.0)

pub decimal-cons : (n : ℕ) → (d : ℕ) × (ds : Bytes) × (decimal n ≡ d ∷ ds) × (is_digit d ≡ true)
unfolding decimal
decimal-cons n = elim (Bool-cases (ltb n 10)) [
  | inl e ↦ (b'0' + n, [], rw e, ground arith)
  | inr e ↦
      rw (e, decimal_loop)
        (snoc-cons (decimal_loop n (n / 10)) _ (decimal_loop-AllDigits n (n / 10)) (ground arith))
]

to_int32-small : (n : ℕ) → n < 2 ^ 31 → to_int32 (pos n) ≡ pos n
unfolding to_int32
to_int32-small n h = ground arith

signed-digits :
    (d : ℕ) (s : Bytes)
    → is_digit d ≡ true
    → digits_value 0 (d ∷ s) < 2 ^ 31
    → signed (skip_space (d ∷ s)) ≡ pos (digits_value 0 (d ∷ s))
unfolding skip_space
signed-digits d s h l =
    let e : is_space d ≡ false = ground arith in rw (e, skip_space) (ground arith)

-- What "%d" writes, with anything behind it but a digit, is read by `atoi` as the same number.
pub atoi-decimal :
    (n : ℕ) (s : Bytes)
    → n < 2 ^ 31
    → is_digit (char_at s 0) ≡ false
    → atoi (decimal n ++ s) ≡ pos n
unfolding atoi
atoi-decimal n s l h =
    let (d, ds, e, g) = decimal-cons n in
    let v : digits_value 0 (d ∷ (ds ++ s)) ≡ n =
      subst (λ (t : Bytes). digits_value 0 (t ++ s) ≡ n) e (digits_value-decimal n s h) in
    rw e (rw (signed-digits d (ds ++ s) g (rw v l)) (rw v (to_int32-small n l)))
