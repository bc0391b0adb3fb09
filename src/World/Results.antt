-- ===== src/World/Results.antt =====
-- What is known of the results of a command, whatever the world.
use finger_move.Base.{
  Bool, Option, ap, arith, false, if◌then◌else◌, inl, inr, none, refl, some, subst, true, ◌≡◌,
}
use finger_move.World.{Cmd, Run, Run-cases, World, done, fault, or_fault, pure, ◌>>=◌}

unfoldable pub Returns {ℓ κ} : {A : Type ℓ} → (A → Type κ) → Cmd A → Type (ℓ ⊔ κ)
Returns {A} P m = (w v : World) (a : A) → m w ≡ done a v → P a

-- What a run returned, or a default for a fault.
abbrev value_or {ℓ} : {A : Type ℓ} → A → Run A → A
value_or a (done b w) = b
value_or a fault = a

module _ {ℓ κ} {A : Type ℓ} (P : A → Type κ) where
  pub Returns-pure : (a : A) → P a → Returns P (pure a)
  unfolding Returns
  Returns-pure a p w v b e = subst P (ap (value_or a) e) p

  pub Returns->>= {μ} :
      {B : Type μ} (m : Cmd B) (f : B → Cmd A) → ((b : B) → Returns P (f b)) → Returns P (m >>= f)
  unfolding Returns
  Returns->>= m f h w v a e = elim (Run-cases (m w)) [
    | inl fails ↦ absurd (ground (arith, (rw (fails, ◌>>=◌) at e)))
    | inr (b, u, ends) ↦ h b u v a (rw (ends, ◌>>=◌) at e)
  ]

  pub Returns-or_fault {μ} :
      {B : Type μ} (o : Option B) (f : B → Cmd A)
      → ((b : B) → o ≡ some b → Returns P (f b))
      → Returns P (or_fault o >>= f)
  unfolding Returns
  Returns-or_fault none f h w v a e = absurd (ground (arith, e))
  Returns-or_fault (some b) f h w v a e = h b refl w v a e

  pub Returns-if :
      (b : Bool) (m n : Cmd A) → Returns P m → Returns P n → Returns P (if b then m else n)
  Returns-if true m n h k = h
  Returns-if false m n h k = k

-- What follows a command that follows another follows both.
pub bind_assoc {ℓ κ μ} :
    {A : Type ℓ} {B : Type κ} {C : Type μ} (m : Cmd A) (f : A → Cmd B) (g : B → Cmd C)
    → ((m >>= f) >>= g) ≡ (m >>= λ a. f a >>= g)
bind_assoc m f g i w = at w i
  where
    at : (w : World) → ((m >>= f) >>= g) w ≡ (m >>= λ a. f a >>= g) w
    at w = elim (Run-cases (m w)) [
      | inl fails ↦ rw (fails, ◌>>=◌)
      | inr (a, v, ends) ↦ rw (ends, ◌>>=◌)
    ]
