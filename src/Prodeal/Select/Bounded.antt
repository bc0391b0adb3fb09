-- ===== src/Prodeal/Select/Bounded.antt =====
-- How many songs `topAfpFile` can return.
use finger_move.Base.{
  Bool-cases, List, Option, Option-cases, [], arith, inl, inr, leb, leb_ℤ, minus_one, none, pos,
  some, true, ℕ, ℤ, ◌+◌, ◌∷◌, ◌≡◌, ◌≤◌,
}
use finger_move.Clib.{Bytes, lines}
use finger_move.Prodeal.Names.{flt_logs_file, or_error, top_afps_file}
use finger_move.Prodeal.Select.{afp_line, parse_count, top_afp_file, top_loop}
use finger_move.World.{Cmd, fclose_wb, fopen_rb, fopen_wb, pure, sprintf_path}
use finger_move.World.Results.{Returns, Returns->>=, Returns-if, Returns-or_fault, Returns-pure}

top_loop-bounded :
    (limit : ℕ) (cnt : ℤ) (ls : List Bytes) (count : ℕ) (r : ℕ × Bytes)
    → count ≤ limit
    → top_loop limit cnt ls count ≡ some r
    → r.0 ≤ limit
unfolding top_loop
top_loop-bounded limit cnt [] count r h e = ground (arith, h, e)
top_loop-bounded limit cnt (l ∷ ls) count r h e = elim (Bool-cases (leb limit count)) [
  | inl full ↦ ground (arith, full, h, e)
  | inr more ↦ elim (Option-cases (parse_count l)) [
    | inl bad ↦ ground (arith, more, bad, e)
    | inr ((k, n), parsed) ↦ elim (Bool-cases (leb_ℤ n cnt)) [
      | inl low ↦ ground (arith, more, parsed, low, h, e)
      | inr high ↦ elim (Option-cases (afp_line k)) [
        | inl long ↦ ground (arith, more, parsed, high, long, e)
        | inr (text, fits) ↦ elim (Option-cases (top_loop limit cnt ls (count + 1))) [
          | inl stops ↦ ground (arith, more, parsed, high, fits, stops, e)
          | inr (q, ends) ↦
              let bound = top_loop-bounded limit cnt ls (count + 1) q (ground (arith, more)) ends in
              ground (arith, more, parsed, high, fits, ends, bound, e)
        ]
      ]
    ]
  ]
]

abbrev AtMost : ℕ → ℤ → Type 0
AtMost limit a = leb_ℤ a (pos limit) ≡ true

or_error-AtMost :
    {A : Type 0} (limit : ℕ) (m : Cmd (Option A)) (k : A → Cmd ℤ)
    → ((a : A) → Returns (AtMost limit) (k a))
    → Returns (AtMost limit) (or_error m k)
or_error-AtMost limit m k h = Returns->>= (AtMost limit) m _ (λ o. opened o)
  where
    opened :
        (o : Option _) → Returns (AtMost limit) (elim o [ none ↦ pure minus_one | some a ↦ k a ])
    opened none = Returns-pure (AtMost limit) minus_one (ground arith)
    opened (some a) = h a

pub top_afp_file-bounded :
    (limit : ℕ) (org dst : Bytes) (cnt : ℤ)
    → Returns (λ a. leb_ℤ a (pos limit) ≡ true) (top_afp_file limit org dst cnt)
unfolding top_afp_file
top_afp_file-bounded limit org dst cnt =
    Returns->>= (AtMost limit) (sprintf_path org flt_logs_file) _ (λ p.
      or_error-AtMost limit (fopen_rb p) _ (λ logs.
        Returns->>= (AtMost limit) (sprintf_path dst top_afps_file) _ (λ q.
          Returns->>= (AtMost limit) (fopen_wb q) _ (λ b.
            Returns-if (AtMost limit) b _ (pure minus_one)
              (Returns-or_fault (AtMost limit) (top_loop limit cnt (lines logs) 0) _ (λ r e.
                Returns->>= (AtMost limit) (fclose_wb q r.1) _ (λ _.
                  Returns-pure (AtMost limit) (pos r.0)
                    (ground (arith, top_loop-bounded limit cnt (lines logs) 0 r (omega arith) e)))))
              (Returns-pure (AtMost limit) minus_one (ground arith))))))
