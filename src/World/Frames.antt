-- ===== src/World/Frames.antt =====
-- Commands that change files only: they make no call, log nothing, and leave the configuration, the
-- list of sub caches and the directories alone.
use finger_move.Base.{
  Bool, Bool-cases, List, Option, Option-cases, [], ap, arith, false, if◌then◌else◌, inl, inr,
  length, ltb, none, not, refl, some, subst, sym, true, ◌++◌, ◌||◌, ◌∙◌, ◌∷◌, ◌≡◌, ◌⊎◌,
}
use finger_move.Clib.{Bytes, elem}
use finger_move.World.{
  Cmd, Run, World, done, fault, fclose_wb, fopen_rb, fopen_wb, for_each, list_dir, max_name_len,
  or_fault, pure, remove, rename, sprintf_path, writable, ◌>>=◌,
}
use finger_move.World.Files.{FileTable, dot, dot_dot, erase, locate, lookup, names_in, put, slash}

-- It ends in a fault, or in a world that differs in its files.
unfoldable pub OnlyFiles {ℓ} : {A : Type ℓ} → Cmd A → Type ℓ
OnlyFiles {A} m =
    (w : World)
    → (m w ≡ fault) ⊎ ((a : A) × (fs : FileTable) × (m w ≡ done a (record w { files = fs })))

module _ {ℓ} {A : Type ℓ} where
  pub OnlyFiles-pure : (a : A) → OnlyFiles (pure a)
  unfolding OnlyFiles
  OnlyFiles-pure a w = inr (a, w.files, refl)

  pub OnlyFiles->>= {κ} :
      {B : Type κ} (m : Cmd A) (f : A → Cmd B)
      → OnlyFiles m
      → ((a : A) → OnlyFiles (f a))
      → OnlyFiles (m >>= f)
  unfolding OnlyFiles
  OnlyFiles->>= m f h k w = elim (h w) [
    | inl e ↦ inl (rw (e, ◌>>=◌))
    | inr (a, fs, e) ↦ elim (k a (record w { files = fs })) [
      | inl e' ↦ inl (rw (e, ◌>>=◌) e')
      | inr (b, gs, e') ↦ inr (b, gs, rw (e, ◌>>=◌) e')
    ]
  ]

  pub OnlyFiles-for_each :
      (xs : List A) (body : A → Cmd (Unit {0}))
      → ((a : A) → OnlyFiles (body a))
      → OnlyFiles (for_each xs body)
  unfolding OnlyFiles for_each
  OnlyFiles-for_each [] body h w = inr (tt, w.files, refl)
  OnlyFiles-for_each (x ∷ xs) body h w = elim (h x w) [
    | inl e ↦ inl (rw (e, for_each))
    | inr (_, fs, e) ↦ elim (OnlyFiles-for_each xs body h (record w { files = fs })) [
      | inl e' ↦ inl (rw (e, for_each) e')
      | inr (b, gs, e') ↦ inr (b, gs, rw (e, for_each) e')
    ]
  ]

  pub OnlyFiles-or_fault : (o : Option A) → OnlyFiles (or_fault o)
  unfolding OnlyFiles
  OnlyFiles-or_fault none w = inl refl
  OnlyFiles-or_fault (some a) w = inr (a, w.files, refl)

  pub OnlyFiles-if :
      (b : Bool) (m n : Cmd A) → OnlyFiles m → OnlyFiles n → OnlyFiles (if b then m else n)
  OnlyFiles-if true m n h k = h
  OnlyFiles-if false m n h k = k

pub OnlyFiles-sprintf_path : (d n : Bytes) → OnlyFiles (sprintf_path d n)
unfolding OnlyFiles sprintf_path
OnlyFiles-sprintf_path d n w = elim (Bool-cases (ltb (length (d ++ slash ∷ n)) max_name_len)) [
  | inl e ↦ inr (d ++ slash ∷ n, w.files, rw e)
  | inr e ↦ inl (rw e)
]

pub OnlyFiles-list_dir : (d : Bytes) → OnlyFiles (list_dir d)
unfolding OnlyFiles list_dir
OnlyFiles-list_dir d w = elim (Bool-cases (elem d w.dirs)) [
  | inl e ↦ inr (some (dot ∷ dot_dot ∷ names_in d w.files), w.files, rw e)
  | inr e ↦ inr (none, w.files, rw e)
]

pub OnlyFiles-fopen_rb : (p : Bytes) → OnlyFiles (fopen_rb p)
unfolding OnlyFiles fopen_rb
OnlyFiles-fopen_rb p w = elim (Bool-cases (w.locked (locate p))) [
  | inl e ↦ inr (none, w.files, rw e)
  | inr e ↦ inr (lookup (locate p) w.files, w.files, rw e)
]

pub OnlyFiles-fopen_wb : (p : Bytes) → OnlyFiles (fopen_wb p)
unfolding OnlyFiles fopen_wb
OnlyFiles-fopen_wb p w = elim (Bool-cases (writable (locate p) w)) [
  | inl e ↦ inr (true, put (locate p) [] w.files, rw e)
  | inr e ↦ inr (false, w.files, rw e)
]

pub OnlyFiles-fclose_wb : (p s : Bytes) → OnlyFiles (fclose_wb p s)
unfolding OnlyFiles fclose_wb
OnlyFiles-fclose_wb p s w = inr (tt, put (locate p) s w.files, refl)

pub OnlyFiles-remove : (p : Bytes) → OnlyFiles (remove p)
unfolding OnlyFiles remove
OnlyFiles-remove p w = elim (Bool-cases (w.locked (locate p))) [
  | inl e ↦ inr (true, w.files, rw e)
  | inr e ↦ elim (Option-cases (lookup (locate p) w.files)) [
    | inl gone ↦ inr (true, w.files, rw e (rw gone))
    | inr (s, there) ↦ inr (false, erase (locate p) w.files, rw e (rw there))
  ]
]

pub OnlyFiles-rename : (p q : Bytes) → OnlyFiles (rename p q)
unfolding OnlyFiles rename
OnlyFiles-rename p q w = elim (Bool-cases (w.locked (locate p) || not (writable (locate q) w))) [
  | inl e ↦ inr (tt, w.files, rw e)
  | inr e ↦ elim (Option-cases (lookup (locate p) w.files)) [
    | inl gone ↦ inr (tt, w.files, rw e (rw gone))
    | inr (s, there) ↦ inr (tt, put (locate q) s (erase (locate p) w.files), rw e (rw there))
  ]
]

-- What is known of the world behind such a command.
pub OnlyFiles-world {ℓ} :
    {A : Type ℓ} (m : Cmd A) (a : A) (w v : World)
    → OnlyFiles m
    → m w ≡ done a v
    → v ≡ record w { files = v.files }
unfolding OnlyFiles
OnlyFiles-world m a w v h e = elim (h w) [
  | inl f ↦ absurd (ground (arith, f, e))
  | inr (b, fs, f) ↦
      let same_world : record w { files = fs } ≡ v =
        ap (λ (r : Run _). elim r [ done _ u ↦ u | fault ↦ w ]) (sym f ∙ e) in
      subst (λ (u : World). u ≡ record w { files = u.files }) same_world refl
]
