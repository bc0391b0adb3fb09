-- ===== src/Prodeal/Move/Listing.antt =====
-- What readdir finds in the directory to which `movAfpFile` and `movCntFile` have moved files.
use finger_move.Base.{
  All, All-both, All-imp, List, Option, [], ap, append-nil, append_assoc, arith, false, if_neg,
  if_pos, map, none, refl, some, sym, true, ◌++◌, ◌∙◌, ◌∷◌, ◌≡◌, ◌≢◌,
}
use finger_move.Clib.{Bytes, Bytes-discrete}
use finger_move.Prodeal.Move.Chosen.{
  Chosen, DistinctNames, after_moves, lookup-moved_one, moved, same_path-differ,
}
use finger_move.World.Files.{
  FilePath, FilePath-discrete, FileTable, erase, lookup, lookup-erase, names_in, path, put,
}

abbrev pub names_of : Chosen → List Bytes
names_of = map (λ e. e.0)

pub names_in-erase :
    (d e n : Bytes) (t : FileTable) → d ≢ e → names_in d (erase (path e n) t) ≡ names_in d t
unfolding names_in erase
names_in-erase d e n [] h = refl
names_in-erase d e n ((p, s) ∷ t) h = elim (FilePath-discrete (path e n) p) [
  | yes x ↦
      let apart : d ≢ p.dir = (λ y. h (y ∙ ap (λ (z : FilePath). z.dir) (sym x))) in
      rw
        (
          if_pos (FilePath-discrete (path e n) p) x true false,
          if_neg (Bytes-discrete d p.dir) apart true false,
        )
        (names_in-erase d e n t h)
  | no x ↦ rw (if_neg (FilePath-discrete (path e n) p) x true false, names_in-erase d e n t h)
]

-- A file that is new comes last.
names_in-new :
    (d n s : Bytes) (t : FileTable)
    → lookup (path d n) t ≡ none
    → names_in d (put (path d n) s t) ≡ names_in d t ++ n ∷ []
unfolding names_in put lookup
names_in-new d n s [] h = rw (if_pos (Bytes-discrete d d) refl true false)
names_in-new d n s ((p, u) ∷ t) h = elim (FilePath-discrete (path d n) p) [
  | yes x ↦ absurd (ground (arith, h, x))
  | no x ↦
      let rest : lookup (path d n) t ≡ none =
        rw (if_neg (FilePath-discrete (path d n) p) x true false) at h in
      rw (if_neg (FilePath-discrete (path d n) p) x true false)
        (ground (arith, names_in-new d n s t rest))
]

pub names_in-none :
    (d : Bytes) (t : FileTable) → ((n : Bytes) → lookup (path d n) t ≡ none) → names_in d t ≡ []
unfolding names_in lookup
names_in-none d [] h = refl
names_in-none d ((p, s) ∷ t) h = elim (Bytes-discrete d p.dir) [
  | yes x ↦
      let here : path d p.name ≡ p = ap (λ (y : Bytes). path y p.name) x in
      absurd (
        ground
          (arith, rw (if_pos (FilePath-discrete (path d p.name) p) here true false) at (h p.name)))
  | no x ↦ rw (if_neg (Bytes-discrete d p.dir) x true false) (
      names_in-none d t (λ n.
        let apart : path d n ≢ p = (λ y. x (ap (λ (z : FilePath). z.dir) y)) in
        rw (if_neg (FilePath-discrete (path d n) p) apart true false) at (h n)))
]

module _ (org dst : Bytes) (differ : dst ≢ org) where
  -- The names that are still to come are new there.
  still_new :
      (n s : Bytes) (fs : Chosen) (t : FileTable)
      → All (λ (f : Bytes × Bytes). f.0 ≢ n) fs
      → All (λ (f : Bytes × Bytes). lookup (path dst f.0) t ≡ none) fs
      → All
          (λ (f : Bytes × Bytes).
            lookup (path dst f.0) (put (path dst n) s (erase (path org n) t)) ≡ none)
          fs
  still_new n s [] t d h = tt
  still_new n s (f ∷ fs) t d h = (
    lookup-moved_one org dst n s (path dst f.0) t
        ∙ rw (same_path-differ dst n (path dst f.0) (λ x. d.0 (sym x)))
            (rw (same_path-differ org n (path dst f.0) (λ x. d.0 (sym x))) h.0),
    still_new n s fs t d.1 h.1,
  )

  pub names_in-moved :
      (fs : Chosen) (t : FileTable)
      → DistinctNames fs
      → All (λ (f : Bytes × Bytes). lookup (path dst f.0) t ≡ none) fs
      → names_in dst (moved org dst fs t) ≡ names_in dst t ++ names_of fs
  unfolding moved
  names_in-moved [] t d h = sym (append-nil (names_in dst t))
  names_in-moved ((n, s) ∷ fs) t d h =
      let gone : lookup (path dst n) (erase (path org n) t) ≡ none =
        ground (arith, lookup-erase (path org n) (path dst n) t, h.0) in
      names_in-moved fs (put (path dst n) s (erase (path org n) t)) d.1 (still_new n s fs t d.0 h.1)
      ∙ ap (λ (l : List Bytes). l ++ names_of fs)
          (names_in-new dst n s (erase (path org n) t) gone
            ∙ ap (λ (l : List Bytes). l ++ n ∷ []) (names_in-erase dst org n t differ))
      ∙ append_assoc (names_in dst t) (n ∷ []) (names_of fs)

  -- Each of the files is there then.
  pub after_moves-each :
      (fs : Chosen)
      → DistinctNames fs
      → All
          (λ (f : Bytes × Bytes).
            (old : Option Bytes) → after_moves org dst fs (path dst f.0) old ≡ some f.1)
          fs
  unfolding after_moves
  after_moves-each [] d = tt
  after_moves-each (e ∷ fs) d = (
    λ old. rw (if_pos (FilePath-discrete (path dst e.0) (path dst e.0)) refl true false),
    All-imp
        (λ f h. λ old.
          rw (same_path-differ dst e.0 (path dst f.0) (λ x. h.0 (sym x)))
            (rw (same_path-differ org e.0 (path dst f.0) (λ x. h.0 (sym x))) (h.1 old)))
        fs (All-both _ _ fs d.0 (after_moves-each fs d.1)),
  )
