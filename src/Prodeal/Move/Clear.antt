-- ===== src/Prodeal/Move/Clear.antt =====
-- The first loop of `movAfpFile` and `movCntFile`, which empties a directory.
use finger_move.Base.{
  All, All-imp, Bool, List, Option, Option-cases, [], ap, arith, false, if_neg, if_pos,
  if◌then◌else◌, inl, inr, none, refl, subst, sym, true, ◌||◌, ◌∙◌, ◌∷◌, ◌≡◌, ◌≢◌,
}
use finger_move.Clib.{Bytes, Bytes-discrete, has_byte, same}
use finger_move.Prodeal.Move.{clear_entry}
use finger_move.Prodeal.Names.{is_dot_entry}
use finger_move.World.{World, done, for_each, ◌>>=◌, ◌>>◌}
use finger_move.World.Effects.{Fits, remove-not, remove-there, sprintf_path-fits}
use finger_move.World.Files.{
  FilePath, FilePath-discrete, FileTable, dot, dot_dot, erase, lookup, lookup-erase, names_in, path,
  same_path, slash,
}

-- An entry that the loop removes.
pub record CanClear (dst : Bytes) (w : World) (n : Bytes) : Type 0 where
  pub entry : is_dot_entry n ≡ false
  pub plain : has_byte slash n ≡ false
  pub fits : Fits dst n
  pub loose : w.locked (path dst n) ≡ false

-- The paths that a list of names stands for.
unfoldable pub mentions : Bytes → List Bytes → FilePath → Bool
mentions d [] q = false
mentions d (n ∷ ns) q = same_path (path d n) q || mentions d ns q

clear-run :
    (dst n : Bytes) (w : World)
    → CanClear dst w n
    → (fs : FileTable) × (clear_entry dst n w ≡ done tt (record w { files = fs }))
      × ((q : FilePath)
          → lookup q fs ≡ (if same_path (path dst n) q then none else lookup q w.files))
unfolding clear_entry
clear-run dst n w can = elim (Option-cases (lookup (path dst n) w.files)) [
  | inl gone ↦ (
    w.files,
    rw can.entry (
        rw (sprintf_path-fits dst n w can.fits, ◌>>=◌)
          (rw (remove-not dst n w can.plain (inr gone), ◌>>◌, ◌>>=◌))),
    λ q. ground (arith, gone),
  )
  | inr (s, there) ↦ (
    erase (path dst n) w.files,
    rw can.entry (
        rw (sprintf_path-fits dst n w can.fits, ◌>>=◌)
          (rw (remove-there dst n s w can.plain can.loose there, ◌>>◌, ◌>>=◌))),
    λ q. lookup-erase (path dst n) q w.files,
  )
]

pub CanClear-files :
    (dst : Bytes) (w : World) (fs : FileTable) (ns : List Bytes)
    → All (CanClear dst w) ns
    → All (CanClear dst (record w { files = fs })) ns
CanClear-files dst w fs =
    All-imp (λ n x. record { entry = x.entry; plain = x.plain; fits = x.fits; loose = x.loose })

clear-each :
    (dst : Bytes) (ns : List Bytes) (w : World)
    → All (CanClear dst w) ns
    → (fs : FileTable) × (for_each ns (clear_entry dst) w ≡ done tt (record w { files = fs }))
      × ((q : FilePath) → lookup q fs ≡ (if mentions dst ns q then none else lookup q w.files))
unfolding for_each mentions
clear-each dst [] w can = (w.files, refl, λ q. refl)
clear-each dst (n ∷ ns) w can =
    let (fs, ran, left) = clear-run dst n w can.0 in
    let (gs, ran', left') =
      clear-each dst ns (record w { files = fs }) (CanClear-files dst w fs ns can.1) in
    (gs, rw (ran, for_each) ran', λ q. ground (arith, left q, left' q))

mentions-elsewhere :
    (d : Bytes) (ns : List Bytes) (q : FilePath) → d ≢ q.dir → mentions d ns q ≡ false
unfolding mentions
mentions-elsewhere d [] q h = refl
mentions-elsewhere d (n ∷ ns) q h = elim (FilePath-discrete (path d n) q) [
  | yes p ↦ absurd (h (ap (λ (x : FilePath). x.dir) p))
  | no p ↦ rw (if_neg (FilePath-discrete (path d n) q) p true false) (mentions-elsewhere d ns q h)
]

-- A file is among the entries of its directory.
lookup-mentions :
    (d n : Bytes) (fs : FileTable)
    → (if mentions d (names_in d fs) (path d n) then none else lookup (path d n) fs) ≡ none
unfolding mentions names_in lookup
lookup-mentions d n [] = refl
lookup-mentions d n ((p, s) ∷ fs) = elim (Bytes-discrete d p.dir) [
  | no differ ↦
      let apart : path d n ≢ p = (λ x. differ (ap (λ (y : FilePath). y.dir) x)) in
      rw (if_neg (Bytes-discrete d p.dir) differ true false)
        (rw (if_neg (FilePath-discrete (path d n) p) apart true false) (lookup-mentions d n fs))
  | yes e ↦
      rw (if_pos (Bytes-discrete d p.dir) e true false)
        (elim (FilePath-discrete (path d p.name) (path d n)) [
          | yes x ↦ rw (if_pos (FilePath-discrete (path d p.name) (path d n)) x true false)
          | no x ↦
              let apart : path d n ≢ p = (λ y. x (ap (λ (z : FilePath). path d z.name) (sym y))) in
              rw (if_neg (FilePath-discrete (path d p.name) (path d n)) x true false) (
                rw (if_neg (FilePath-discrete (path d n) p) apart true false)
                  (lookup-mentions d n fs))
        ])
]

-- What the table holds when a directory has been emptied.
abbrev pub emptied : Bytes → FilePath → Option Bytes → Option Bytes
emptied d q old = if same d q.dir then none else old

-- The loop over a directory whose entries can be removed leaves no file in it, and every other
-- file as it was.
pub for_each-clear_entry :
    (dst : Bytes) (w : World)
    → All (CanClear dst w) (names_in dst w.files)
    → (fs : FileTable) × (for_each (dot ∷ dot_dot ∷ names_in dst w.files) (clear_entry dst) w
        ≡ done tt (record w { files = fs }))
      × ((q : FilePath) → lookup q fs ≡ emptied dst q (lookup q w.files))
unfolding for_each clear_entry Bytes-discrete
for_each-clear_entry dst w can =
    let (fs, ran, left) = clear-each dst (names_in dst w.files) w can in
    (
      fs,
      ran,
      λ q. left q ∙ elim (Bytes-discrete dst q.dir) [
        | yes e ↦ rw (if_pos (Bytes-discrete dst q.dir) e true false) (
            subst
              (λ (x : Bytes).
                (if mentions dst (names_in dst w.files) (path x q.name)
                  then none
                  else lookup (path x q.name) w.files)
                ≡ none)
              e (lookup-mentions dst q.name w.files))
        | no differ ↦
            rw (if_neg (Bytes-discrete dst q.dir) differ true false)
              (rw (mentions-elsewhere dst (names_in dst w.files) q differ))
      ],
    )
