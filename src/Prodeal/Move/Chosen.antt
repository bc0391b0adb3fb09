-- ===== src/Prodeal/Move/Chosen.antt =====
-- What `movAfpFile` and `movCntFile` do with a whole list of chosen files.
use finger_move.Base.{
  All, All-both, All-imp, List, Option, Ordered, [], ap, false, if_neg, if◌then◌else◌, none, refl,
  some, subst, sym, true, ◌∙◌, ◌∷◌, ◌≡◌, ◌≢◌,
}
use finger_move.Clib.{Bytes, Bytes-discrete}
use finger_move.Clib.Laws.Lines.{terminated}
use finger_move.Prodeal.Move.{move_line}
use finger_move.Prodeal.Move.Rename.{CanMove, lookup-renamed, move_line-renames, renamed}
use finger_move.World.{World, done, for_each}
use finger_move.World.Files.{
  FilePath, FilePath-discrete, FileTable, erase, lookup, lookup-erase, lookup-put, path, put,
  same_path,
}

-- The chosen files, by their names and what they hold, and the lines that name them.
abbrev pub Chosen : Type 0
Chosen = List (Bytes × Bytes)

abbrev pub chosen_lines : Chosen → List Bytes
chosen_lines [] = []
chosen_lines ((n, s) ∷ fs) = terminated n ∷ chosen_lines fs

-- What a path holds when one file has moved, and when all have.
abbrev pub after_move : Bytes → Bytes → Bytes × Bytes → FilePath → Option Bytes → Option Bytes
after_move org dst (n, s) q old =
    if same_path (path dst n) q then some s else if same_path (path org n) q then none else old

unfoldable pub after_moves : Bytes → Bytes → Chosen → FilePath → Option Bytes → Option Bytes
after_moves org dst [] q old = old
after_moves org dst (e ∷ fs) q old = after_move org dst e q (after_moves org dst fs q old)

-- The names differ.
abbrev pub DistinctNames : Chosen → Type 0
DistinctNames = Ordered (λ x y. y.0 ≢ x.0)

pub same_path-differ : (d n : Bytes) (q : FilePath) → n ≢ q.name → same_path (path d n) q ≡ false
same_path-differ d n q h = elim (FilePath-discrete (path d n) q) [
  | yes p ↦ absurd (h (ap (λ (x : FilePath). x.name) p))
  | no p ↦ if_neg (FilePath-discrete (path d n) q) p true false
]

pub after_moves-other :
    (org dst : Bytes) (fs : Chosen) (q : FilePath) (old : Option Bytes)
    → All (λ (e : Bytes × Bytes). e.0 ≢ q.name) fs
    → after_moves org dst fs q old ≡ old
unfolding after_moves
after_moves-other org dst [] q old h = refl
after_moves-other org dst ((n, s) ∷ fs) q old h =
    rw (same_path-differ dst n q h.0)
      (rw (same_path-differ org n q h.0) (after_moves-other org dst fs q old h.1))

-- The first of the moves can as well come last.
after_moves-after_move :
    (org dst : Bytes) (e : Bytes × Bytes) (fs : Chosen) (q : FilePath) (old : Option Bytes)
    → All (λ (f : Bytes × Bytes). f.0 ≢ e.0) fs
    → after_moves org dst fs q (after_move org dst e q old)
      ≡ after_move org dst e q (after_moves org dst fs q old)
after_moves-after_move org dst (n, s) fs q old h = elim (Bytes-discrete n q.name) [
  | yes p ↦
      let others = subst (λ (m : Bytes). All (λ (f : Bytes × Bytes). f.0 ≢ m) fs) p h in
      after_moves-other org dst fs q _ others
      ∙ ap (after_move org dst (n, s) q) (sym (after_moves-other org dst fs q old others))
  | no p ↦ rw (same_path-differ dst n q p) (rw (same_path-differ org n q p))
]

CanMove-renamed :
    (org dst : Bytes) (e f : Bytes × Bytes) (w : World)
    → f.0 ≢ e.0
    → CanMove org dst w f
    → CanMove org dst (renamed org dst e.0 e.1 w) f
CanMove-renamed org dst (n, s) (m, t) w differ can =
    let apart : n ≢ m = (λ p. differ (sym p)) in
    record {
      plain = can.plain;
      fits = can.fits;
      holds = record {
        fits = can.holds.fits;
        loose = can.holds.loose;
        there =
            lookup-renamed org dst n s (path org m) w
            ∙ rw (same_path-differ dst n (path org m) apart)
                (rw (same_path-differ org n (path org m) apart) can.holds.there);
      };
      free = can.free;
    }

CanMove-All :
    (org dst : Bytes) (e : Bytes × Bytes) (fs : Chosen) (w : World)
    → All (λ (f : Bytes × Bytes). f.0 ≢ e.0) fs
    → All (CanMove org dst w) fs
    → All (CanMove org dst (renamed org dst e.0 e.1 w)) fs
CanMove-All org dst e fs w d h =
    All-imp (λ f x. CanMove-renamed org dst e f w x.0 x.1) fs (All-both _ _ fs d h)

pub lookup-moved_one :
    (org dst n s : Bytes) (q : FilePath) (t : FileTable)
    → lookup q (put (path dst n) s (erase (path org n) t))
      ≡ after_move org dst (n, s) q (lookup q t)
lookup-moved_one org dst n s q t =
    lookup-put (path dst n) q s (erase (path org n) t) ∙ rw (lookup-erase (path org n) q t)

-- The table when all of them have moved.
unfoldable pub moved : Bytes → Bytes → Chosen → FileTable → FileTable
moved org dst [] t = t
moved org dst ((n, s) ∷ fs) t = moved org dst fs (put (path dst n) s (erase (path org n) t))

-- A list of chosen names, none twice, makes all of their files go from the one directory to the
-- other.
pub for_each-move_line :
    (org dst : Bytes) (fs : Chosen) (w : World)
    → DistinctNames fs
    → All (CanMove org dst w) fs
    → for_each (chosen_lines fs) (move_line org dst) w
      ≡ done tt (record w { files = moved org dst fs w.files })
unfolding for_each moved
for_each-move_line org dst [] w d can = refl
for_each-move_line org dst (e ∷ fs) w d can =
    rw (move_line-renames org dst e w can.0, for_each)
      (for_each-move_line org dst fs (renamed org dst e.0 e.1 w) d.1
        (CanMove-All org dst e fs w d.0 can.1))

pub lookup-moved :
    (org dst : Bytes) (fs : Chosen) (q : FilePath) (t : FileTable)
    → DistinctNames fs
    → lookup q (moved org dst fs t) ≡ after_moves org dst fs q (lookup q t)
unfolding after_moves moved
lookup-moved org dst [] q t d = refl
lookup-moved org dst ((n, s) ∷ fs) q t d =
    lookup-moved org dst fs q (put (path dst n) s (erase (path org n) t)) d.1
    ∙ ap (after_moves org dst fs q) (lookup-moved_one org dst n s q t)
    ∙ after_moves-after_move org dst (n, s) fs q (lookup q t) d.0
