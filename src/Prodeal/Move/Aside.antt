-- ===== src/Prodeal/Move/Aside.antt =====
-- Files of a third directory do not stand in the way of `movAfpFile`.
use finger_move.Base.{
  All, All-imp, [], ap, false, if_neg, if_pos, subst, sym, true, ◌∙◌, ◌∷◌, ◌≡◌, ◌≢◌,
}
use finger_move.Clib.{Bytes, Bytes-discrete}
use finger_move.Prodeal.Move.Chosen.{Chosen}
use finger_move.Prodeal.Move.Clear.{CanClear, CanClear-files}
use finger_move.Prodeal.Move.Delivery.{CanTake}
use finger_move.Prodeal.Move.Rename.{CanMove}
use finger_move.World.{World}
use finger_move.World.Effects.{Holds-other, saved}
use finger_move.World.Files.{FilePath, FilePath-discrete, FileTable, names_in, path, put}

names_in-put :
    (d e n s : Bytes) (fs : FileTable) → d ≢ e → names_in d (put (path e n) s fs) ≡ names_in d fs
unfolding names_in put
names_in-put d e n s [] h = rw (if_neg (Bytes-discrete d e) h true false)
names_in-put d e n s ((p, t) ∷ fs) h = elim (FilePath-discrete (path e n) p) [
  | yes x ↦ rw (if_pos (FilePath-discrete (path e n) p) x true false)
  | no x ↦ rw (if_neg (FilePath-discrete (path e n) p) x true false, names_in-put d e n s fs h)
]

names_in-saved :
    (d e n s : Bytes) (w : World) → d ≢ e → names_in d (saved e n s w).files ≡ names_in d w.files
names_in-saved d e n s w h =
    names_in-put d e n s (put (path e n) [] w.files) h ∙ names_in-put d e n [] w.files h

CanMove-saved :
    (org dst e n s : Bytes) (fs : Chosen) (w : World)
    → org ≢ e
    → All (CanMove org dst w) fs
    → All (CanMove org dst (saved e n s w)) fs
CanMove-saved org dst e n s fs w h =
    All-imp
      (λ f x. record {
        plain = x.plain;
        fits = x.fits;
        holds =
            Holds-other org f.0 f.1 e n s w (λ y. h (ap (λ (p : FilePath). p.dir) (sym y))) x.holds;
        free = x.free;
      })
      fs

pub CanTake-saved :
    (org dst e n s : Bytes) (fs : Chosen) (w : World)
    → org ≢ e
    → dst ≢ e
    → CanTake org dst fs w
    → CanTake org dst fs (saved e n s w)
CanTake-saved org dst e n s fs w h k can = record {
  dir = can.dir;
  clear =
      subst (All (CanClear dst (saved e n s w))) (sym (names_in-saved dst e n s w k))
        (CanClear-files dst w _ _ can.clear);
  apart = can.apart;
  distinct = can.distinct;
  can = CanMove-saved org dst e n s fs w h can.can;
}
