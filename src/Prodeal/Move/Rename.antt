-- ===== src/Prodeal/Move/Rename.antt =====
-- What a line of the chosen files makes `movAfpFile` and `movCntFile` move.
use finger_move.Base.{
  [], arith, false, if◌then◌else◌, length, length-append, none, refl, some, true, ◌++◌, ◌<◌, ◌∙◌,
  ◌∷◌, ◌≡◌,
}
use finger_move.Clib.{Bytes, drop_last, has_byte, newline}
use finger_move.Clib.Laws.Lines.{drop_last-append, terminated}
use finger_move.Prodeal.Move.{move_line}
use finger_move.World.{World, done, rename, sprintf_path, writable, ◌>>=◌}
use finger_move.World.Effects.{Fits, Holds, rename-there, sprintf_path-fits}
use finger_move.World.Files.{
  FilePath, erase, lookup, lookup-erase, lookup-put, path, put, same_path, slash,
}

move_line-run :
    (org dst line : Bytes) (w : World)
    → 0 < length line
    → move_line org dst line w
      ≡ (sprintf_path org (drop_last line) >>= λ p.
            sprintf_path dst (drop_last line) >>= λ q. rename p q)
          w
unfolding move_line
move_line-run org dst [] w h = absurd (omega arith)
move_line-run org dst (c ∷ s) w h = refl

-- The world when the file has moved.
abbrev pub renamed : Bytes → Bytes → Bytes → Bytes → World → World
renamed org dst n s w = record w { files = put (path dst n) s (erase (path org n) w.files) }

pub lookup-renamed :
    (org dst n s : Bytes) (q : FilePath) (w : World)
    → lookup q (renamed org dst n s w).files ≡ (
        if same_path (path dst n) q
        then some s
        else if same_path (path org n) q
        then none
        else lookup q w.files)
lookup-renamed org dst n s q w =
    lookup-put (path dst n) q s (erase (path org n) w.files)
    ∙ rw (lookup-erase (path org n) q w.files)

-- A file that can be moved from one directory to the other.
pub record CanMove (org dst : Bytes) (w : World) (e : Bytes × Bytes) : Type 0 where
  pub plain : has_byte slash e.0 ≡ false
  pub fits : Fits dst e.0
  pub holds : Holds org e.0 e.1 w
  pub free : writable (path dst e.0) w ≡ true

pub move_line-renames :
    (org dst : Bytes) (e : Bytes × Bytes) (w : World)
    → CanMove org dst w e
    → move_line org dst (terminated e.0) w ≡ done tt (renamed org dst e.0 e.1 w)
move_line-renames org dst (n, s) w can =
    move_line-run org dst (n ++ newline ∷ []) w (omega (arith, length-append n (newline ∷ [])))
    ∙ rw (drop_last-append n newline) (
        rw (sprintf_path-fits org n w can.holds.fits, ◌>>=◌)
          (rw (sprintf_path-fits dst n w can.fits, ◌>>=◌)
            (rename-there org dst n s w can.plain can.holds.loose can.free can.holds.there)))
