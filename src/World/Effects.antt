-- ===== src/World/Effects.antt =====
-- What the commands of World do when nothing stands in their way.
use finger_move.Base.{
  List, [], ap, arith, false, if◌then◌else◌, inl, inr, length, none, some, sym, true, ℤ, ◌++◌, ◌+◌,
  ◌<◌, ◌∙◌, ◌∷◌, ◌≡◌, ◌≢◌, ◌⊎◌,
}
use finger_move.Clib.{Bytes, elem, has_byte, max_line_len, newline}
use finger_move.World.{
  Cmd, Run, Run-cases, World, done, fault, fclose_wb, fopen_rb, fopen_wb, list_dir, logstring,
  max_name_len, remove, remove_path, rename, sprintf_path, writable, ◌>>=◌, ◌>>◌,
}
use finger_move.World.Files.{
  FilePath, dot, dot_dot, erase, locate, locate-join, lookup, lookup-put, names_in, path, put,
  same_path, slash,
}

-- `dir/name` fits a buffer of MAX_NAME_LEN bytes.
abbrev pub Fits : Bytes → Bytes → Type 0
Fits d n = length (d ++ slash ∷ n) < max_name_len

-- A name that a path can end in, as a C string.
abbrev pub IsPlain : Bytes → Type 0
IsPlain n = (has_byte 0 n ≡ false) × (has_byte slash n ≡ false)

pub sprintf_path-fits :
    (d n : Bytes) (w : World) → Fits d n → sprintf_path d n w ≡ done (d ++ slash ∷ n) w
unfolding sprintf_path
sprintf_path-fits d n w h = ground (arith, h)

pub fopen_wb-writable :
    (d n : Bytes) (w : World)
    → has_byte slash n ≡ false
    → writable (path d n) w ≡ true
    → fopen_wb (d ++ slash ∷ n) w ≡ done true (record w { files = put (path d n) [] w.files })
unfolding fopen_wb
fopen_wb-writable d n w hs h = rw (locate-join d n hs) (rw h)

pub fclose_wb-join :
    (d n s : Bytes) (w : World)
    → has_byte slash n ≡ false
    → fclose_wb (d ++ slash ∷ n) s w ≡ done tt (record w { files = put (path d n) s w.files })
unfolding fclose_wb
fclose_wb-join d n s w hs = rw (locate-join d n hs)

remove-found :
    (p s : Bytes) (w : World)
    → w.locked (locate p) ≡ false
    → lookup (locate p) w.files ≡ some s
    → remove p w ≡ done false (record w { files = erase (locate p) w.files })
unfolding remove
remove-found p s w hk hl = rw hk (rw hl)

pub remove-there :
    (d n s : Bytes) (w : World)
    → has_byte slash n ≡ false
    → w.locked (path d n) ≡ false
    → lookup (path d n) w.files ≡ some s
    → remove (d ++ slash ∷ n) w ≡ done false (record w { files = erase (path d n) w.files })
remove-there d n s w hs hk hl =
    let e = locate-join d n hs in rw e at (remove-found (d ++ slash ∷ n) s w (rw e hk) (rw e hl))

pub rename-found :
    (p q s : Bytes) (w : World)
    → w.locked (locate p) ≡ false
    → writable (locate q) w ≡ true
    → lookup (locate p) w.files ≡ some s
    → rename p q w ≡ done tt (record w { files = put (locate q) s (erase (locate p) w.files) })
unfolding rename
rename-found p q s w hk hw hl = rw hk (rw hw (rw hl))

pub rename-there :
    (d e n s : Bytes) (w : World)
    → has_byte slash n ≡ false
    → w.locked (path d n) ≡ false
    → writable (path e n) w ≡ true
    → lookup (path d n) w.files ≡ some s
    → rename (d ++ slash ∷ n) (e ++ slash ∷ n) w
      ≡ done tt (record w { files = put (path e n) s (erase (path d n) w.files) })
rename-there d e n s w hs hk hw hl =
    let p = locate-join d n hs in
    let q = locate-join e n hs in
    rw (p, q) at (rename-found (d ++ slash ∷ n) (e ++ slash ∷ n) s w (rw p hk) (rw q hw) (rw p hl))

remove-refused :
    (p : Bytes) (w : World)
    → (w.locked (locate p) ≡ true) ⊎ (lookup (locate p) w.files ≡ none)
    → remove p w ≡ done true w
unfolding remove
remove-refused p w h = ground arith

pub remove-not :
    (d n : Bytes) (w : World)
    → has_byte slash n ≡ false
    → (w.locked (path d n) ≡ true) ⊎ (lookup (path d n) w.files ≡ none)
    → remove (d ++ slash ∷ n) w ≡ done true w
remove-not d n w hs h = remove-refused (d ++ slash ∷ n) w (rw (locate-join d n hs) h)

-- The path of a file does not end in a slash.
remove_path-file : (p : Bytes) (w : World) → (locate p).name ≢ [] → remove_path p w ≡ remove p w
unfolding remove_path
remove_path-file p w h = ground (arith, h)

pub remove_path-join :
    (d n : Bytes) (w : World)
    → has_byte slash n ≡ false
    → n ≢ []
    → remove_path (d ++ slash ∷ n) w ≡ remove (d ++ slash ∷ n) w
remove_path-join d n w hs h =
    remove_path-file (d ++ slash ∷ n) w
      (λ e. h (sym (ap (λ (p : FilePath). p.name) (locate-join d n hs)) ∙ e))

fopen_rb-found :
    (p s : Bytes) (w : World)
    → w.locked (locate p) ≡ false
    → lookup (locate p) w.files ≡ some s
    → fopen_rb p w ≡ done (some s) w
unfolding fopen_rb
fopen_rb-found p s w hk hl = rw hk (rw hl)

-- A file that can be read.
pub record Holds (d n s : Bytes) (w : World) : Type 0 where
  pub fits : Fits d n
  pub loose : w.locked (path d n) ≡ false
  pub there : lookup (path d n) w.files ≡ some s

pub fopen_rb-there :
    (d n s : Bytes) (w : World)
    → has_byte slash n ≡ false
    → Holds d n s w
    → fopen_rb (d ++ slash ∷ n) w ≡ done (some s) w
fopen_rb-there d n s w hs h =
    let e = locate-join d n hs in fopen_rb-found (d ++ slash ∷ n) s w (rw e h.loose) (rw e h.there)

pub list_dir-there :
    (d : Bytes) (ns : List Bytes) (w : World)
    → elem d w.dirs ≡ true
    → names_in d w.files ≡ ns
    → list_dir d w ≡ done (some (dot ∷ dot_dot ∷ ns)) w
unfolding list_dir
list_dir-there d ns w h e = rw h (rw e)

-- A file in another directory is not the one that is opened to write.
pub Holds-put :
    (d e n c s t : Bytes) (w : World)
    → d ≢ e
    → Holds d n s w
    → Holds d n s (record w { files = put (path e c) t w.files })
Holds-put d e n c s t w differ h = record {
  fits = h.fits;
  loose = h.loose;
  there = ground (arith, lookup-put (path e c) (path d n) t w.files, h.there, differ);
}

-- A line fits the logger's buffer with its newline.
abbrev pub LogFits : Bytes → Type 0
LogFits s = length s + 1 < max_line_len

pub logstring-fits :
    (s : Bytes) (w : World)
    → LogFits s
    → logstring s w ≡ done tt (record w { logged = w.logged ++ (s ++ newline ∷ []) ∷ [] })
unfolding logstring
logstring-fits s w h = ground arith

pub writable-loose : (p : FilePath) (w : World) → writable p w ≡ true → w.locked p ≡ false
writable-loose p w h = ground (arith, h)

-- The world when `dir/name` was opened to write, given these bytes, and closed.
abbrev pub saved : Bytes → Bytes → Bytes → World → World
saved d n s w = record w { files = put (path d n) s (put (path d n) [] w.files) }

pub lookup-saved :
    (d n s : Bytes) (q : FilePath) (w : World)
    → lookup q (saved d n s w).files ≡ (if same_path (path d n) q then some s else lookup q w.files)
lookup-saved d n s q w = ground (
  arith,
  lookup-put (path d n) q s (put (path d n) [] w.files),
  lookup-put (path d n) q [] w.files,
)

pub lookup-saved_self :
    (d n s : Bytes) (w : World) → lookup (path d n) (saved d n s w).files ≡ some s
lookup-saved_self d n s w = lookup-saved d n s (path d n) w ∙ ground arith

-- The file can be read then, and any other file that could be read before.
pub Holds-saved :
    (d n s : Bytes) (w : World)
    → Fits d n
    → w.locked (path d n) ≡ false
    → Holds d n s (saved d n s w)
Holds-saved d n s w fits loose = record {
  fits = fits;
  loose = loose;
  there = lookup-saved_self d n s w;
}

pub Holds-other :
    (d n s e c t : Bytes) (w : World)
    → path e c ≢ path d n
    → Holds d n s w
    → Holds d n s (saved e c t w)
Holds-other d n s e c t w differ h = record {
  fits = h.fits;
  loose = h.loose;
  there = ground (arith, lookup-saved e c t (path d n) w, h.there, differ);
}

-- What follows two commands that end.
pub two-then {ℓ} :
    {A : Type ℓ} (a b : Cmd ℤ) (f : Cmd A) (r : ℤ) (w v : World)
    → (a >> b) w ≡ done r v
    → (a >> (b >> f)) w ≡ f v
two-then a b f r w v h = elim (Run-cases (a w)) [
  | inl e ↦ absurd (ground (arith, e, h))
  | inr (_, u, e) ↦
      let ends : b u ≡ done r v =
        ap (λ (x : Run ℤ). elim x [ done _ w' ↦ b w' | fault ↦ fault ]) (sym e) ∙ h in
      rw (e, ◌>>◌, ◌>>=◌) (rw (ends, ◌>>◌, ◌>>=◌))
]
