-- ===== src/World/Files.antt =====
-- Paths, and the table from paths to the bytes of the files there.
use finger_move.Base.{
  Bool, List, Option, [], ap, arith, false, if_neg, if◌then◌else◌, ite, none, not, refl, some, true,
  ℕ, ◌++◌, ◌==◌, ◌||◌, ◌∷◌, ◌≡◌, ◌≢◌,
}
use finger_move.Clib.{Bytes, Bytes-discrete, codes, has_byte, same}

-- The directory, as the program spells it, and the last part.
pub record FilePath : Type 0 where
  pub dir : Bytes
  pub name : Bytes

abbrev pub path : Bytes → Bytes → FilePath
path d n = record { dir = d; name = n }

unfoldable pub FilePath-discrete : Discrete FilePath
unfolding Bytes-discrete
FilePath-discrete p q = elim (Bytes-discrete p.dir q.dir) [
  | no differ ↦ no (λ e. differ (ap (λ (x : FilePath). x.dir) e))
  | yes d ↦ elim (Bytes-discrete p.name q.name) [
    | yes n ↦ yes (λ i. record { dir = d i; name = n i })
    | no differ ↦ no (λ e. differ (ap (λ (x : FilePath). x.name) e))
  ]
]

abbrev pub same_path : FilePath → FilePath → Bool
same_path p q = ite (FilePath-discrete p q) true false

abbrev pub slash : ℕ
slash = b'/'

abbrev pub dot : Bytes
dot = codes "."

abbrev pub dot_dot : Bytes
dot_dot = codes ".."

-- No file has one of these for its last part.
abbrev pub is_file_name : Bytes → Bool
is_file_name n = not (same n [] || (same n dot || same n dot_dot))

-- How the kernel reads a path: all before the last slash is the directory.
unfoldable pub locate : Bytes → FilePath
unfolding has_byte
locate [] = path dot []
locate (c ∷ s) =
    let rest = locate s in
    if has_byte slash s
    then path (c ∷ rest.dir) rest.name
    else if c == slash
    then path [] s
    else path dot (c ∷ s)

abbrev pub FileTable : Type 0
FileTable = List (FilePath × Bytes)

unfoldable pub lookup : FilePath → FileTable → Option Bytes
lookup p [] = none
lookup p ((q, s) ∷ fs) = if same_path p q then some s else lookup p fs

-- A file that is new comes last in its directory.
unfoldable pub put : FilePath → Bytes → FileTable → FileTable
put p s [] = (p, s) ∷ []
put p s ((q, t) ∷ fs) = if same_path p q then (q, s) ∷ fs else (q, t) ∷ put p s fs

unfoldable pub erase : FilePath → FileTable → FileTable
erase p [] = []
erase p ((q, t) ∷ fs) = let rest = erase p fs in if same_path p q then rest else (q, t) ∷ rest

unfoldable pub names_in : Bytes → FileTable → List Bytes
names_in d [] = []
names_in d ((q, t) ∷ fs) = let rest = names_in d fs in if same d q.dir then q.name ∷ rest else rest

pub lookup-put :
    (p q : FilePath) (s : Bytes) (fs : FileTable)
    → lookup q (put p s fs) ≡ (if same_path p q then some s else lookup q fs)
unfolding lookup put
lookup-put p q s [] = ground arith
lookup-put p q s ((r, t) ∷ fs) = ground (arith, lookup-put p q s fs)

pub lookup-erase :
    (p q : FilePath) (fs : FileTable)
    → lookup q (erase p fs) ≡ (if same_path p q then none else lookup q fs)
unfolding lookup erase
lookup-erase p q [] = ground arith
lookup-erase p q ((r, t) ∷ fs) = ground (arith, lookup-erase p q fs)

has_byte-slash : (d n : Bytes) → has_byte slash (d ++ slash ∷ n) ≡ true
unfolding has_byte
has_byte-slash [] n = refl
has_byte-slash (c ∷ d) n = ground (arith, has_byte-slash d n)

-- `dir/name` is found where it says, if the name has no slash of its own.
pub locate-join : (d n : Bytes) → has_byte slash n ≡ false → locate (d ++ slash ∷ n) ≡ path d n
unfolding locate
locate-join [] n h = rw h
locate-join (c ∷ d) n h = rw (has_byte-slash d n, locate-join d n h)

-- A path in another directory is another path.
pub same_path-elsewhere : (d n : Bytes) (q : FilePath) → d ≢ q.dir → same_path (path d n) q ≡ false
same_path-elsewhere d n q h =
    if_neg (FilePath-discrete (path d n) q) (λ e. h (ap (λ (x : FilePath). x.dir) e)) true false
