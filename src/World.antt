-- ===== src/World.antt =====
-- What the program changes around it: the files, the log queue and the calls that it has made.
-- A command is a function on this state; `fault` is undefined behaviour, such as a buffer overrun.
pub mod Effects
pub mod Files
pub mod Frames
pub mod Keeps
pub mod Refusals
pub mod Results
use finger_move.Autoconf.Config.{Config}
use finger_move.Base.{
  Bool, List, Option, [], false, if◌then◌else◌, inl, inr, keep, length, ltb, none, not, refl, some,
  true, ℕ, ◌&&◌, ◌++◌, ◌+◌, ◌||◌, ◌∷◌, ◌≡◌, ◌⊎◌,
}
use finger_move.Clib.{Bytes, elem, max_line_len, newline, same}
use finger_move.Rpc.{Call, Peers, Reply}
use finger_move.World.Files.{
  FilePath, FileTable, dot, dot_dot, erase, is_file_name, locate, lookup, names_in, path, put,
  slash,
}

-- `files` holds what each path holds, in the order in which readdir returns the entries of a
-- directory. `locked` paths cannot be opened, removed or renamed. A directory holds files only.
-- `logged` and `sent` are what went to the log queue and out as calls, oldest first; `config` and
-- `sublist` are the static members of `Config` and the global `g_sublist`.
pub record World : Type 0 where
  pub dirs : List Bytes
  pub files : FileTable
  pub locked : FilePath → Bool
  pub logged : List Bytes
  pub sent : List Call
  pub config : Config
  pub sublist : List Bytes

pub data Run {ℓ} (A : Type ℓ) : Type ℓ where
  done : A → World → Run A
  fault : Run A

-- To split on how a command ends, and keep the equation.
pub Run-cases {ℓ} :
    {A : Type ℓ} (r : Run A) → (r ≡ fault) ⊎ ((a : A) × (w : World) × (r ≡ done a w))
Run-cases fault = inl refl
Run-cases (done a w) = inr (a, w, refl)

abbrev pub Cmd {ℓ} : Type ℓ → Type ℓ
Cmd A = World → Run A

infixl 5 ◌>>=◌ ◌>>◌
abbrev pub ◌>>=◌ {ℓ κ} : {A : Type ℓ} {B : Type κ} → Cmd A → (A → Cmd B) → Cmd B
◌>>=◌ m f w = elim (m w) [ done a w' ↦ f a w' | fault ↦ fault ]

abbrev pub ◌>>◌ {ℓ κ} : {A : Type ℓ} {B : Type κ} → Cmd A → Cmd B → Cmd B
m >> k = m >>= λ _. k

abbrev pub pure {ℓ} : {A : Type ℓ} → A → Cmd A
pure a w = done a w

abbrev pub unit : Cmd (Unit {0})
unit = pure tt

-- A body run for each entry of a list, in order.
unfoldable pub for_each {ℓ} : {A : Type ℓ} → List A → (A → Cmd (Unit {0})) → Cmd (Unit {0})
for_each [] body w = done tt w
for_each (x ∷ xs) body w = elim (body x w) [ done _ w' ↦ for_each xs body w' | fault ↦ fault ]

-- A computation that may be undefined.
abbrev pub or_fault {ℓ} : {A : Type ℓ} → Option A → Cmd A
or_fault none w = fault
or_fault (some a) w = done a w

abbrev pub max_name_len : ℕ
max_name_len = 256

-- `sprintf(buf, "%s/%s", dir, name)` into a buffer of MAX_NAME_LEN bytes.
unfoldable pub sprintf_path : Bytes → Bytes → Cmd Bytes
sprintf_path d n w =
    if ltb (length (d ++ slash ∷ n)) max_name_len then done (d ++ slash ∷ n) w else fault

-- `opendir` and the `readdir` loop over it: all the entries, "." and ".." first.
unfoldable pub list_dir : Bytes → Cmd (Option (List Bytes))
unfolding elem names_in
list_dir d w =
    if elem d w.dirs then done (some (dot ∷ dot_dot ∷ names_in d w.files)) w else done none w

-- `fopen(path, "rb")`, with all that reads from the stream will find.
unfoldable pub fopen_rb : Bytes → Cmd (Option Bytes)
unfolding lookup locate
fopen_rb p w = if w.locked (locate p) then done none w else done (lookup (locate p) w.files) w

abbrev pub writable : FilePath → World → Bool
writable p w = elem p.dir w.dirs && not (w.locked p) && is_file_name p.name

-- `fopen(path, "wb")`: the file is there and empty, unless the call fails.
unfoldable pub fopen_wb : Bytes → Cmd Bool
unfolding put locate elem
fopen_wb p w =
    if writable (locate p) w
    then done true (record w { files = put (locate p) [] w.files })
    else done false w

-- `fclose` of a stream that was opened to write and was given these bytes.
unfoldable pub fclose_wb : Bytes → Bytes → Cmd (Unit {0})
unfolding put locate
fclose_wb p s w = done tt (record w { files = put (locate p) s w.files })

-- `remove(path)`; true if it fails.
unfoldable pub remove : Bytes → Cmd Bool
unfolding lookup erase locate
remove p w = if w.locked (locate p) then done true w else elim (lookup (locate p) w.files) [
  | none ↦ done true w
  | some _ ↦ done false (record w { files = erase (locate p) w.files })
]

-- `remove` of a directory, which must be empty; true if it fails.
abbrev pub is_none : List Bytes → Bool
is_none [] = true
is_none (n ∷ ns) = false

unfoldable pub rmdir : Bytes → Cmd Bool
unfolding elem names_in
rmdir d w =
    if elem d w.dirs && is_none (names_in d w.files) && not (w.locked (path d []))
    then done false (record w { dirs = keep (λ e. not (same e d)) w.dirs })
    else done true w

-- `remove` of a path that may end in a slash, and then is that of the directory.
unfoldable pub remove_path : Bytes → Cmd Bool
unfolding locate remove rmdir
remove_path p w = elim (locate p).name [ [] ↦ rmdir (locate p).dir w | _ ∷ _ ↦ remove p w ]

-- `rename(old, new)`, whose result the program never reads.
unfoldable pub rename : Bytes → Bytes → Cmd (Unit {0})
unfolding lookup erase put locate elem
rename p q w =
    if w.locked (locate p) || not (writable (locate q) w)
    then done tt w
    else elim (lookup (locate p) w.files) [
      | none ↦ done tt w
      | some s ↦ done tt (record w { files = put (locate q) s (erase (locate p) w.files) })
    ]

-- `g_logmt.logstring(str)`: the line, put into a node of MAX_LINE_LEN bytes, goes to the log queue.
-- The callers build `str` in a buffer of that size, so an overrun of theirs is one here too.
unfoldable pub logstring : Bytes → Cmd (Unit {0})
logstring s w =
    if ltb (length s + 1) max_line_len
    then done tt (record w { logged = w.logged ++ (s ++ newline ∷ []) ∷ [] })
    else fault

-- A stub's method: the call goes out, and its answer is the peers'.
unfoldable pub call : Peers → Call → Cmd Reply
call peers c w = done (peers w.sent c) (record w { sent = w.sent ++ c ∷ [] })

abbrev pub get_config : Cmd Config
get_config w = done w.config w

abbrev pub get_sent : Cmd (List Call)
get_sent w = done w.sent w

abbrev pub get_sublist : Cmd (List Bytes)
get_sublist w = done w.sublist w
