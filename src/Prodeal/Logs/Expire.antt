-- ===== src/Prodeal/Logs/Expire.antt =====
-- Which logs of the archive `movLogFile` removes.
use finger_move.Base.{
  All, Bool, Bool-cases, List, Option-cases, [], ap, arith, false, if◌then◌else◌, inl, inr, none,
  not, refl, true, ℕ, ◌&&◌, ◌++◌, ◌||◌, ◌∙◌, ◌∷◌, ◌≡◌, ◌≢◌,
}
use finger_move.Clib.{Bytes, has_byte, log_name, strcmp}
use finger_move.Clib.Laws.Dates.{log_name-cons}
use finger_move.Prodeal.Logs.{comes_before, expire, server_log}
use finger_move.Prodeal.Move.Listing.{names_in-erase}
use finger_move.Prodeal.Names.{is_dot_entry}
use finger_move.World.{World, done, for_each, remove, ◌>>=◌, ◌>>◌}
use finger_move.World.Effects.{Fits, remove-not, remove-there, sprintf_path-fits}
use finger_move.World.Files.{
  FilePath, FilePath-discrete, FileTable, erase, lookup, lookup-erase, names_in, path, same_path,
  same_path-elsewhere, slash,
}

-- An entry that is out of date.
abbrev pub outdated : Bytes → Bytes → Bool
outdated stamp n = not (is_dot_entry n) && comes_before n stamp

-- The paths that the loop removes.
unfoldable pub expires : Bytes → Bytes → List Bytes → FilePath → Bool
expires dst stamp [] q = false
expires dst stamp (n ∷ ns) q =
    (outdated stamp n && same_path (path dst n) q) || expires dst stamp ns q

-- An entry of a directory whose files can be removed.
abbrev pub CanRemove : Bytes → World → Bytes → Type 0
CanRemove dst w n = (has_byte slash n ≡ false) × Fits dst n × (w.locked (path dst n) ≡ false)

-- The names in other directories stay.
abbrev pub OtherNames : Bytes → FileTable → FileTable → Type 0
OtherNames dst old new = (d : Bytes) → d ≢ dst → names_in d new ≡ names_in d old

remove-run :
    (dst n : Bytes) (w : World)
    → CanRemove dst w n
    → (b : Bool) × (fs : FileTable) × (remove (dst ++ slash ∷ n) w
        ≡ done b (record w { files = fs }))
      × ((q : FilePath)
          → lookup q fs ≡ (if same_path (path dst n) q then none else lookup q w.files))
      × OtherNames dst w.files fs
remove-run dst n w can = elim (Option-cases (lookup (path dst n) w.files)) [
  | inl gone ↦
      (true, w.files, remove-not dst n w can.0 (inr gone), (λ q. ground (arith, gone)), λ d h. refl)
  | inr (s, there) ↦ (
    false,
    erase (path dst n) w.files,
    remove-there dst n s w can.0 can.2 there,
    λ q. lookup-erase (path dst n) q w.files,
    λ d h. names_in-erase d dst n w.files h,
  )
]

pub expire-run :
    (dst stamp n : Bytes) (w : World)
    → CanRemove dst w n
    → (fs : FileTable) × (expire dst stamp n w ≡ done tt (record w { files = fs }))
      × ((q : FilePath)
          → lookup q fs
            ≡ (if outdated stamp n && same_path (path dst n) q then none else lookup q w.files))
      × OtherNames dst w.files fs
unfolding expire
expire-run dst stamp n w can = elim (Bool-cases (is_dot_entry n)) [
  | inl e ↦ (w.files, rw e, λ q. rw e, λ d h. refl)
  | inr e ↦ elim (Bool-cases (comes_before n stamp)) [
    | inl f ↦
        let (b, fs, ran, left, rest) = remove-run dst n w can in
        (
          fs,
          rw (e, expire)
              (rw (f, expire)
                (rw (sprintf_path-fits dst n w can.1, ◌>>=◌) (rw (ran, ◌>>◌, ◌>>=◌)))),
          λ q. rw (e, f) (left q),
          rest,
        )
    | inr f ↦ (w.files, rw (e, expire) (rw (f, expire)), (λ q. rw (e, f)), λ d h. refl)
  ]
]

server_log-stays : (t : ℕ) → outdated (log_name t) server_log ≡ false
unfolding strcmp
server_log-stays t = let (d, s, e) = log_name-cons t in rw e (ground arith)

-- The copy of the live log stays, whatever the time.
pub expires-server_log :
    (dst : Bytes) (t : ℕ) (ns : List Bytes)
    → expires dst (log_name t) ns (path dst server_log) ≡ false
unfolding expires
expires-server_log dst t [] = refl
expires-server_log dst t (n ∷ ns) = elim (FilePath-discrete (path dst n) (path dst server_log)) [
  | yes p ↦
      let name_is : n ≡ server_log = ap (λ (x : FilePath). x.name) p in
      rw (name_is, expires) (rw (server_log-stays t, expires) (expires-server_log dst t ns))
  | no p ↦ ground (arith, p, expires-server_log dst t ns)
]

pub expire-each :
    (dst stamp : Bytes) (ns : List Bytes) (w : World)
    → All (CanRemove dst w) ns
    → (fs : FileTable) × (for_each ns (expire dst stamp) w ≡ done tt (record w { files = fs }))
      × ((q : FilePath) → lookup q fs ≡ (if expires dst stamp ns q then none else lookup q w.files))
      × OtherNames dst w.files fs
unfolding for_each expires
expire-each dst stamp [] w can = (w.files, refl, (λ q. refl), λ d h. refl)
expire-each dst stamp (n ∷ ns) w can =
    let (fs, ran, left, rest) = expire-run dst stamp n w can.0 in
    let (gs, ran', left', rest') = expire-each dst stamp ns (record w { files = fs }) can.1 in
    (gs, rw (ran, for_each) ran', λ q. ground (arith, left q, left' q), λ d h. rest' d h ∙ rest d h)

-- Nothing goes in other directories.
pub expires-other :
    (dst stamp : Bytes) (ns : List Bytes) (q : FilePath)
    → dst ≢ q.dir
    → expires dst stamp ns q ≡ false
unfolding expires
expires-other dst stamp [] q h = refl
expires-other dst stamp (n ∷ ns) q h =
    ground (arith, expires-other dst stamp ns q h, same_path-elsewhere dst n q h)
