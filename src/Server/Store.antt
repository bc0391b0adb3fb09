-- ===== src/Server/Store.antt =====
-- What the handlers of src/server.cc leave in the files.
use finger_move.Base.{
  Bool, [], ap, arith, if◌then◌else◌, leb, length, none, pos, refl, some, take, true, ℕ, ℤ, ◌++◌,
  ◌+◌, ◌<◌, ◌∙◌, ◌∷◌, ◌≡◌,
}
use finger_move.Clib.{Bytes}
use finger_move.Clib.Laws.Lines.{c_str_self}
use finger_move.Rpc.{FingerValue, Status, status_ok}
use finger_move.Server.{gm_afpmove, sc_addafps, value_bytes}
use finger_move.World.{
  Cmd, World, done, fault, fclose_wb, fopen_wb, or_fault, pure, sprintf_path, writable, ◌>>=◌, ◌>>◌,
}
use finger_move.World.Effects.{Fits, IsPlain, fclose_wb-join, fopen_wb-writable, sprintf_path-fits}
use finger_move.World.Files.{FilePath, lookup, lookup-put, path, put, same_path, slash}

take-append : (s t : Bytes) → take (length s) (s ++ t) ≡ s
take-append [] t = refl
take-append (c ∷ s) t = ap (λ (r : Bytes). c ∷ r) (take-append s t)

pub value_bytes-whole : (s : Bytes) → value_bytes s (pos (length s)) ≡ some s
unfolding value_bytes
value_bytes-whole s =
    let fits : leb (length s) (length s + 1) ≡ true = ground arith in
    rw fits (ap some (take-append s (0 ∷ [])))

-- A length that reads behind the NUL.
value_bytes-over : (s : Bytes) (n : ℕ) → length s + 1 < n → value_bytes s (pos n) ≡ none
unfolding value_bytes
value_bytes-over s n h = ground arith

module _ (n s : Bytes) (w : World) (plain : IsPlain n) where
  -- The world when the file is open and empty, and when it is written.
  abbrev opened : Bytes → World
  opened d = record w { files = put (path d n) [] w.files }

  abbrev pub stored : Bytes → World
  stored d = record w { files = put (path d n) s (put (path d n) [] w.files) }

  pub lookup-stored :
      (d : Bytes) (q : FilePath)
      → lookup q (stored d).files ≡ (if same_path (path d n) q then some s else lookup q w.files)
  lookup-stored d q = ground (
    arith,
    lookup-put (path d n) q s (put (path d n) [] w.files),
    lookup-put (path d n) q [] w.files,
  )

  -- What follows the opening of the file finds it open.
  pub open-then :
      (d : Bytes) (f : Bytes → Bool → Cmd Status)
      → Fits d n
      → writable (path d n) w ≡ true
      → (sprintf_path d n >>= λ p. fopen_wb p >>= f p) w ≡ f (d ++ slash ∷ n) true (opened d)
  open-then d f fits free =
      rw (sprintf_path-fits d n w fits, ◌>>=◌) (rw (fopen_wb-writable d n w plain.1 free, ◌>>=◌))

  module _ (val : Bytes) (len : ℤ) (reads : value_bytes val len ≡ some s) where
    abbrev request : FingerValue
    request = record { name = n; val = val; len = len }

    write-then :
        (d : Bytes)
        → (or_fault (value_bytes val len) >>= λ t. fclose_wb (d ++ slash ∷ n) t >> pure status_ok)
            (opened d)
          ≡ done status_ok (stored d)
    write-then d = rw (reads, ◌>>=◌) (rw (fclose_wb-join d n s (opened d) plain.1, ◌>>◌, ◌>>=◌))

    pub gm_afpmove-run :
        Fits w.config.dst_dir n
        → writable (path w.config.dst_dir n) w ≡ true
        → gm_afpmove request w ≡ done status_ok (stored w.config.dst_dir)
    unfolding gm_afpmove
    gm_afpmove-run fits free =
        rw (c_str_self n plain.0)
          (open-then w.config.dst_dir _ fits free ∙ write-then w.config.dst_dir)

    pub sc_addafps-run :
        Fits w.config.dst_dir n
        → writable (path w.config.dst_dir n) w ≡ true
        → sc_addafps request w ≡ done status_ok (stored w.config.dst_dir)
    unfolding sc_addafps
    sc_addafps-run fits free =
        rw (c_str_self n plain.0)
          (open-then w.config.dst_dir _ fits free ∙ write-then w.config.dst_dir)

    -- What a sub cache does with a request whose length can be read.
    pub sc_addafps-stores :
        (q : FilePath)
        → Fits w.config.dst_dir n
        → writable (path w.config.dst_dir n) w ≡ true
        → (w' : World) × (sc_addafps request w ≡ done status_ok w')
          × (lookup q w'.files
              ≡ (if same_path (path w.config.dst_dir n) q then some s else lookup q w.files))
    sc_addafps-stores q fits free =
        (stored w.config.dst_dir, sc_addafps-run fits free, lookup-stored w.config.dst_dir q)

-- The group server, when the length in a request is greater than the length of the value by more
-- than one, reads memory that is not the value: nothing checks the length. The name has no slash
-- and no NUL and fits the buffer with the directory, and the file can be opened to write.
pub gm_afpmove-overread :
    (n s : Bytes) (l : ℕ) (w : World)
    → IsPlain n
    → Fits w.config.dst_dir n
    → writable (path w.config.dst_dir n) w ≡ true
    → length s + 1 < l
    → gm_afpmove (record { name = n; val = s; len = pos l }) w ≡ fault
unfolding gm_afpmove
gm_afpmove-overread n s l w plain fits free h =
    rw (c_str_self n plain.0)
      (open-then n s w plain w.config.dst_dir _ fits free ∙ rw (value_bytes-over s l h, ◌>>=◌))
