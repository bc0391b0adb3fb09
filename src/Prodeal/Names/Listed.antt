-- ===== src/Prodeal/Names/Listed.antt =====
-- The list of the finger files that `getAfpName` writes.
use finger_move.Base.{
  All, All-imp, Bool-cases, List, [], false, if◌then◌else◌, inl, inr, map, minus_one, pos, refl,
  some, true, ◌∷◌, ◌≡◌, ◌⊎◌,
}
use finger_move.Clib.{Bytes, Bytes-discrete, elem, lines}
use finger_move.Clib.Laws.Lines.{IsText, lines-written, terminated, written}
use finger_move.Prodeal.Names.{afp_name_file, get_afp_name, is_dot_entry, name_lines}
use finger_move.Prodeal.Names.Plain.{afp_name_file-IsPlain}
use finger_move.World.{World, done, writable, ◌>>=◌}
use finger_move.World.Effects.{
  Fits, fopen_wb-writable, list_dir-there, lookup-saved, saved, sprintf_path-fits,
}
use finger_move.World.Files.{FilePath, dot, dot_dot, locate-join, lookup, names_in, path, same_path}
use finger_move.World.Refusals.{fopen_wb-not, list_dir-not}

-- A name as readdir returns it that makes a line.
abbrev pub IsListed : Bytes → Type 0
IsListed n = (is_dot_entry n ≡ false) × IsText n

name_lines-written : (ns : List Bytes) → All IsListed ns → name_lines ns ≡ written ns
unfolding name_lines
name_lines-written [] h = refl
name_lines-written (n ∷ ns) h = rw (h.0.0, name_lines-written ns h.1)

name_lines-entries : (ns : List Bytes) → name_lines (dot ∷ dot_dot ∷ ns) ≡ name_lines ns
unfolding name_lines Bytes-discrete
name_lines-entries ns = refl

module _ (org dst : Bytes) (w : World) (fits : Fits dst afp_name_file) where
  abbrev listed : List Bytes
  listed = names_in org w.files

  get_afp_name-open :
      elem org w.dirs ≡ true
      → writable (path dst afp_name_file) w ≡ true
      → All IsListed listed
      → get_afp_name org dst w ≡ done (pos 0) (saved dst afp_name_file (written listed) w)
  unfolding get_afp_name
  get_afp_name-open dir free h =
      rw (list_dir-there org listed w dir refl, ◌>>=◌)
        (rw (sprintf_path-fits dst afp_name_file w fits, ◌>>=◌)
          (rw (fopen_wb-writable dst afp_name_file w afp_name_file-IsPlain.1 free, ◌>>=◌)
            (rw (name_lines-entries listed, name_lines-written listed h)
              (rw (locate-join dst afp_name_file afp_name_file-IsPlain.1)))))

  get_afp_name-held :
      elem org w.dirs ≡ true
      → writable (path dst afp_name_file) w ≡ false
      → get_afp_name org dst w ≡ done minus_one w
  unfolding get_afp_name
  get_afp_name-held dir held =
      rw (list_dir-there org listed w dir refl, ◌>>=◌)
        (rw (sprintf_path-fits dst afp_name_file w fits, ◌>>=◌)
          (rw (fopen_wb-not dst afp_name_file w afp_name_file-IsPlain.1 held, ◌>>=◌)))

  -- getAfpName returns -1 and changes nothing if the directory is not there or the list cannot be
  -- written. Otherwise it returns 0, the list holds the names of all files of the directory, in
  -- the order in which readdir returns them, every other path holds what it held, and the steps
  -- that read the list get these names, one in each line. The names fit a line and have no newline
  -- and no NUL, and the path of the list fits its buffer.
  pub get_afp_name-cases :
      (q : FilePath)
      → All IsListed (names_in org w.files)
      → let p = path dst afp_name_file in
        let r = get_afp_name org dst w in
        ((elem org w.dirs ≡ false) × (r ≡ done minus_one w))
        ⊎ ((writable p w ≡ false) × (r ≡ done minus_one w))
        ⊎ ((w' : World) × (r ≡ done (pos 0) w')
            × (lookup q w'.files ≡ (
                if same_path p q then some (written (names_in org w.files)) else lookup q w.files))
            × (lines (written (names_in org w.files)) ≡ map terminated (names_in org w.files)))
  unfolding get_afp_name
  get_afp_name-cases q h = elim (Bool-cases (elem org w.dirs)) [
    | inr none_there ↦ inl (none_there, rw (list_dir-not org w none_there, ◌>>=◌))
    | inl dir ↦ elim (Bool-cases (writable (path dst afp_name_file) w)) [
      | inr held ↦ inr (inl (held, get_afp_name-held dir held))
      | inl free ↦ inr (
          inr (
            saved dst afp_name_file (written listed) w,
            get_afp_name-open dir free h,
            lookup-saved dst afp_name_file (written listed) q w,
            lines-written listed (All-imp (λ n x. x.1) listed h),
          ))
    ]
  ]
