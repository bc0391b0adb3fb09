-- ===== src/Server/Delete.antt =====
-- What a sub cache of src/server.cc deletes.
use finger_move.Base.{
  Bool-cases, List, Option-cases, [], ap, arith, false, if◌then◌else◌, inl, inr, keep, none, not,
  refl, some, true, ◌&&◌, ◌++◌, ◌∙◌, ◌∷◌, ◌≡◌, ◌≢◌, ◌⊎◌,
}
use finger_move.Clib.{Bytes, c_str, elem, has_byte, same}
use finger_move.Clib.Laws.Lines.{c_str_self}
use finger_move.Rpc.{cancelled, status_ok}
use finger_move.Server.{sc_delafps}
use finger_move.World.{World, done, is_none, remove_path, rmdir, ◌>>=◌}
use finger_move.World.Effects.{
  Fits, IsPlain, remove-not, remove-there, remove_path-join, sprintf_path-fits,
}
use finger_move.World.Files.{
  FilePath, erase, locate, locate-join, lookup, lookup-erase, names_in, path, same_path, slash,
}

module _ (n : Bytes) (w : World) (plain : IsPlain n) (fits : Fits w.config.afp_dir n)
    (named : n ≢ []) where
  pub sc_delafps-not :
      (w.locked (path w.config.afp_dir n) ≡ true)
        ⊎ (lookup (path w.config.afp_dir n) w.files ≡ none)
      → sc_delafps (record { name = n }) w ≡ done cancelled w
  unfolding sc_delafps
  sc_delafps-not h = rw (c_str_self n plain.0) (
      rw (sprintf_path-fits w.config.afp_dir n w fits, ◌>>=◌)
        (rw (
          remove_path-join w.config.afp_dir n w plain.1 named
              ∙ remove-not w.config.afp_dir n w plain.1 h,
          ◌>>=◌,
        )))

  pub sc_delafps-there :
      (s : Bytes)
      → w.locked (path w.config.afp_dir n) ≡ false
      → lookup (path w.config.afp_dir n) w.files ≡ some s
      → sc_delafps (record { name = n }) w
        ≡ done status_ok (record w { files = erase (path w.config.afp_dir n) w.files })
  unfolding sc_delafps
  sc_delafps-there s loose there = rw (c_str_self n plain.0) (
      rw (sprintf_path-fits w.config.afp_dir n w fits, ◌>>=◌)
        (rw (
          remove_path-join w.config.afp_dir n w plain.1 named
              ∙ remove-there w.config.afp_dir n s w plain.1 loose there,
          ◌>>=◌,
        )))

-- What a deletion does to a file, if its name is not empty.
abbrev pub FileDeleted : Bytes → FilePath → World → Type 0
FileDeleted n q w =
    let p = path w.config.afp_dir n in
    let r = sc_delafps (record { name = n }) w in
    ((w.locked p ≡ true) × (r ≡ done cancelled w))
    ⊎ ((lookup p w.files ≡ none) × (r ≡ done cancelled w))
    ⊎ ((s : Bytes) × (w' : World) × (lookup p w.files ≡ some s)
        × (r ≡ done status_ok w')
        × (lookup q w'.files ≡ (if same_path p q then none else lookup q w.files)))

sc_delafps-named :
    (n : Bytes) (q : FilePath) (w : World)
    → IsPlain n
    → Fits w.config.afp_dir n
    → n ≢ []
    → FileDeleted n q w
sc_delafps-named n q w plain fits named =
    let p = path w.config.afp_dir n in
    elim (Bool-cases (w.locked p)) [
      | inl held ↦ inl (held, sc_delafps-not n w plain fits named (inl held))
      | inr loose ↦ elim (Option-cases (lookup p w.files)) [
        | inl gone ↦ inr (inl (gone, sc_delafps-not n w plain fits named (inr gone)))
        | inr (s, there) ↦ inr (
            inr (
              s,
              record w { files = erase p w.files },
              there,
              sc_delafps-there n w plain fits named s loose there,
              lookup-erase p q w.files,
            ))
      ]
    ]

-- A directory that `remove` can take away.
pub record CanGo (d : Bytes) (w : World) : Type 0 where
  pub there : elem d w.dirs ≡ true
  pub bare : names_in d w.files ≡ []
  pub loose : w.locked (path d []) ≡ false

elem-gone : (d : Bytes) (ds : List Bytes) → elem d (keep (λ e. not (same e d)) ds) ≡ false
unfolding elem
elem-gone d [] = refl
elem-gone d (e ∷ ds) = ground (arith, elem-gone d ds)

remove_path-slash :
    (p : Bytes) (w : World) → (locate p).name ≡ [] → remove_path p w ≡ rmdir (locate p).dir w
unfolding remove_path
remove_path-slash p w h = rw (h, remove_path) refl

remove_path-dir : (d : Bytes) (w : World) → remove_path (d ++ slash ∷ []) w ≡ rmdir d w
unfolding has_byte
remove_path-dir d w =
    let e = locate-join d [] refl in
    remove_path-slash (d ++ slash ∷ []) w (ap (λ (p : FilePath). p.name) e)
    ∙ ap (λ (p : FilePath). rmdir p.dir w) e

-- What a deletion with an empty name does to AFP_DIR.
abbrev pub DirDeleted : World → Type 0
DirDeleted w =
    let d = w.config.afp_dir in
    let r = sc_delafps (record { name = [] }) w in
    ((¬ CanGo d w) × (r ≡ done cancelled w))
    ⊎ (CanGo d w
        × ((v : World) × (r ≡ done status_ok v) × (elem d v.dirs ≡ false) × (v.files ≡ w.files)))

is_none-eq : (ns : List Bytes) → is_none ns ≡ true → ns ≡ []
is_none-eq [] h = refl
is_none-eq (n ∷ ns) h = absurd (ground (arith, h))

sc_delafps-empty : (w : World) → Fits w.config.afp_dir [] → DirDeleted w
unfolding sc_delafps rmdir c_str
sc_delafps-empty w fits =
    let d = w.config.afp_dir in
    let ran = sprintf_path-fits d [] w fits in
    elim (Bool-cases
      (elem d w.dirs && is_none (names_in d w.files) && not (w.locked (path d [])))) [
        | inl e ↦ inr (
          record {
            there = ground (arith, e);
            bare = is_none-eq (names_in d w.files) (ground (arith, e));
            loose = ground (arith, e);
          },
          (
            record w { dirs = keep (λ x. not (same x d)) w.dirs },
            rw (ran, ◌>>=◌) (rw (remove_path-dir d w, ◌>>=◌) (rw e)),
            elem-gone d w.dirs,
            refl,
          ),
        )
        | inr e ↦ inl (
          λ h. let full = ap is_none h.bare in ground (arith, e, full, h.there, h.loose),
          rw (ran, ◌>>=◌) (rw (remove_path-dir d w, ◌>>=◌) (rw e)),
        )
      ]

-- A sub cache that is told to delete a name removes that file in AFP_DIR, and no other, and
-- answers OK; if the file is locked or there is none, it answers CANCELLED and all stays as it is.
-- With an empty name it removes AFP_DIR itself and answers OK if the directory is there, has no
-- file and is not locked; otherwise it answers CANCELLED and all stays as it is. The name has no
-- slash and no NUL, and fits the buffer with the directory.
pub sc_delafps-cases :
    (n : Bytes) (q : FilePath) (w : World)
    → IsPlain n
    → Fits w.config.afp_dir n
    → ((n ≡ []) × DirDeleted w) ⊎ ((n ≢ []) × FileDeleted n q w)
sc_delafps-cases [] q w plain fits = inl (refl, sc_delafps-empty w fits)
sc_delafps-cases (c ∷ n) q w plain fits =
    inr ((λ e. cc), sc_delafps-named (c ∷ n) q w plain fits (λ e. cc))
