-- ===== src/Tests/Moves.antt =====
-- The moves of src/prodeal.cc on files.
use finger_move.Autoconf.Config.{defaults}
use finger_move.Base.{All, List, [], ap, arith, false, pos, refl, ◌∷◌, ◌≡◌, ◌≢◌}
use finger_move.Clib.{Bytes, Bytes-discrete, char_at, codes, elem, has_byte}
use finger_move.Clib.Laws.Lines.{written}
use finger_move.Prodeal.Logs.{server_log}
use finger_move.Prodeal.Move.{mov_cnt_file}
use finger_move.Prodeal.Move.Chosen.{Chosen, DistinctNames}
use finger_move.Prodeal.Move.Delivery.{CanDeliver, CanTake, delivered, mov_cnt_file-delivers}
use finger_move.Prodeal.Move.Listing.{names_of}
use finger_move.Prodeal.Move.Rename.{CanMove}
use finger_move.Prodeal.Names.{bot_afps_file, top_afps_file}
use finger_move.World.{World, done}
use finger_move.World.Files.{FilePath, FilePath-discrete, FileTable, lookup, names_in, path}

abbrev pub two_files : Chosen
two_files = (codes "12.afp", codes "xy") ∷ (codes "7.afp", codes "z") ∷ []

abbrev pub moving_world : World
moving_world = record {
  dirs = codes "afp" ∷ codes "org" ∷ codes "log" ∷ [];
  files =
      (path (codes "afp") (codes "12.afp"), codes "xy")
      ∷ (path (codes "afp") (codes "7.afp"), codes "z")
      ∷ (path (codes "log") (codes "2015-11-01_00-00-00.log"), codes "old")
      ∷ (path (codes "log") server_log, codes "live")
      ∷ (path (codes "org") (codes "9.afp"), codes "old")
      ∷ (path (codes "log") top_afps_file, written (codes "12.afp" ∷ codes "7.afp" ∷ []))
      ∷ (
        path (codes "log") bot_afps_file,
        written (codes "1.afp" ∷ codes "12.afp" ∷ codes "7.afp" ∷ []),
      )
      ∷ [];
  locked = λ p. false;
  logged = [];
  sent = [];
  config = record defaults { afp_dir = codes "afp"; org_dir = codes "org"; wrk_dir = codes "log" };
  sublist = codes "10.0.0.3:6" ∷ [];
}

pub two_files-CanMove : All (CanMove (codes "afp") (codes "org") moving_world) two_files
unfolding has_byte elem lookup Bytes-discrete FilePath-discrete
two_files-CanMove = (
  record {
    plain = refl;
    fits = omega arith;
    holds = record { fits = omega arith; loose = refl; there = refl };
    free = refl;
  },
  (
    record {
      plain = refl;
      fits = omega arith;
      holds = record { fits = omega arith; loose = refl; there = refl };
      free = refl;
    },
    tt,
  ),
)

two_files-DistinctNames : DistinctNames two_files
two_files-DistinctNames = (
  ((λ e. let first : 55 ≡ 49 = ap (λ (s : Bytes). char_at s 0) e in omega (arith, first)), tt),
  (tt, tt),
)

pub org-Apart : codes "org" ≢ codes "afp"
org-Apart e = let first : 111 ≡ 97 = ap (λ (s : Bytes). char_at s 0) e in omega (arith, first)

org-Aside : codes "org" ≢ codes "log"
org-Aside e = let first : 111 ≡ 108 = ap (λ (s : Bytes). char_at s 0) e in omega (arith, first)

-- Both lists stand in the directory "log".
abbrev pub listed_names : List Bytes
listed_names = codes "1.afp" ∷ codes "12.afp" ∷ codes "7.afp" ∷ []

two_files-CanTake : CanTake (codes "afp") (codes "org") two_files moving_world
unfolding has_byte elem names_in Bytes-discrete
two_files-CanTake = record {
  dir = refl;
  clear = (record { entry = refl; plain = refl; fits = omega arith; loose = refl }, tt);
  apart = org-Apart;
  distinct = two_files-DistinctNames;
  can = two_files-CanMove;
}

pub bots-CanDeliver :
    CanDeliver
      (codes "afp")
      (codes "org")
      (codes "log")
      bot_afps_file
      listed_names
      two_files
      moving_world
unfolding has_byte lookup Bytes-discrete FilePath-discrete
bots-CanDeliver = record {
  takes = two_files-CanTake;
  aside = org-Aside;
  holds = record { fits = omega arith; loose = refl; there = refl };
  texts = ((refl, refl, omega arith), ((refl, refl, omega arith), ((refl, refl, omega arith), tt)));
}

mov_cnt_file-delivers_example :
    (gs : FileTable) × (mov_cnt_file
        (codes "afp")
        (codes "org")
        (codes "log")
        (pos 1)
        (pos 2)
        moving_world
      ≡ done (pos 0) (record moving_world { files = gs }))
    × ((q : FilePath)
        → lookup q gs
          ≡ delivered (codes "afp") (codes "org") two_files q (lookup q moving_world.files))
    × (names_in (codes "org") gs ≡ names_of two_files)
mov_cnt_file-delivers_example =
    mov_cnt_file-delivers (codes "afp") (codes "org") (codes "log") 1 2 listed_names two_files
      moving_world (omega arith) refl bots-CanDeliver
