-- ===== src/Tests/Upload.antt =====
-- A group server that hands over the one file of ORG_DIR.
use finger_move.Base.{All, [], arith, refl, true, ◌++◌, ◌∷◌, ◌≡◌}
use finger_move.Clib.{Bytes-discrete, codes, elem, has_byte}
use finger_move.Client.{run_client}
use finger_move.Client.Upload.{CanUpload, run_client-uploads, uploads}
use finger_move.Prodeal.Move.Chosen.{Chosen}
use finger_move.Prodeal.Move.Listing.{names_of}
use finger_move.Tests.Groups.{one_wanted}
use finger_move.Tests.Moves.{moving_world}
use finger_move.World.{done}
use finger_move.World.Files.{FilePath-discrete, lookup, names_in}

abbrev one_file : Chosen
one_file = (codes "9.afp", codes "old") ∷ []

one_file-found :
    (elem (codes "org") moving_world.dirs ≡ true)
    × (names_in (codes "org") moving_world.files ≡ names_of one_file)
unfolding elem names_in Bytes-discrete
one_file-found = (refl, refl)

one_file-CanUpload : All (CanUpload (codes "org") moving_world) one_file
unfolding has_byte lookup Bytes-discrete FilePath-discrete
one_file-CanUpload = (
  record {
    entry = refl;
    plain = refl;
    size = omega arith;
    holds = record { fits = omega arith; loose = refl; there = refl };
  },
  tt,
)

run_client-uploads_example :
    run_client one_wanted moving_world
    ≡ done tt
        (record moving_world { sent = [] ++ uploads moving_world.config.clt_move_addr one_file })
run_client-uploads_example =
    run_client-uploads one_wanted one_file moving_world one_file-found.0 one_file-found.1
      one_file-CanUpload
