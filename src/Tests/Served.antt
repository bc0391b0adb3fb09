-- ===== src/Tests/Served.antt =====
-- A server that is watched over a request.
use finger_move.Base.{List, [], refl, ◌∷◌, ◌≡◌}
use finger_move.Clib.{Bytes-discrete, c_str, codes, has_byte}
use finger_move.Prodeal.Steps.{pro_deal}
use finger_move.Rpc.{Request, cancelled, delafps, status_ok}
use finger_move.Server.{sc_delafps}
use finger_move.Server.Dispatch.{answer, reply, sc_server, serve}
use finger_move.Server.Limits.{tells}
use finger_move.Server.Served.{serve-Stays}
use finger_move.Tests.Groups.{one_wanted}
use finger_move.Tests.Insertion.{insertion}
use finger_move.Tests.Receipt.{peer_world}
use finger_move.World.{World, done, remove, sprintf_path}
use finger_move.World.Files.{FilePath-discrete, erase, locate, lookup, path}
use finger_move.World.Keeps.{Stays}

abbrev delete_one : List Request
delete_one =
    delafps (record { name = codes "12.afp" }) ∷ delafps (record { name = codes "1.afp" }) ∷ []

abbrev deleted_world : World
deleted_world = record peer_world { files = (path (codes "dst") (codes "7.afp"), codes "old") ∷ [] }

deleted-run :
    serve one_wanted (pro_deal insertion 43200) [] sc_server delete_one peer_world
    ≡ done (reply status_ok ∷ reply cancelled ∷ []) deleted_world
unfolding serve answer sc_delafps sprintf_path remove lookup erase locate has_byte c_str
    FilePath-discrete Bytes-discrete
deleted-run = refl

serve-Stays_example : Stays (tells peer_world sc_server) peer_world deleted_world
serve-Stays_example =
    serve-Stays one_wanted insertion 43200 [] sc_server delete_one peer_world deleted_world
      (reply status_ok ∷ reply cancelled ∷ []) deleted-run
