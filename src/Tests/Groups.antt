-- ===== src/Tests/Groups.antt =====
-- Two groups that accept one file each, and one that refuses, of the list in Tests/Moves.
use finger_move.Base.{All, List, [], ap, arith, if◌then◌else◌, pos, refl, some, ◌++◌, ◌∷◌, ◌≡◌}
use finger_move.Clib.{
  Bytes, Bytes-discrete, after, before, char_at, codes, find, find_from, has_byte, same, skip,
  strtok, strtok_left,
}
use finger_move.Client.{colon, host_of}
use finger_move.Prodeal.Steps.{pro_deal}
use finger_move.Rpc.{Peers, cancelled, status_ok}
use finger_move.Service.{buffer_left, serve_groups}
use finger_move.Service.Day.{serve_groups-delivers}
use finger_move.Service.Groups.{conf_call}
use finger_move.Service.Parts.{CanTell}
use finger_move.Service.Shares.{
  CanVisit, DisjointParts, Group, HasList, Visit, accepted, day_calls, day_files, refused, tokens,
}
use finger_move.Tests.Insertion.{insertion}
use finger_move.Tests.Moves.{
  bots-CanDeliver, listed_names, moving_world, two_files, two_files-CanMove,
}
use finger_move.World.{World, done}
use finger_move.World.Files.{FilePath, lookup}

abbrev pub busy : Bytes
busy = codes "10.0.0.8:8"

abbrev pub one_wanted : Peers
one_wanted past c =
    if same c.addr busy
    then record { status = cancelled; len = pos 0 }
    else record { status = status_ok; len = pos 1 }

abbrev pub group_of : Bytes → Bytes × Bytes → Group
group_of move file = record {
  conf_addr = codes "10.0.0.7:8";
  move_addr = move;
  host = codes "10.0.0.7";
  more = codes "9";
  files = file ∷ [];
}

abbrev pub two_groups : List Visit
two_groups =
    accepted (group_of (codes "10.0.0.7:9") (codes "12.afp", codes "xy"))
    ∷ refused busy (codes "10.0.0.8:9")
    ∷ accepted (group_of (codes "10.0.0.7:9") (codes "7.afp", codes "z"))
    ∷ []

pub host_of_group : strtok colon (codes "10.0.0.7:9") ≡ some (codes "10.0.0.7", codes "9")
unfolding strtok skip before after
host_of_group = refl

two_files-CanTell : All (CanTell (codes "10.0.0.7") moving_world) two_files
unfolding host_of find find_from Bytes-discrete
two_files-CanTell = (
  record { entry = refl; size = omega arith; line = omega arith; sub_lines = (omega arith, tt) },
  (
    record { entry = refl; size = omega arith; line = omega arith; sub_lines = (omega arith, tt) },
    tt,
  ),
)

two_groups-CanVisit :
    All (CanVisit one_wanted (pos 3) (codes "afp") (codes "org") moving_world) two_groups
unfolding has_byte Bytes-discrete
two_groups-CanVisit = (
  record {
    conf_word = (refl, omega arith);
    move_word = (refl, omega arith);
    accepts = λ past. refl;
    host_is = host_of_group;
    tell = (two_files-CanTell.0, tt);
    can = (two_files-CanMove.0, tt);
    distinct = (tt, tt);
  },
  (
    ((refl, omega arith), (refl, omega arith), (λ past. refl)),
    (
      record {
        conf_word = (refl, omega arith);
        move_word = (refl, omega arith);
        accepts = λ past. refl;
        host_is = host_of_group;
        tell = (two_files-CanTell.1.0, tt);
        can = (two_files-CanMove.1.0, tt);
        distinct = (tt, tt);
      },
      tt,
    ),
  ),
)

two_groups-DisjointParts : DisjointParts two_groups
two_groups-DisjointParts = (
  (
    tt,
    (
      (
        (
          (λ e. let first : 49 ≡ 55 = ap (λ (s : Bytes). char_at s 0) e in omega (arith, first)),
          tt,
        ),
        tt,
      ),
      tt,
    ),
  ),
  ((((tt, tt), tt)), (tt, tt)),
)

moving-HasList : HasList (codes "afp") (codes "org") (codes "log") listed_names moving_world
moving-HasList = record {
  dir = bots-CanDeliver.takes.dir;
  clear = bots-CanDeliver.takes.clear;
  org_afp = bots-CanDeliver.takes.apart;
  org_wrk = bots-CanDeliver.aside;
  afp_wrk = λ e. let first : 97 ≡ 108 = ap (λ (s : Bytes). char_at s 0) e in omega (arith, first);
  holds = bots-CanDeliver.holds;
  texts = bots-CanDeliver.texts;
}

-- What the buffer of an address holds when a file was sent to it.
host_left : buffer_left [] (conf_call busy (pos 3) ∷ []) (codes "10.0.0.7:9") ≡ codes "10.0.0.7"
unfolding buffer_left strtok_left before
host_left = refl

serve_groups-delivers_example :
    (w' : World) × (serve_groups one_wanted
        (pro_deal insertion 43200)
        (pos 3)
        []
        (tokens two_groups)
        (pos 1)
        moving_world
      ≡ done (pos 3) w')
    × (w'.sent ≡ [] ++ day_calls (pos 3) (codes "10.0.0.3:6" ∷ []) two_groups)
    × ((q : FilePath)
        → lookup q w'.files
          ≡ day_files (codes "afp") (codes "org") two_groups q (lookup q moving_world.files))
serve_groups-delivers_example =
    serve_groups-delivers one_wanted insertion 43200 (pos 3) [] 1 listed_names two_groups
      moving_world (omega arith) (refl, (refl, (refl, tt))) two_groups-DisjointParts moving-HasList
      two_groups-CanVisit
