-- ===== src/Tests/Receipt.antt =====
-- A group and a sub cache that get the calls of a day.
use finger_move.Autoconf.Config.{defaults}
use finger_move.Base.{
  All, List, [], ap, arith, false, if◌then◌else◌, map, none, pos, refl, sym, ℕ, ◌∷◌, ◌≡◌, ◌≢◌,
}
use finger_move.Clib.{Bytes, Bytes-discrete, char_at, codes, elem, has_byte}
use finger_move.Prodeal.Move.Clear.{mentions}
use finger_move.Prodeal.Move.Listing.{names_of}
use finger_move.Prodeal.Steps.{pro_deal}
use finger_move.Rpc.{Reply, status_ok}
use finger_move.Server.Dispatch.{gm_server, reply, sc_server, serve}
use finger_move.Service.Forget.{CanForget, OtherAddrs, serve-day_calls_deletes}
use finger_move.Service.Receipt.{
  CanReceive, all_files, conf_of, files_for, put_all, requests_to, serve-day_calls,
}
use finger_move.Service.Shares.{day_calls}
use finger_move.Tests.Groups.{busy, one_wanted, two_groups}
use finger_move.Tests.Insertion.{insertion}
use finger_move.World.{World, done}
use finger_move.World.Files.{FilePath, FileTable, lookup, path}

abbrev group_addr : Bytes
group_addr = codes "10.0.0.7:9"

abbrev sub_addr : Bytes
sub_addr = codes "10.0.0.3:6"

abbrev pub peer_world : World
peer_world = record {
  dirs = codes "afp" ∷ codes "dst" ∷ [];
  files =
      (path (codes "afp") (codes "12.afp"), codes "copy")
      ∷ (path (codes "dst") (codes "7.afp"), codes "old")
      ∷ [];
  locked = λ p. false;
  logged = [];
  sent = [];
  config = record defaults { afp_dir = codes "afp"; dst_dir = codes "dst" };
  sublist = [];
}

differ_at : (i : ℕ) (s t : Bytes) → char_at s i ≢ char_at t i → s ≢ t
differ_at i s t h e = h (ap (λ (r : Bytes). char_at r i) e)

sub-group : sub_addr ≢ group_addr
sub-group = differ_at 7 sub_addr group_addr (omega arith)

group-confs : All (λ v. conf_of v ≢ group_addr) two_groups
group-confs = (
  differ_at 9 (codes "10.0.0.7:8") group_addr (omega arith),
  (
    differ_at 7 busy group_addr (omega arith),
    (differ_at 9 (codes "10.0.0.7:8") group_addr (omega arith), tt),
  ),
)

peer-CanReceive : All (CanReceive peer_world) (files_for group_addr two_groups)
unfolding has_byte elem Bytes-discrete
peer-CanReceive = (((refl, refl), omega arith, refl), (((refl, refl), omega arith, refl), tt))

serve-day_calls_example :
    let fs = files_for group_addr two_groups in
    (ts : FileTable) × (serve one_wanted
        (pro_deal insertion 43200)
        []
        gm_server
        (requests_to group_addr (day_calls (pos 3) (sub_addr ∷ []) two_groups))
        peer_world
      ≡ done (map (λ e. reply status_ok) fs) (record peer_world { files = ts }))
    × ((q : FilePath) → lookup q ts ≡ put_all (codes "dst") fs q (lookup q peer_world.files))
serve-day_calls_example =
    serve-day_calls one_wanted (pro_deal insertion 43200) [] (pos 3) (sub_addr ∷ []) two_groups
      group_addr peer_world (sub-group, tt) group-confs peer-CanReceive

other_sub : codes "10.0.0.4:6" ≢ sub_addr
other_sub = differ_at 7 (codes "10.0.0.4:6") sub_addr (omega arith)

sub-OtherAddrs : All (OtherAddrs sub_addr) two_groups
sub-OtherAddrs = (
  (differ_at 7 (codes "10.0.0.7:8") sub_addr (omega arith), (λ e. sub-group (sym e), tt)),
  (
    (differ_at 7 busy sub_addr (omega arith), tt),
    ((differ_at 7 (codes "10.0.0.7:8") sub_addr (omega arith), (λ e. sub-group (sym e), tt)), tt),
  ),
)

peer-CanForget : All (CanForget peer_world) (all_files two_groups)
unfolding has_byte
peer-CanForget = (
  ((refl, refl), (λ e. cc), omega arith, refl),
  (((refl, refl), (λ e. cc), omega arith, refl), tt),
)

serve-day_calls_deletes_example :
    (as' : List Reply) × (ts : FileTable) × (serve one_wanted
        (pro_deal insertion 43200)
        []
        sc_server
        (requests_to sub_addr (day_calls (pos 3) (sub_addr ∷ codes "10.0.0.4:6" ∷ []) two_groups))
        peer_world
      ≡ done as' (record peer_world { files = ts }))
    × ((q : FilePath)
        → lookup q ts ≡ (
            if mentions (codes "afp") (names_of (all_files two_groups)) q
            then none
            else lookup q peer_world.files))
serve-day_calls_deletes_example =
    serve-day_calls_deletes one_wanted (pro_deal insertion 43200) [] (pos 3) []
      (codes "10.0.0.4:6" ∷ []) two_groups sub_addr peer_world tt (other_sub, tt) sub-OtherAddrs
      peer-CanForget
