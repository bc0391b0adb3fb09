-- ===== src/Tests/Servers.antt =====
-- The handlers of src/server.cc, and the moves of src/prodeal.cc, on files.
use finger_move.Autoconf.Config.{Config, defaults}
use finger_move.Base.{
  List, [], add_int, arith, false, if◌then◌else◌, map, pos, refl, some, true, ◌++◌, ◌+ℤ◌, ◌-◌, ◌^◌,
  ◌∷◌, ◌≡◌, ◌≢◌, ◌⊎◌,
}
use finger_move.Clib.{Bytes, Bytes-discrete, c_str, codes, elem, find, find_from, has_byte, newline}
use finger_move.Client.{failure, host_of, log_text}
use finger_move.Prodeal.Move.{mov_loop}
use finger_move.Prodeal.Move.Window.{mov_loop-mov_loop}
use finger_move.Prodeal.Steps.{CProDeal, pro_deal}
use finger_move.Rpc.{FingerValue, Peers, cancelled, status_ok}
use finger_move.Server.{gm_afpmove, mc_afpmove, peer_host, value_bytes}
use finger_move.Server.Broadcast.{
  CanStore, add_call, copy, mc_afpmove-refused, mc_afpmove-tells_subs,
}
use finger_move.Server.Delete.{DirDeleted, FileDeleted, sc_delafps-cases}
use finger_move.Server.Store.{gm_afpmove-overread}
use finger_move.Tests.Insertion.{insertion}
use finger_move.World.{World, done, fault, writable, ◌>>◌}
use finger_move.World.Effects.{IsPlain, LogFits}
use finger_move.World.Files.{lookup, path, same_path}

abbrev pub some_config : Config
some_config = record defaults {
  dst_dir = codes "dst";
  afp_dir = codes "afp";
  clt_sync_addr = codes "10.0.0.9:5";
}

abbrev pub song : Bytes
song = codes "12.afp"

abbrev pub some_world : World
some_world = record {
  dirs = codes "dst" ∷ codes "afp" ∷ [];
  files = (path (codes "afp") song, codes "xy") ∷ [];
  locked = λ p. false;
  logged = [];
  sent = [];
  config = some_config;
  sublist = codes "10.0.0.3:6" ∷ codes "10.0.0.4:6" ∷ [];
}

abbrev pub song_request : FingerValue
song_request = record { name = song; val = codes "abc"; len = pos 3 }

pub song-IsPlain : IsPlain song
unfolding has_byte
song-IsPlain = (refl, refl)

pub song-writable : writable (path (codes "dst") song) some_world ≡ true
unfolding elem Bytes-discrete
song-writable = refl

abbrev pub agreeing : Peers
agreeing past c = record { status = status_ok; len = pos 0 }

abbrev pub refusing : Peers
refusing past c = record { status = cancelled; len = pos 0 }

pub song-CanStore : CanStore (codes "ipv4:10.0.0.1:77") song some_world
unfolding log_text host_of peer_host find c_str find_from
song-CanStore = record {
  plain = song-IsPlain;
  fits = omega arith;
  free = song-writable;
  told_line = omega arith;
  stored_line = omega arith;
}

pub song_request-value : value_bytes song_request.val song_request.len ≡ some (codes "abc")
unfolding value_bytes
song_request-value = refl

refused_line :
    LogFits (log_text song (codes "++>") (c_str (host_of some_config.clt_sync_addr)) failure)
unfolding log_text host_of find c_str find_from
refused_line = omega arith

abbrev two_lines : List Bytes
two_lines = (song ++ newline ∷ []) ∷ codes "77.afp" ∷ []

gm_afpmove-overread_example :
    gm_afpmove (record { name = song; val = codes "abc"; len = pos 4000 }) some_world ≡ fault
gm_afpmove-overread_example =
    gm_afpmove-overread song (codes "abc") 4000 some_world song-IsPlain (omega arith) song-writable
      (omega arith)

sc_delafps-cases_example :
    ((song ≡ []) × DirDeleted some_world)
    ⊎ ((song ≢ []) × FileDeleted song (path (codes "afp") song) some_world)
sc_delafps-cases_example =
    sc_delafps-cases song (path (codes "afp") song) some_world song-IsPlain (omega arith)

mc_afpmove-tells_subs_example :
    (w' : World) × (mc_afpmove agreeing (codes "ipv4:10.0.0.1:77") song_request some_world
      ≡ done status_ok w')
    × (w'.sent
        ≡ some_world.sent ++ map (add_call (copy song_request (codes "abc"))) some_world.sublist)
    × (lookup (path (codes "afp") song) w'.files ≡ (
        if same_path (path (codes "dst") song) (path (codes "afp") song)
        then some (codes "abc")
        else lookup (path (codes "afp") song) some_world.files))
mc_afpmove-tells_subs_example =
    mc_afpmove-tells_subs agreeing (codes "ipv4:10.0.0.1:77") song_request (codes "abc")
      (codes "10.0.0.3:6") (codes "10.0.0.4:6" ∷ []) (path (codes "afp") song) some_world
      (λ past c. refl) song_request-value refl song-CanStore

mc_afpmove-refused_example :
    (w' : World) × (mc_afpmove refusing (codes "ipv4:10.0.0.1:77") song_request some_world
      ≡ done cancelled w')
    × (w'.sent
        ≡ some_world.sent ++ add_call (copy song_request (codes "abc")) (codes "10.0.0.3:6") ∷ [])
    × (w'.files ≡ some_world.files)
mc_afpmove-refused_example =
    mc_afpmove-refused refusing (codes "ipv4:10.0.0.1:77") song_request (codes "abc")
      (codes "10.0.0.3:6") (codes "10.0.0.4:6" ∷ []) some_world song_request-value refl
      song-IsPlain.0 refused_line refl

-- The sum of position and count is no int.
overflowing_part :
    mov_loop (codes "afp") (codes "dst") (pos 1) (pos (2 ^ 31 - 1)) two_lines 1 some_world ≡ fault
unfolding mov_loop add_int ◌+ℤ◌
overflowing_part = refl

mov_loop-mov_loop_example :
    let move = mov_loop (codes "afp") (codes "dst") in
    (move (pos 0) (pos 1) two_lines 0 >> move (pos 1) (pos 1) two_lines 0) some_world
    ≡ move (pos 0) (pos 2) two_lines 0 some_world
mov_loop-mov_loop_example =
    mov_loop-mov_loop (codes "afp") (codes "dst") 0 1 1 two_lines some_world (omega arith)

abbrev pub steps_at_noon : CProDeal
steps_at_noon = pro_deal insertion 43200
