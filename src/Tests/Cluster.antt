-- ===== src/Tests/Cluster.antt =====
-- Several peers at once.
use finger_move.Base.{All, List, [], arith, map, refl, some, ◌++◌, ◌∷◌, ◌≡◌}
use finger_move.Clib.{Bytes-discrete, codes, has_byte}
use finger_move.Rpc.{Request, addafps, cancelled, delafps, status_ok}
use finger_move.Server.{mc_afpmove}
use finger_move.Server.Cache.{CanServe, cache_answers, cache_steps, serve-cache_steps, table}
use finger_move.Server.Dispatch.{answer, reply, sc_server, serve}
use finger_move.Server.Mirror.{mc_afpmove-answer}
use finger_move.Tests.Servers.{
  agreeing, some_config, some_world, song, song-CanStore, song-IsPlain, song-writable, song_request,
  song_request-value, steps_at_noon,
}
use finger_move.World.{World, done}
use finger_move.World.Files.{FilePath-discrete, FileTable, lookup, path}

-- A sub cache that holds nothing yet.
abbrev sub_world : World
sub_world = record some_world { files = [] }

mc_afpmove-answer_example :
    (w' : World) × (u' : World) × (r : Request) × (mc_afpmove agreeing
        (codes "ipv4:10.0.0.1:77")
        song_request
        some_world
      ≡ done status_ok w')
    × (w'.sent ≡ [] ++ map (λ a. record { addr = a; request = r }) some_world.sublist)
    × (answer agreeing steps_at_noon (codes "ipv4:10.0.0.2:78") sc_server r sub_world
        ≡ done (reply status_ok) u')
    × (lookup (path (codes "dst") song) w'.files ≡ some (codes "abc"))
    × (lookup (path (codes "dst") song) u'.files ≡ some (codes "abc"))
mc_afpmove-answer_example =
    mc_afpmove-answer agreeing steps_at_noon (codes "ipv4:10.0.0.1:77") (codes "ipv4:10.0.0.2:78")
      song_request (codes "abc") (codes "10.0.0.3:6") (codes "10.0.0.4:6" ∷ []) some_world sub_world
      (λ past c. refl) song_request-value refl song-CanStore (omega arith) song-writable

abbrev orders : List Request
orders =
    addafps song_request ∷ delafps (record { name = song }) ∷ delafps (record { name = song }) ∷ []

orders-CanServe : All (CanServe some_world) orders
unfolding has_byte
orders-CanServe = (
  (song-IsPlain, omega arith, song-writable, (codes "abc", song_request-value)),
  (
    (song-IsPlain, (λ e. cc), omega arith, refl),
    ((song-IsPlain, (λ e. cc), omega arith, refl), tt),
  ),
)

orders-answers :
    cache_answers some_config orders (table some_world.files)
    ≡ reply status_ok ∷ reply status_ok ∷ reply cancelled ∷ []
unfolding lookup Bytes-discrete FilePath-discrete
orders-answers = refl

serve-cache_steps_example :
    (fs : FileTable) × (serve agreeing steps_at_noon
        (codes "ipv4:10.0.0.2:78")
        sc_server
        orders
        some_world
      ≡ done
          (cache_answers some_config orders (table some_world.files))
          (record some_world { files = fs }))
    × (table fs ≡ cache_steps some_config orders (table some_world.files))
serve-cache_steps_example =
    serve-cache_steps agreeing steps_at_noon (codes "ipv4:10.0.0.2:78") orders some_world
      orders-CanServe
