-- ===== src/Tests/Start.antt =====
-- `main` of src/service.cc on a configuration file and a list of sub caches.
use finger_move.Autoconf.Config.{defaults, dispath}
use finger_move.Autoconf.Inspect.{conf_name, runs, words}
use finger_move.Autoconf.Reload.{Pairs, assign_all, pair_words}
use finger_move.Base.{All, List, [], arith, false, map, refl, some, ◌++◌, ◌∷◌, ◌≡◌}
use finger_move.Clib.{Bytes, Bytes-discrete, c_str, codes, has_byte, newline}
use finger_move.Clib.Laws.Lines.{IsText, written}
use finger_move.Service.{Thread, main, main_cache, run_server}
use finger_move.Service.Start.{main-starts, servers_of}
use finger_move.World.{World, done, fopen_rb}
use finger_move.World.Files.{FilePath-discrete, locate, lookup, path}

abbrev start_pairs : Pairs
start_pairs = (codes "SUB_LIST", codes "subs") ∷ (codes "GROUP_LIMIT", codes "20") ∷ []

abbrev conf_text : Bytes
conf_text = codes "SUB_LIST subs" ++ newline ∷ codes "GROUP_LIMIT 20" ++ newline ∷ []

abbrev sub_addrs : List Bytes
sub_addrs = codes "10.0.0.3:6" ∷ codes "10.0.0.4:6" ∷ []

abbrev first_world : World
first_world = record {
  dirs = codes "." ∷ codes ".." ∷ [];
  files =
      (path (codes "..") (codes "conf"), conf_text)
      ∷ (path (codes ".") (codes "subs"), written sub_addrs)
      ∷ [];
  locked = λ p. false;
  logged = [];
  sent = [];
  config = defaults;
  sublist = [];
}

first-conf : fopen_rb conf_name first_world ≡ done (some conf_text) first_world
unfolding fopen_rb lookup locate has_byte FilePath-discrete Bytes-discrete
first-conf = refl

first-words : words conf_text ≡ pair_words start_pairs
unfolding words runs pair_words
first-words = refl

first-subs :
    fopen_rb
      (assign_all start_pairs defaults).sub_list
      (record first_world { config = assign_all start_pairs defaults })
    ≡ done
        (some (written sub_addrs))
        (record first_world { config = assign_all start_pairs defaults })
unfolding fopen_rb lookup locate has_byte assign_all dispath c_str FilePath-discrete Bytes-discrete
first-subs = refl

sub_addrs-IsText : All IsText sub_addrs
unfolding has_byte
sub_addrs-IsText = ((refl, refl, omega arith), ((refl, refl, omega arith), tt))

-- The letters are "gmx", and the last one is none of a role.
main-starts_example :
    let c = assign_all start_pairs defaults in
    (ts : List Thread) × (main [] (b'g' ∷ b'm' ∷ b'x' ∷ []) first_world
      ≡ done (some ts) (record first_world { config = c; sublist = [] ++ sub_addrs }))
    × (map (λ t. run_server t c) ts ≡ servers_of main_cache c)
main-starts_example =
    main-starts [] conf_text (b'g' ∷ []) (b'x' ∷ []) main_cache start_pairs sub_addrs first_world
      first-conf first-words (omega arith) first-subs sub_addrs-IsText (refl, tt)
