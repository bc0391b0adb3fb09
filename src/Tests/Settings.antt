-- ===== src/Tests/Settings.antt =====
-- The configuration of src/autoconf.cc.
use finger_move.Autoconf.Assign.{key, read, read-dispath-key, text}
use finger_move.Autoconf.Config.{defaults, dispath, tag_log_dir, tag_wrk_dir}
use finger_move.Autoconf.Inspect.{Poll, load, new_inspect, routing_fn, runs, words}
use finger_move.Autoconf.Reload.{Pairs, assign_all, last_value, load-odd, pair_words}
use finger_move.Autoconf.Rounds.{Sees, closing, opened, quiet, routing_fn-settled}
use finger_move.Base.{
  All, List, [], arith, if◌then◌else◌, inl, inr, none, refl, some, ◌++◌, ◌∷◌, ◌≡◌,
}
use finger_move.Clib.{Bytes, c_str, codes, newline}

read-dispath-key_example :
    (read tag_wrk_dir (dispath (key tag_wrk_dir) (codes "wrk") defaults) ≡ text (codes "wrk"))
    × (read tag_log_dir (dispath (key tag_wrk_dir) (codes "wrk") defaults) ≡ text [])
read-dispath-key_example = read-dispath-key tag_wrk_dir tag_log_dir (codes "wrk") defaults (λ e. cc)

abbrev some_pairs : Pairs
some_pairs = (codes "AFP_DIR", codes "afp") ∷ (codes "GROUP_LIMIT", codes "20") ∷ []

load-odd_example :
    load [] (pair_words some_pairs ++ codes "WRK_DIR" ∷ []) defaults
    ≡ some (
      dispath
          (c_str (codes "WRK_DIR"))
          (c_str (last_value [] some_pairs))
          (assign_all some_pairs defaults),
      last_value [] some_pairs,
    )
load-odd_example = load-odd (codes "WRK_DIR") some_pairs [] defaults (omega arith) (omega arith)

abbrev some_file : Bytes
some_file = codes "AFP_DIR afp" ++ newline ∷ codes "GROUP_LIMIT 20" ++ newline ∷ []

abbrev some_polls : List Poll
some_polls = quiet none ∷ quiet (some some_file) ∷ quiet none ∷ []

some_polls-Sees : All (Sees some_pairs) some_polls
unfolding words runs pair_words
some_polls-Sees = (inl refl, (inr (some_file, refl, refl), (inl refl, tt)))

routing_fn-settled_example :
    routing_fn new_inspect [] (some_polls ++ closing (some []) ∷ some_polls) defaults
    ≡ some (
        if opened some_polls
        then (assign_all some_pairs defaults, last_value [] some_pairs)
        else (defaults, []))
routing_fn-settled_example =
    routing_fn-settled some_pairs some_polls (some []) some_polls [] defaults (omega arith)
      some_polls-Sees
