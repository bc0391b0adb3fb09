-- ===== src/Tests/Failures.antt =====
-- Steps of src/prodeal.cc that fail, as Preconf of src/server.cc and runLoop of src/service.cc meet them.
use finger_move.Base.{[], inr, minus_one, pos, refl, some, ℕ, ◌++◌, ◌<◌, ◌∷◌, ◌≡◌, ◌≤◌, ◌⊎◌}
use finger_move.Clib.{Bytes, Bytes-discrete, codes, elem, newline}
use finger_move.Prodeal.Count.{cnt_srh_nums}
use finger_move.Prodeal.Filter.{flt_log_file}
use finger_move.Prodeal.Logs.{mov_log_file}
use finger_move.Prodeal.Names.{get_afp_name}
use finger_move.Prodeal.Select.{bot_afp_file}
use finger_move.Prodeal.Steps.{pro_deal}
use finger_move.Server.{gc_preconf}
use finger_move.Server.Answer.{gc_preconf-answers, refusal_line}
use finger_move.Server.Offer.{offer, refusal}
use finger_move.Service.{run_loop}
use finger_move.Service.Idle.{day_steps, run_loop-gives_up}
use finger_move.Tests.Groups.{one_wanted}
use finger_move.Tests.Insertion.{insertion}
use finger_move.Tests.Steps.{day_archive, day_config}
use finger_move.World.{World, done, fault, fopen_rb, list_dir, sprintf_path}
use finger_move.World.Files.{FilePath-discrete, FileTable, locate, lookup, path}

-- There is a group list, and none of the directories.
abbrev bare_world : World
bare_world = record day_archive {
  dirs = [];
  files = (path (codes ".") (codes "groups"), codes "10.0.0.7:8 10.0.0.7:9" ++ newline ∷ []) ∷ [];
  config = record day_config { group_list = codes "groups" };
}

bare-opens :
    fopen_rb (codes "groups") bare_world
    ≡ done (some (codes "10.0.0.7:8 10.0.0.7:9" ++ newline ∷ [])) bare_world
unfolding fopen_rb lookup FilePath-discrete Bytes-discrete locate
bare-opens = refl

bare-steps :
    day_steps (pro_deal insertion 43200) bare_world.config bare_world ≡ done minus_one bare_world
unfolding pro_deal get_afp_name mov_log_file cnt_srh_nums flt_log_file bot_afp_file list_dir
    sprintf_path fopen_rb lookup locate elem FilePath-discrete Bytes-discrete
bare-steps = refl

run_loop-gives_up_example :
    (fs : FileTable) × (line : Bytes) × (run_loop one_wanted
        (pro_deal insertion 43200)
        []
        bare_world
      ≡ done tt (record bare_world { files = fs; logged = [] ++ line ∷ [] }))
run_loop-gives_up_example =
    run_loop-gives_up one_wanted insertion 43200 [] bare_world
      (inr (codes "10.0.0.7:8 10.0.0.7:9" ++ newline ∷ [], bare_world, bare-opens, bare-steps))

gc_preconf-answers_example :
    let r = gc_preconf (pro_deal insertion 43200) (record { len = pos 0 }) bare_world in
    (r ≡ fault)
    ⊎ ((fs : FileTable) × (r
          ≡ done refusal (record bare_world { files = fs; logged = [] ++ refusal_line ∷ [] })))
    ⊎ ((n : ℕ) × (fs : FileTable) × (r ≡ done (offer n) (record bare_world { files = fs }))
        × (0 < n)
        × (n ≤ 5))
gc_preconf-answers_example = gc_preconf-answers insertion 43200 (record { len = pos 0 }) bare_world
