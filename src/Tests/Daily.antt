-- ===== src/Tests/Daily.antt =====
-- One day of runLoop of src/service.cc, and the archive that `movLogFile` keeps.
use finger_move.Autoconf.Inspect.{words}
use finger_move.Base.{
  All, List, [], arith, minus_one, pos, refl, some, subst, sym, ℕ, ◌++◌, ◌∷◌, ◌≡◌, ◌≢◌,
}
use finger_move.Clib.{
  Bytes, Bytes-discrete, atoi, codes, decimal, digits_value, elem, find, find_from, has_byte, lines,
  log_name, newline, skip_space, strcmp,
}
use finger_move.Clib.Laws.Lines.{written}
use finger_move.Client.{host_of}
use finger_move.Prodeal.Count.{bump, count_lines, song_id}
use finger_move.Prodeal.Daily.{CanChoose, present_counts, rising_counts}
use finger_move.Prodeal.Filter.{elem_ℤ}
use finger_move.Prodeal.Logs.{expire, mov_log_file}
use finger_move.Prodeal.Names.{afp_name_file, get_afp_name}
use finger_move.Prodeal.Select.Entries.{IsEntry}
use finger_move.Prodeal.Select.Written.{AreLines}
use finger_move.Prodeal.Steps.{pro_deal}
use finger_move.Service.{run_loop}
use finger_move.Service.Loop.{CanOffer, cache_list, run_loop-delivers, threshold}
use finger_move.Service.Shares.{CanVisit, Visit, accepted, day_calls, day_files, tokens}
use finger_move.Tests.Groups.{group_of, host_of_group, one_wanted}
use finger_move.Tests.Insertion.{insert, insertion}
use finger_move.Tests.Moves.{org-Apart}
use finger_move.Tests.Preconf.{afp-wrk, org-wrk}
use finger_move.Tests.Steps.{day-IsEntry, day_archive, day_config, log-wrk, log_one, log_two, logs}
use finger_move.World.{World, done, fopen_rb, for_each, list_dir, ◌>>◌}
use finger_move.World.Files.{FilePath, FilePath-discrete, locate, lookup, names_in, path}

abbrev afp_names : List Bytes
afp_names = codes "12.afp" ∷ codes "40.afp" ∷ []

-- The archive of Tests/Steps, with one more finger file, that nobody asked for, and a group list.
abbrev morning : World
morning = record day_archive {
  dirs = codes "." ∷ codes "log" ∷ codes "wrk" ∷ codes "afp" ∷ codes "org" ∷ [];
  files =
      (path (codes "afp") (codes "12.afp"), codes "xy")
      ∷ (path (codes "afp") (codes "40.afp"), codes "q")
      ∷ (path (codes "org") (codes "9.afp"), codes "z")
      ∷ (path (codes "log") (codes "one.log"), log_one)
      ∷ (path (codes "log") (codes "two.log"), log_two)
      ∷ (path (codes "wrk") afp_name_file, written afp_names)
      ∷ (path (codes ".") (codes "groups"), codes "10.0.0.7:8 10.0.0.7:9" ++ newline ∷ [])
      ∷ [];
  config = record day_config { group_list = codes "groups"; cache_limit = 9 };
  sublist = codes "10.0.0.3:6" ∷ [];
}

abbrev one_group : List Visit
one_group = accepted (group_of (codes "10.0.0.7:9") (codes "40.afp", codes "q")) ∷ []

abbrev now : ℕ
now = 1448611750

morning-opens :
    fopen_rb (codes "groups") morning
    ≡ done (some (codes "10.0.0.7:8 10.0.0.7:9" ++ newline ∷ [])) morning
unfolding fopen_rb lookup FilePath-discrete Bytes-discrete locate
morning-opens = refl

morning-words : words (codes "10.0.0.7:8 10.0.0.7:9" ++ newline ∷ []) ≡ tokens one_group
unfolding words
morning-words = refl

-- There is no directory of running logs, and no log is out of date.
morning-first :
    (get_afp_name (codes "afp") (codes "wrk") >> mov_log_file now (codes "dat") (codes "log"))
      morning
    ≡ done minus_one morning
unfolding get_afp_name mov_log_file Bytes-discrete FilePath-discrete elem list_dir names_in for_each
    expire strcmp log_name
morning-first = refl

rising : rising_counts insertion logs ≡ (codes "7", 1) ∷ (codes "12", 2) ∷ []
unfolding insertion insert count_lines song_id bump find Bytes-discrete lines
rising = refl

present : present_counts insertion afp_names logs ≡ (codes "12", 2) ∷ []
unfolding decimal elem_ℤ atoi lines skip_space digits_value
present = rw rising

morning-cache : cache_list insertion afp_names logs morning ≡ codes "40.afp" ∷ codes "12" ∷ []
unfolding decimal elem_ℤ atoi skip_space digits_value
morning-cache = rw present

rising-AreLines : AreLines ((codes "7", 1) ∷ (codes "12", 2) ∷ [])
unfolding has_byte decimal
rising-AreLines = ((refl, refl, omega arith), ((refl, refl, omega arith), tt))

rising-IsEntry : All IsEntry ((codes "7", 1) ∷ (codes "12", 2) ∷ [])
unfolding has_byte
rising-IsEntry = (day-IsEntry.1.0, (day-IsEntry.0, tt))

morning-CanChoose : CanChoose insertion (codes "log") (codes "wrk") afp_names logs morning
unfolding elem names_in lookup has_byte Bytes-discrete FilePath-discrete
morning-CanChoose = record {
  dir = refl;
  found = refl;
  logs_hold = (
    (refl, refl, record { fits = omega arith; loose = refl; there = refl }),
    ((refl, refl, record { fits = omega arith; loose = refl; there = refl }), tt),
  );
  differ = log-wrk;
  named = record { fits = omega arith; loose = refl; there = refl };
  lines_good = ((refl, refl, omega arith), ((refl, refl, omega arith), tt));
  counts = record { fits = omega arith; free = refl };
  filtered = record { fits = omega arith; free = refl };
  bots = record { fits = omega arith; free = refl };
  good = subst AreLines (sym rising) rising-AreLines;
  entries = subst (All IsEntry) (sym rising) rising-IsEntry;
}

morning-CanOffer : CanOffer (codes "afp") (codes "org") (codes "wrk") morning
unfolding elem names_in has_byte Bytes-discrete
morning-CanOffer = record {
  dir = refl;
  clear = (record { entry = refl; plain = refl; fits = omega arith; loose = refl }, tt);
  org_afp = org-Apart;
  org_wrk = org-wrk;
  afp_wrk = afp-wrk;
}

one_group-CanVisit : All (CanVisit one_wanted (pos 2) (codes "afp") (codes "org") morning) one_group
unfolding has_byte elem lookup host_of find find_from Bytes-discrete FilePath-discrete
one_group-CanVisit = (
  record {
    conf_word = (refl, omega arith);
    move_word = (refl, omega arith);
    accepts = λ past. refl;
    host_is = host_of_group;
    tell = (
      record {
        entry = refl;
        size = omega arith;
        line = omega arith;
        sub_lines = (omega arith, tt);
      },
      tt,
    );
    can = (
      record {
        plain = refl;
        fits = omega arith;
        holds = record { fits = omega arith; loose = refl; there = refl };
        free = refl;
      },
      tt,
    );
    distinct = (tt, tt);
  },
  tt,
)

morning-threshold : threshold insertion afp_names logs morning ≡ pos 2
unfolding decimal elem_ℤ atoi skip_space digits_value
morning-threshold = rw present

run_loop-delivers_example :
    let thr = threshold insertion afp_names logs morning in
    (w' : World) × (run_loop one_wanted (pro_deal insertion now) [] morning ≡ done tt w')
    × (w'.sent ≡ [] ++ day_calls thr (codes "10.0.0.3:6" ∷ []) one_group)
    × ((q : FilePath)
        → codes "wrk" ≢ q.dir
        → lookup q w'.files
          ≡ day_files (codes "afp") (codes "org") one_group q (lookup q morning.files))
run_loop-delivers_example =
    run_loop-delivers one_wanted insertion now [] (codes "10.0.0.7:8 10.0.0.7:9" ++ newline ∷ [])
      afp_names logs minus_one one_group morning morning.files morning-opens morning-words
      morning-first morning-CanChoose morning-CanOffer (omega arith) (rw morning-cache (refl, tt))
      (tt, tt) (rw morning-threshold one_group-CanVisit)
