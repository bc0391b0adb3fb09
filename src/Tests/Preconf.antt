-- ===== src/Tests/Preconf.antt =====
-- Preconf of src/server.cc on the archive of Tests/Steps, and a file that reaches a sub cache.
use finger_move.Base.{
  All, [], ap, arith, length, minus_one, pos, refl, subst, sym, take, ◌++◌, ◌<◌, ◌∷◌, ◌≡◌, ◌≢◌, ◌⊎◌,
}
use finger_move.Clib.{
  Bytes, Bytes-discrete, atoi, char_at, codes, decimal, digits_value, elem, find, has_byte, lines,
  log_name, newline, skip_space, strcmp,
}
use finger_move.Prodeal.Count.{bump, count_lines, song_id}
use finger_move.Prodeal.Filter.{elem_ℤ}
use finger_move.Prodeal.Logs.{expire, mov_log_file}
use finger_move.Prodeal.Move.Chosen.{Chosen}
use finger_move.Prodeal.Move.Delivery.{CanTake, delivered}
use finger_move.Prodeal.Move.Listing.{names_of}
use finger_move.Prodeal.Names.{flt_logs_file, get_afp_name, log_num_count, top_afps_file}
use finger_move.Prodeal.Pipeline.{Ready, sorted_counts}
use finger_move.Prodeal.Select.Entries.{IsEntry}
use finger_move.Prodeal.Select.Fingers.{finger_names}
use finger_move.Prodeal.Select.Top.{above}
use finger_move.Prodeal.Select.Written.{AreLines}
use finger_move.Prodeal.Steps.{pro_deal}
use finger_move.Prodeal.Working.{known_counts}
use finger_move.Server.{gc_preconf}
use finger_move.Server.Offer.{gc_preconf-delivers, offer, refusal}
use finger_move.Tests.Insertion.{insert, insertion, insertion-IsSorter}
use finger_move.Tests.Steps.{
  day-AreLines, day-IsEntry, day_archive, day_archive-IsLog, day_counts, file_names, log-elem,
  log-names_in, log-wrk, logs, wrk-Holds, wrk-writable,
}
use finger_move.World.{World, done, for_each, list_dir, ◌>>◌}
use finger_move.World.Files.{FilePath-discrete, lookup, names_in, path}

abbrev day : World
day = day_archive

-- There is no directory of running logs, and no log is out of date.
day-first :
    (get_afp_name day.config.afp_dir day.config.wrk_dir
        >> mov_log_file 1448611750 day.config.dat_dir day.config.log_dir)
      day
    ≡ done minus_one day
unfolding get_afp_name mov_log_file Bytes-discrete FilePath-discrete elem list_dir names_in for_each
    expire strcmp log_name
day-first = refl

day-counts : sorted_counts insertion logs ≡ day_counts
unfolding insertion insert count_lines song_id bump find Bytes-discrete lines
day-counts = refl

day-Ready : Ready insertion (codes "log") (codes "wrk") (codes "12.afp" ++ newline ∷ []) logs day
day-Ready = record {
  dir = log-elem;
  found = log-names_in;
  logs_hold = day_archive-IsLog;
  differ = log-wrk;
  afp_names = wrk-Holds.0;
  counts = record { fits = omega arith; free = wrk-writable log_num_count file_names.0 };
  filtered = record { fits = omega arith; free = wrk-writable flt_logs_file file_names.1 };
  tops = record { fits = omega arith; free = wrk-writable top_afps_file file_names.2 };
  good = subst AreLines (sym day-counts) day-AreLines;
  entries = subst (All IsEntry) (sym day-counts) day-IsEntry;
}

pub afp-wrk : codes "afp" ≢ codes "wrk"
afp-wrk e = let first : 97 ≡ 119 = ap (λ (s : Bytes). char_at s 0) e in omega (arith, first)

pub org-wrk : codes "org" ≢ codes "wrk"
org-wrk e = let first : 111 ≡ 119 = ap (λ (s : Bytes). char_at s 0) e in omega (arith, first)

wrk-org : codes "wrk" ≢ codes "org"
wrk-org e = org-wrk (sym e)

abbrev moved : Chosen
moved = (codes "12.afp", codes "xy") ∷ []

moved-names :
    names_of moved
    ≡ finger_names (
        take 5 (
          above
            (pos 0)
            (known_counts (codes "12.afp" ++ newline ∷ []) (sorted_counts insertion logs))))
unfolding decimal elem_ℤ atoi lines skip_space digits_value
moved-names = rw day-counts

moved-CanTake : CanTake (codes "afp") (codes "org") moved day
unfolding has_byte elem lookup names_in Bytes-discrete FilePath-discrete
moved-CanTake = record {
  dir = refl;
  clear = (record { entry = refl; plain = refl; fits = omega arith; loose = refl }, tt);
  apart = λ e. let first : 111 ≡ 97 = ap (λ (s : Bytes). char_at s 0) e in omega (arith, first);
  distinct = (tt, tt);
  can = (
    record {
      plain = refl;
      fits = omega arith;
      holds = record { fits = omega arith; loose = refl; there = refl };
      free = refl;
    },
    tt,
  );
}

gc_preconf-delivers_example :
    let c = day.config in
    let chosen = take 5 (
      above
        (pos 0)
        (known_counts (codes "12.afp" ++ newline ∷ []) (sorted_counts insertion logs))) in
    let result = gc_preconf (pro_deal insertion 1448611750) (record { len = pos 0 }) day in
    let q = path (codes "org") (codes "12.afp") in
    ((chosen ≡ [])
      × ((w' : World) × (result ≡ done refusal w') × (lookup q w'.files ≡ lookup q day.files)))
    ⊎ ((0 < length chosen)
        × ((w' : World) × (result ≡ done (offer (length chosen)) w')
            × (lookup q w'.files ≡ delivered c.afp_dir c.org_dir moved q (lookup q day.files))))
gc_preconf-delivers_example =
    gc_preconf-delivers insertion 1448611750 (record { len = pos 0 })
      (codes "12.afp" ++ newline ∷ []) logs minus_one moved (path (codes "org") (codes "12.afp"))
      day day insertion-IsSorter day-first day-Ready moved-names moved-CanTake afp-wrk org-wrk
      wrk-org
