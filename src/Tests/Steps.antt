-- ===== src/Tests/Steps.antt =====
-- The steps of src/prodeal.cc on the files that they read and write.
use finger_move.Autoconf.Config.{Config, defaults}
use finger_move.Base.{
  All, List, [], ap, arith, false, if◌then◌else◌, map, minus_one, pos, refl, some, true, ℕ, ◌++◌,
  ◌∷◌, ◌≡◌, ◌≢◌, ◌⊎◌,
}
use finger_move.Clib.{
  Bytes, Bytes-discrete, char_at, codes, decimal, elem, find, has_byte, lines, newline,
}
use finger_move.Clib.Laws.Lines.{terminated, written}
use finger_move.Prodeal.Count.{bump, cmp, cnt_srh_nums, count_lines, count_text, song_id}
use finger_move.Prodeal.Count.Tally.{asked, count_of}
use finger_move.Prodeal.Count.Totals.{IsLog, all_lines, cnt_srh_nums-totals, names}
use finger_move.Prodeal.Names.{
  afp_name_file, flt_logs_file, get_afp_name, log_num_count, top_afps_file,
}
use finger_move.Prodeal.Names.Listed.{IsListed, get_afp_name-cases}
use finger_move.Prodeal.Select.Entries.{IsEntry}
use finger_move.Prodeal.Select.Top.{Descending}
use finger_move.Prodeal.Select.Written.{AreLines}
use finger_move.Tests.Insertion.{insert, insertion, insertion-IsSorter}
use finger_move.World.{World, done, writable}
use finger_move.World.Effects.{Holds}
use finger_move.World.Files.{FilePath-discrete, is_file_name, lookup, names_in, path, same_path}

-- An archive of two logs, the working files of a day before, and finger files.
abbrev pub log_one : Bytes
log_one = codes "$$1|12|x" ++ newline ∷ codes "$$2|7|x" ++ newline ∷ []

abbrev pub log_two : Bytes
log_two = codes "$$3|12|x" ++ newline ∷ []

abbrev pub logs : List (Bytes × Bytes)
logs = (codes "one.log", log_one) ∷ (codes "two.log", log_two) ∷ []

abbrev counted_texts : List Bytes
counted_texts = codes "12|2" ∷ codes "7|1" ∷ []

abbrev pub day_config : Config
day_config = record defaults {
  afp_dir = codes "afp";
  wrk_dir = codes "wrk";
  dat_dir = codes "dat";
  log_dir = codes "log";
  org_dir = codes "org";
  group_limit = 5;
}

abbrev pub day_archive : World
day_archive = record {
  dirs = codes "log" ∷ codes "wrk" ∷ codes "afp" ∷ codes "org" ∷ [];
  files =
      (path (codes "afp") (codes "12.afp"), codes "xy")
      ∷ (path (codes "org") (codes "9.afp"), codes "z")
      ∷ (path (codes "log") (codes "one.log"), log_one)
      ∷ (path (codes "log") (codes "two.log"), log_two)
      ∷ (path (codes "wrk") afp_name_file, codes "12.afp" ++ newline ∷ [])
      ∷ (path (codes "wrk") log_num_count, written counted_texts)
      ∷ (path (codes "wrk") flt_logs_file, written counted_texts)
      ∷ [];
  locked = λ p. false;
  logged = [];
  sent = [];
  config = day_config;
  sublist = [];
}

pub day_archive-IsLog : All (IsLog (codes "log") day_archive) logs
unfolding has_byte Bytes-discrete FilePath-discrete lookup
day_archive-IsLog = (
  (refl, refl, record { fits = omega arith; loose = refl; there = refl }),
  ((refl, refl, record { fits = omega arith; loose = refl; there = refl }), tt),
)

pub wrk-writable :
    (n : Bytes) → is_file_name n ≡ true → writable (path (codes "wrk") n) day_archive ≡ true
unfolding elem Bytes-discrete
wrk-writable n h = h

pub file_names :
    (is_file_name log_num_count ≡ true)
    × (is_file_name flt_logs_file ≡ true)
    × (is_file_name top_afps_file ≡ true)
unfolding Bytes-discrete
file_names = (refl, refl, refl)

pub log-wrk : codes "log" ≢ codes "wrk"
log-wrk e = let first : 108 ≡ 119 = ap (λ (s : Bytes). char_at s 0) e in omega (arith, first)

pub log-elem : elem (codes "log") day_archive.dirs ≡ true
unfolding elem Bytes-discrete
log-elem = refl

pub log-names_in : names_in (codes "log") day_archive.files ≡ names logs
unfolding names_in Bytes-discrete
log-names_in = refl

logs-count_text :
    count_text (insertion cmp (count_lines (all_lines logs) [])) ≡ some (written counted_texts)
unfolding count_text insertion insert count_lines song_id bump find Bytes-discrete decimal lines
logs-count_text = refl

cnt_srh_nums-totals_example :
    let es = insertion cmp (count_lines (all_lines logs) []) in
    (w' : World) × (cnt_srh_nums insertion (codes "log") (codes "wrk") false day_archive
      ≡ done (pos 0) w')
    × (lookup (path (codes "wrk") log_num_count) w'.files ≡ some (written counted_texts))
    × Descending es
    × (count_of (codes "12") es ≡ asked (codes "12") (all_lines logs))
cnt_srh_nums-totals_example =
    cnt_srh_nums-totals insertion (codes "log") (codes "wrk") logs (written counted_texts)
      (codes "12") day_archive insertion-IsSorter log-elem log-names_in day_archive-IsLog log-wrk
      (omega arith) (wrk-writable log_num_count file_names.0) logs-count_text

pub wrk-Holds :
    Holds (codes "wrk") afp_name_file (codes "12.afp" ++ newline ∷ []) day_archive
    × Holds (codes "wrk") log_num_count (written counted_texts) day_archive
    × Holds (codes "wrk") flt_logs_file (written counted_texts) day_archive
unfolding lookup Bytes-discrete FilePath-discrete
wrk-Holds = (
  record { fits = omega arith; loose = refl; there = refl },
  record { fits = omega arith; loose = refl; there = refl },
  record { fits = omega arith; loose = refl; there = refl },
)

abbrev pub day_counts : List (Bytes × ℕ)
day_counts = (codes "12", 2) ∷ (codes "7", 1) ∷ []

pub day-AreLines : AreLines day_counts
unfolding has_byte decimal
day-AreLines = ((refl, refl, omega arith), ((refl, refl, omega arith), tt))

pub day-IsEntry : All IsEntry day_counts
unfolding has_byte
day-IsEntry = (
  (((λ e. cc), refl, omega arith), omega arith),
  ((((λ e. cc), refl, omega arith), omega arith), tt),
)

day_archive-IsListed : All IsListed (names_in (codes "afp") day_archive.files)
unfolding names_in has_byte Bytes-discrete
day_archive-IsListed = ((refl, (refl, refl, omega arith)), tt)

get_afp_name-cases_example :
    let p = path (codes "wrk") afp_name_file in
    let r = get_afp_name (codes "afp") (codes "wrk") day_archive in
    let ns = names_in (codes "afp") day_archive.files in
    ((elem (codes "afp") day_archive.dirs ≡ false) × (r ≡ done minus_one day_archive))
    ⊎ ((writable p day_archive ≡ false) × (r ≡ done minus_one day_archive))
    ⊎ ((w' : World) × (r ≡ done (pos 0) w')
        × (lookup p w'.files
            ≡ (if same_path p p then some (written ns) else lookup p day_archive.files))
        × (lines (written ns) ≡ map terminated ns))
get_afp_name-cases_example =
    get_afp_name-cases (codes "afp") (codes "wrk") day_archive (omega arith)
      (path (codes "wrk") afp_name_file) day_archive-IsListed
