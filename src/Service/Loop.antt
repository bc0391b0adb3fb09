-- ===== src/Service/Loop.antt =====
-- One day of the loop in src/service.cc: the steps, and then the groups.
use finger_move.Autoconf.Inspect.{words}
use finger_move.Base.{
  All, All-imp, List, [], ap, arith, eq_ℤ, false, minus_one, pos, refl, some, true, ℕ, ℤ, ◌++◌, ◌<◌,
  ◌^◌, ◌∙◌, ◌∷◌, ◌≡◌, ◌≢◌,
}
use finger_move.Clib.{Bytes, elem}
use finger_move.Prodeal.Count.Sorter.{Sort}
use finger_move.Prodeal.Daily.{
  CanChoose, CanTake-chosen, bot_afp_file-chosen, cache_names-IsText, chosen-Holds, chosen_world,
  filtered-then, lookup-chosen, present_counts,
}
use finger_move.Prodeal.Logs.{mov_log_file}
use finger_move.Prodeal.Move.Chosen.{Chosen, DistinctNames}
use finger_move.Prodeal.Move.Clear.{CanClear}
use finger_move.Prodeal.Move.Delivery.{CanTake}
use finger_move.Prodeal.Move.Rename.{CanMove}
use finger_move.Prodeal.Names.{get_afp_name}
use finger_move.Prodeal.Select.Bottom.{last_count}
use finger_move.Prodeal.Select.Cache.{cache_names, hot_counts}
use finger_move.Prodeal.Steps.{pro_deal}
use finger_move.Rpc.{Peers}
use finger_move.Service.{run_loop}
use finger_move.Service.Day.{serve_groups-delivers}
use finger_move.Service.Shares.{
  CanVisit, DisjointParts, FollowOn, HasList, Visit, accepted, day_calls, day_files, refused,
  tokens, total,
}
use finger_move.World.{World, done, fopen_rb, ◌>>=◌, ◌>>◌}
use finger_move.World.Effects.{two-then}
use finger_move.World.Files.{FilePath, FileTable, lookup, names_in}

-- ORG_DIR can be emptied, and the three directories are not the same.
pub record CanOffer (afp org wrk : Bytes) (w : World) : Type 0 where
  pub dir : elem org w.dirs ≡ true
  pub clear : All (CanClear org w) (names_in org w.files)
  pub org_afp : org ≢ afp
  pub org_wrk : org ≢ wrk
  pub afp_wrk : afp ≢ wrk

last_count-pos : (n : ℕ) (es : List (Bytes × ℕ)) → eq_ℤ (last_count (pos n) es) minus_one ≡ false
last_count-pos n [] = refl
last_count-pos n (e ∷ es) = last_count-pos e.1 es

module _ (sort : Sort) (ns : List Bytes) (logs : List (Bytes × Bytes)) (v : World) where
  abbrev afp : Bytes
  afp = v.config.afp_dir

  abbrev org : Bytes
  org = v.config.org_dir

  abbrev wrk : Bytes
  wrk = v.config.wrk_dir

  abbrev log : Bytes
  log = v.config.log_dir

  abbrev limit : ℕ
  limit = v.config.cache_limit

  -- The files that the cache is to hold, the threshold, and the world when they are chosen.
  abbrev pub cache_list : List Bytes
  cache_list = cache_names limit ns (present_counts sort ns logs)

  abbrev pub threshold : ℤ
  threshold = last_count (pos 0) (hot_counts limit ns (present_counts sort ns logs))

  abbrev pub ready_world : World
  ready_world = chosen_world sort log wrk ns logs limit v

  taken_next :
      (fs : Chosen)
      → CanOffer afp org wrk v
      → All (CanMove afp org v) fs
      → DistinctNames fs
      → CanTake afp org fs ready_world
  taken_next fs o can apart =
      CanTake-chosen sort log wrk ns logs limit afp org fs v o.afp_wrk o.org_wrk
        (record { dir = o.dir; clear = o.clear; apart = o.org_afp; distinct = apart; can = can })

  pub cache_list-HasList :
      CanChoose sort log wrk ns logs v
      → CanOffer afp org wrk v
      → HasList afp org wrk cache_list ready_world
  cache_list-HasList r o = record {
    dir = o.dir;
    clear = (taken_next [] o tt tt).clear;
    org_afp = o.org_afp;
    org_wrk = o.org_wrk;
    afp_wrk = o.afp_wrk;
    holds = chosen-Holds sort log wrk ns logs limit v r;
    texts = cache_names-IsText sort log wrk ns logs limit v r;
  }

  pub CanVisit-ready :
      (peers : Peers) (thr : ℤ) (x : Visit)
      → CanOffer afp org wrk v
      → CanVisit peers thr afp org v x
      → CanVisit peers thr afp org ready_world x
  CanVisit-ready peers thr (refused conf move) o h = h
  CanVisit-ready peers thr (accepted g) o h = record {
    conf_word = h.conf_word;
    move_word = h.move_word;
    accepts = h.accepts;
    host_is = h.host_is;
    tell =
        All-imp
          (λ e x. record { entry = x.entry; size = x.size; line = x.line; sub_lines = x.sub_lines })
          g.files h.tell;
    can = (taken_next g.files o h.can h.distinct).can;
    distinct = h.distinct;
  }

-- On a day when nothing stands in its way, runLoop chooses the finger files that nobody asked for
-- and, behind them, songs from the front of the counts as std::sort orders them with lmp,
-- CACHE_LIMIT in all; the count of the last is the threshold, 0 if there is none. The counts are
-- those of the logs in the archive, of songs with a finger file. Each group of the list is asked
-- with the threshold, in order. One that accepts gets as many of the chosen files as it answers,
-- from where the part before ends: each goes to it whole, and after each every sub cache is told
-- to delete it. One that refuses gets nothing. Outside of the work directory, every path then
-- holds what the moves of these parts from AFP_DIR to ORG_DIR make of what the first two steps
-- left there. The conditions are: those two end and leave these files; LOG_DIR is there, is not
-- the work directory, and its logs can be read; the list of the finger files can be read, and
-- their names fit a line and have no newline and no NUL; each song of the logs has a name that is
-- not empty and has no bar, its count is less than 2^31, and its line fits the buffers and has no
-- newline and no NUL; the files that the other steps write can be written; the group list can be
-- opened and has two words for each group, each word has no NUL and is shorter than 1024 bytes,
-- and the groups get less than 2^31 files in all; AFP_DIR, ORG_DIR and the work directory are
-- three, and ORG_DIR is there; the list of the chosen files is long enough for what the groups
-- answer, no file stands in two parts or twice in one, the files are in AFP_DIR, can be moved, and
-- are not named . or .., what is in ORG_DIR at first can be removed, the sizes of the files are
-- less than 2^31, the addresses have hosts, and no line that is logged is too long.
pub run_loop-delivers :
    (peers : Peers) (sort : Sort) (now : ℕ) (old s : Bytes) (ns : List Bytes)
    (logs : List (Bytes × Bytes)) (r : ℤ) (vs : List Visit) (w : World) (fs : FileTable)
    → let c = w.config in
      let v = record w { files = fs } in
      let thr = threshold sort ns logs v in
      fopen_rb c.group_list w ≡ done (some s) w
      → words s ≡ tokens vs
      → (get_afp_name c.afp_dir c.wrk_dir >> mov_log_file now c.dat_dir c.log_dir) w ≡ done r v
      → CanChoose sort c.log_dir c.wrk_dir ns logs v
      → CanOffer c.afp_dir c.org_dir c.wrk_dir v
      → total vs < 2 ^ 31
      → FollowOn 0 (cache_list sort ns logs v) vs
      → DisjointParts vs
      → All (CanVisit peers thr c.afp_dir c.org_dir v) vs
      → (w' : World) × (run_loop peers (pro_deal sort now) old w ≡ done tt w')
        × (w'.sent ≡ w.sent ++ day_calls thr w.sublist vs)
        × ((q : FilePath)
            → c.wrk_dir ≢ q.dir
            → lookup q w'.files ≡ day_files c.afp_dir c.org_dir vs q (lookup q fs))
unfolding run_loop pro_deal
run_loop-delivers peers sort now old s ns logs r vs w fs opens split first ready offers bound parts
      apart visits =
    let c = w.config in
    let v = record w { files = fs } in
    let thr = threshold sort ns logs v in
    let u = ready_world sort ns logs v in
    let (w', ran, sent, left) =
      serve_groups-delivers peers sort now thr old 0 (cache_list sort ns logs v) vs u
        (omega (arith, bound)) parts apart (cache_list-HasList sort ns logs v ready offers)
        (All-imp (λ x. CanVisit-ready sort ns logs v peers thr x offers) vs visits) in
    (
      w',
      rw (opens, ◌>>=◌)
          (two-then (get_afp_name c.afp_dir c.wrk_dir) (mov_log_file now c.dat_dir c.log_dir) _ r w
              v first
            ∙ filtered-then sort c.log_dir c.wrk_dir ns logs _ v ready
            ∙ rw (bot_afp_file-chosen sort c.log_dir c.wrk_dir ns logs c.cache_limit v ready, ◌>>=◌)
                (rw
                  (
                    last_count-pos 0 (hot_counts c.cache_limit ns (present_counts sort ns logs)),
                    split,
                  )
                  (rw (ran, ◌>>=◌)))),
      sent,
      λ q aside.
          left q
          ∙ ap (day_files c.afp_dir c.org_dir vs q)
              (lookup-chosen sort c.log_dir c.wrk_dir ns logs c.cache_limit v q aside),
    )
