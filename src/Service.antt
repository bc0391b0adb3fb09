-- ===== src/Service.antt =====
-- src/service.cc: the roles of the program, its main loop, and `main`. Building and running a
-- server is gRPC's; a service is known by the address that it listens on and by its handlers.
pub mod Day
pub mod Forget
pub mod Groups
pub mod Idle
pub mod Loop
pub mod Parts
pub mod Receipt
pub mod Shares
pub mod Start
pub mod Turn
use finger_move.Autoconf.Config.{Config}
use finger_move.Autoconf.Inspect.{start_inspect, words}
use finger_move.Base.{
  Bool, List, Option, [], add_int, eq_ℤ, if◌then◌else◌, length, ltb, minus_one, none, not, pos,
  some, true, ℕ, ℤ, ◌&&◌, ◌++◌, ◌==◌, ◌∷◌,
}
use finger_move.Clib.{Bytes, c_str, codes, drop_last, lines, max_line_len, strtok_left}
use finger_move.Client.{colon, mc_afp_move, new_mc_conf, new_mc_move, pre_conf}
use finger_move.Logmt.Archive.{next_count}
use finger_move.Prodeal.Count.{cnt_srh_nums}
use finger_move.Prodeal.Filter.{flt_log_file}
use finger_move.Prodeal.Logs.{mov_log_file}
use finger_move.Prodeal.Move.{mov_cnt_file}
use finger_move.Prodeal.Names.{get_afp_name}
use finger_move.Prodeal.Select.{bot_afp_file}
use finger_move.Prodeal.Steps.{CProDeal}
use finger_move.Rpc.{Call, Peers, is_ok}
use finger_move.Server.Dispatch.{Handlers, gc_server, gm_server, mc_server, sc_server}
use finger_move.World.{
  Cmd, done, fault, fopen_rb, get_config, get_sent, logstring, or_fault, pure, unit, ◌>>=◌, ◌>>◌,
}

pub data Role : Type 0 where
  group main_cache sub_cache : Role

-- The loop over getopt: the last known letter counts, and the group server is the default.
unfoldable pub choose : List ℕ → Role → Role
choose [] r = r
choose (o ∷ os) r = choose os (
    if o == b'g'
    then group
    else if o == b'm'
    then main_cache
    else if o == b's'
    then sub_cache
    else r)

-- The threads that `startServer` of GrService, ScService and McService creates, by the static
-- functions that they run.
pub data GrThread : Type 0 where
  gr_run_move gr_run_conf : GrThread

pub data ScThread : Type 0 where
  sc_run_sync : ScThread

pub data McThread : Type 0 where
  mc_run_loop mc_run_move : McThread

pub data Thread : Type 0 where
  gr_thread : GrThread → Thread
  sc_thread : ScThread → Thread
  mc_thread : McThread → Thread

-- The handlers that the server in a thread is registered with, and where it listens. The thread
-- of runLoop has no server.
unfoldable pub run_server : Thread → Config → Option (Handlers × Bytes)
run_server (gr_thread gr_run_move) c = some (gm_server, c.ser_move_addr)
run_server (gr_thread gr_run_conf) c = some (gc_server, c.ser_conf_addr)
run_server (sc_thread sc_run_sync) c = some (sc_server, c.ser_sync_addr)
run_server (mc_thread mc_run_loop) c = none
run_server (mc_thread mc_run_move) c = some (mc_server, c.ser_move_addr)

-- `startServer` of each role: the threads, in the order of their creation. The first is joined.
unfoldable pub start_server : Role → List Thread
start_server group = gr_thread gr_run_move ∷ gr_thread gr_run_conf ∷ []
start_server main_cache = mc_thread mc_run_loop ∷ mc_thread mc_run_move ∷ []
start_server sub_cache = sc_thread sc_run_sync ∷ []

-- The loop that fills `g_sublist`; `none` is a write in front of the buffer.
unfoldable pub read_sublist : List Bytes → Option (List Bytes)
unfolding drop_last
read_sublist [] = some []
read_sublist ([] ∷ ls) = none
read_sublist ((c ∷ s) ∷ ls) = elim (read_sublist ls) [
  | none ↦ none
  | some as' ↦ some (drop_last (c ∷ s) ∷ as')
]

abbrev push_sublist : List Bytes → Cmd (Unit {0})
push_sublist subs w = done tt (record w { sublist = w.sublist ++ subs })

-- `main`, up to the threads that it creates: none if the list of sub caches cannot be read (-1 is returned).
-- `value` is for start_inspect.
unfoldable pub main : Bytes → List ℕ → Cmd (Option (List Thread))
unfolding choose start_server read_sublist start_inspect fopen_rb lines
main value opts = do
  start_inspect value
  c ← get_config
  fp ← fopen_rb c.sub_list
  elim fp [
    | none ↦ pure none
    | some s ↦ do
      subs ← or_fault (read_sublist (lines s))
      push_sublist subs
      pure (some (start_server (choose opts group)))
  ]

-- McMoveClient::afpMove runs strtok on the buffer of its address for each file that it sends, so
-- if it has made a call, the buffer ends behind the host.
unfoldable pub buffer_left : List Call → List Call → Bytes → Bytes
unfolding strtok_left
buffer_left past calls addr = if length past == length calls then addr else strtok_left colon addr

abbrev fits_line : Bytes → Bool
fits_line t = ltb (length t) max_line_len

module _ (peers : Peers) (steps : CProDeal) where
  -- The loop of `runLoop` over the group list, read two words at a time. At an odd last word the
  -- body runs once more with what `move_addr` holds then. `line_count` is where the next group's
  -- part of the chosen files begins. The results are the next `line_count` and what is left in
  -- `move_addr`.
  unfoldable pub serve_group : ℤ → Bytes → Bytes → ℤ → Cmd (ℤ × Bytes)
  unfolding add_int buffer_left
  serve_group thr conf_addr move_addr line_count = do
    (s, result) ← pre_conf peers (new_mc_conf (record { addr = conf_addr })) thr
    if not (is_ok s)
        then (do logstring (codes "preconf Error!"); pure (line_count, move_addr))
        else (do
          c ← get_config
          steps.mov_cnt_file c.afp_dir c.org_dir c.wrk_dir line_count result
          next_count ← or_fault (add_int line_count result)
          past ← get_sent
          r ← mc_afp_move peers (new_mc_move (record { addr = move_addr })) c.org_dir move_addr
          calls ← get_sent
          if eq_ℤ r minus_one
              then logstring (move_addr ++ codes " move finger file Error!")
              else unit
          pure (next_count, buffer_left past calls move_addr))

  -- The words go into two buffers of MAX_LINE_LEN bytes, and are C strings when they are used.
  -- `old` is what `move_addr` holds before.
  unfoldable pub serve_groups : ℤ → Bytes → List Bytes → ℤ → Cmd ℤ
  unfolding c_str serve_group
  serve_groups thr old [] line_count w = done line_count w
  serve_groups thr old (conf ∷ []) line_count w =
      elim (if fits_line conf then serve_group thr (c_str conf) old line_count w else fault) [
        | fault ↦ fault
        | done (n, _) w' ↦ done n w'
      ]
  serve_groups thr old (conf ∷ move ∷ ts) line_count w =
      elim (if fits_line conf && fits_line move
        then serve_group thr (c_str conf) (c_str move) line_count w
        else fault) [ fault ↦ fault | done (n, left) w' ↦ serve_groups thr left ts n w' ]

  -- One day of `runLoop`. `old` is what the buffer `move_addr` happens to hold.
  unfoldable pub run_loop : Bytes → Cmd (Unit {0})
  run_loop old = do
    c ← get_config
    fp ← fopen_rb c.group_list
    elim fp [
      | none ↦ logstring (codes "open the group list file error!")
      | some s ↦ do
        steps.get_afp_name c.afp_dir c.wrk_dir
        steps.mov_log_file c.dat_dir c.log_dir
        steps.cnt_srh_nums c.log_dir c.wrk_dir true
        steps.flt_log_file c.wrk_dir c.wrk_dir
        thr ← steps.bot_afp_file c.wrk_dir c.wrk_dir
        if eq_ℤ thr minus_one
            then logstring (codes "preconf Error!")
            else (do serve_groups thr old (words s) (pos 0); unit)
    ]
