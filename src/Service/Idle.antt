-- ===== src/Service/Idle.antt =====
-- Days on which the loop of src/service.cc asks no group.
use finger_move.Autoconf.Config.{Config}
use finger_move.Base.{
  [], ap, arith, inl, inr, minus_one, none, pos, some, sym, true, ℕ, ℤ, ◌++◌, ◌∙◌, ◌∷◌, ◌≡◌, ◌⊎◌,
}
use finger_move.Clib.{Bytes, codes, newline}
use finger_move.Prodeal.Count.Sorter.{Sort}
use finger_move.Prodeal.Frames.Steps.{pro_deal-OnlyFiles}
use finger_move.Prodeal.Steps.{CProDeal, pro_deal}
use finger_move.Rpc.{Peers}
use finger_move.Service.{run_loop}
use finger_move.World.{Cmd, World, done, fopen_rb, ◌>>=◌, ◌>>◌}
use finger_move.World.Effects.{logstring-fits}
use finger_move.World.Files.{FileTable}
use finger_move.World.Frames.{OnlyFiles, OnlyFiles->>=, OnlyFiles-world}
use finger_move.World.Results.{bind_assoc}

-- The steps of the day, up to the result of botAfpFile.
abbrev pub day_steps : CProDeal → Config → Cmd ℤ
day_steps s c = do
  s.get_afp_name c.afp_dir c.wrk_dir
  s.mov_log_file c.dat_dir c.log_dir
  s.cnt_srh_nums c.log_dir c.wrk_dir true
  s.flt_log_file c.wrk_dir c.wrk_dir
  s.bot_afp_file c.wrk_dir c.wrk_dir

-- What follows the five steps.
day_steps-then :
    (s : CProDeal) (c : Config) (k : ℤ → Cmd (Unit {0}))
    → (do
      s.get_afp_name c.afp_dir c.wrk_dir
      s.mov_log_file c.dat_dir c.log_dir
      s.cnt_srh_nums c.log_dir c.wrk_dir true
      s.flt_log_file c.wrk_dir c.wrk_dir
      thr ← s.bot_afp_file c.wrk_dir c.wrk_dir
      k thr)
      ≡ (day_steps s c >>= k)
day_steps-then s c k = sym (
    bind_assoc (s.get_afp_name c.afp_dir c.wrk_dir) _ k
    ∙ ap (λ m. s.get_afp_name c.afp_dir c.wrk_dir >> m)
        (bind_assoc (s.mov_log_file c.dat_dir c.log_dir) _ k
          ∙ ap (λ m. s.mov_log_file c.dat_dir c.log_dir >> m)
              (bind_assoc (s.cnt_srh_nums c.log_dir c.wrk_dir true) _ k
                ∙ ap (λ m. s.cnt_srh_nums c.log_dir c.wrk_dir true >> m)
                    (bind_assoc (s.flt_log_file c.wrk_dir c.wrk_dir) _ k))))

pub day_steps-OnlyFiles :
    (sort : Sort) (now : ℕ) (c : Config) → OnlyFiles (day_steps (pro_deal sort now) c)
day_steps-OnlyFiles sort now c =
    let step = (λ (p q : Bytes). pro_deal-OnlyFiles sort now p q [] true (pos 0) (pos 0)) in
    OnlyFiles->>= _ _ (step c.afp_dir c.wrk_dir).0 (λ _.
      OnlyFiles->>= _ _ (step c.dat_dir c.log_dir).1 (λ _.
        OnlyFiles->>= _ _ (step c.log_dir c.wrk_dir).2 (λ _.
          OnlyFiles->>= _ _ (step c.wrk_dir c.wrk_dir).3 (λ _. (step c.wrk_dir c.wrk_dir).5))))

-- If the group list cannot be opened, or the steps end and botAfpFile returns -1, runLoop asks no
-- group that day: it makes no call, logs one line, and changes nothing else but files.
pub run_loop-gives_up :
    (peers : Peers) (sort : Sort) (now : ℕ) (old : Bytes) (w : World)
    → (fopen_rb w.config.group_list w ≡ done none w)
      ⊎ ((s : Bytes) × (v : World) × (fopen_rb w.config.group_list w ≡ done (some s) w)
          × (day_steps (pro_deal sort now) w.config w ≡ done minus_one v))
    → (fs : FileTable) × (line : Bytes) × (run_loop peers (pro_deal sort now) old w
        ≡ done tt (record w { files = fs; logged = w.logged ++ line ∷ [] }))
unfolding run_loop
run_loop-gives_up peers sort now old w (inl closed) = (
  w.files,
  codes "open the group list file error!" ++ newline ∷ [],
  rw (closed, ◌>>=◌) (logstring-fits (codes "open the group list file error!") w (omega arith)),
)
run_loop-gives_up peers sort now old w (inr (s, v, opens, failed)) =
    let unchanged =
      OnlyFiles-world _ minus_one w v (day_steps-OnlyFiles sort now w.config) failed in
    (
      v.files,
      codes "preconf Error!" ++ newline ∷ [],
      rw (opens, ◌>>=◌)
          (ap (λ (m : Cmd (Unit {0})). m w) (day_steps-then (pro_deal sort now) w.config _)
            ∙ rw (failed ∙ ap (done minus_one) unchanged, ◌>>=◌)
                (logstring-fits (codes "preconf Error!") (record w { files = v.files })
                  (omega arith))),
    )
