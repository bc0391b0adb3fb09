-- ===== src/Server/Answer.antt =====
-- GCServer::Preconf of src/server.cc whatever it finds.
use finger_move.Base.{
  [], arith, false, if◌then◌else◌, inl, inr, leb_ℤ, negsuc, pos, refl, suc, true, zero, ℕ, ℤ, ◌++◌,
  ◌<◌, ◌∷◌, ◌≡◌, ◌≤◌, ◌⊎◌,
}
use finger_move.Clib.{Bytes, codes, newline}
use finger_move.Prodeal.Count.{cnt_srh_nums}
use finger_move.Prodeal.Count.Sorter.{Sort}
use finger_move.Prodeal.Filter.{flt_log_file}
use finger_move.Prodeal.Frames.{
  flt_log_file-OnlyFiles, get_afp_name-OnlyFiles, top_afp_file-OnlyFiles,
}
use finger_move.Prodeal.Frames.Logs.{cnt_srh_nums-OnlyFiles, mov_log_file-OnlyFiles}
use finger_move.Prodeal.Frames.Moves.{mov_afp_file-OnlyFiles}
use finger_move.Prodeal.Logs.{mov_log_file}
use finger_move.Prodeal.Move.{mov_afp_file}
use finger_move.Prodeal.Names.{get_afp_name}
use finger_move.Prodeal.Select.{top_afp_file}
use finger_move.Prodeal.Select.Bounded.{top_afp_file-bounded}
use finger_move.Prodeal.Steps.{pro_deal}
use finger_move.Rpc.{ConfigValue, cancelled, status_ok}
use finger_move.Server.{Preconf, gc_preconf}
use finger_move.Server.Offer.{offer, refusal}
use finger_move.World.{Cmd, Run, World, done, fault, logstring, pure, ◌>>=◌, ◌>>◌}
use finger_move.World.Effects.{logstring-fits}
use finger_move.World.Files.{FileTable}
use finger_move.World.Frames.{OnlyFiles}
use finger_move.World.Results.{Returns}

-- The line that it logs if it refuses.
abbrev pub refusal_line : Bytes
refusal_line = codes "preconf error!" ++ newline ∷ []

-- A positive number, as far as a bound allows it.
pub positive-cases :
    (a : ℤ) (n : ℕ)
    → leb_ℤ a (pos n) ≡ true
    → (leb_ℤ a (pos 0) ≡ true)
      ⊎ ((leb_ℤ a (pos 0) ≡ false) × ((m : ℕ) × (a ≡ pos m) × (0 < m) × (m ≤ n)))
positive-cases (pos zero) n h = inl refl
positive-cases (pos (suc m)) n h = inr (ground arith, (suc m, refl, omega arith, ground (arith, h)))
positive-cases (negsuc m) n h = inl (ground arith)

-- How Preconf ends: in a fault, or in a world with other files and a longer log.
abbrev Answers : World → Run Preconf → Type 0
Answers w r =
    (r ≡ fault)
    ⊎ ((fs : FileTable) × (r
          ≡ done refusal (record w { files = fs; logged = w.logged ++ refusal_line ∷ [] })))
    ⊎ ((n : ℕ) × (fs : FileTable) × (r ≡ done (offer n) (record w { files = fs }))
        × (0 < n)
        × (n ≤ w.config.group_limit))

-- A step that changes files only, before the rest.
Answers-then :
    {A : Type 0} (m : Cmd A) (f : A → Cmd Preconf) (w : World)
    → OnlyFiles m
    → ((a : A) (fs : FileTable)
        → m w ≡ done a (record w { files = fs })
        → Answers w (f a (record w { files = fs })))
    → Answers w ((m >>= f) w)
unfolding OnlyFiles
Answers-then m f w h k = elim (h w) [
  | inl fails ↦ inl (rw (fails, ◌>>=◌))
  | inr (a, fs, ends) ↦ rw (ends, ◌>>=◌) (k a fs ends)
]

-- What Preconf does with the result of topAfpFile.
abbrev decide_ℤ : Bytes → Bytes → Bytes → ℤ → Cmd Preconf
decide_ℤ afp org wrk count =
    if leb_ℤ count (pos 0)
    then (do
      logstring (codes "preconf error!")
      pure (record { status = cancelled; len = pos 0; starts_client = false }))
    else (do
      mov_afp_file afp org wrk
      pure (record { status = status_ok; len = count; starts_client = true }))

decide_ℤ-Answers :
    (afp org wrk : Bytes) (count : ℤ) (w : World)
    → leb_ℤ count (pos w.config.group_limit) ≡ true
    → Answers w (decide_ℤ afp org wrk count w)
unfolding OnlyFiles
decide_ℤ-Answers afp org wrk count w h = elim (positive-cases count w.config.group_limit h) [
  | inl low ↦
      inr (
        inl (w.files, rw low (rw (logstring-fits (codes "preconf error!") w (omega arith), ◌>>=◌))))
  | inr (high, (m, is, more, most)) ↦ elim (mov_afp_file-OnlyFiles afp org wrk w) [
    | inl fails ↦ inl (rw high (rw (fails, ◌>>=◌)))
    | inr (r, fs, ends) ↦ inr (inr (m, fs, rw high (rw (ends, ◌>>=◌) (rw is)), more, most))
  ]
]

-- Whatever it finds, Preconf runs into undefined behaviour, or refuses, logs one line and starts
-- no client, or answers OK with a number of songs that is positive and at most GROUP_LIMIT and
-- starts the client. Except for that line, it changes files only.
pub gc_preconf-answers :
    (sort : Sort) (now : ℕ) (req : ConfigValue) (w : World)
    → let r = gc_preconf (pro_deal sort now) req w in
      (r ≡ fault)
      ⊎ ((fs : FileTable) × (r
            ≡ done refusal (record w { files = fs; logged = w.logged ++ refusal_line ∷ [] })))
      ⊎ ((n : ℕ) × (fs : FileTable) × (r ≡ done (offer n) (record w { files = fs }))
          × (0 < n)
          × (n ≤ w.config.group_limit))
unfolding gc_preconf pro_deal Returns
gc_preconf-answers sort now req w =
    let c = w.config in
    Answers-then (get_afp_name c.afp_dir c.wrk_dir) _ w (get_afp_name-OnlyFiles c.afp_dir c.wrk_dir)
      (λ _ fs₁ _.
        Answers-then (mov_log_file now c.dat_dir c.log_dir) _ _
          (mov_log_file-OnlyFiles now c.dat_dir c.log_dir)
          (λ _ fs₂ _.
            Answers-then (cnt_srh_nums sort c.log_dir c.wrk_dir false) _ _
              (cnt_srh_nums-OnlyFiles sort c.log_dir c.wrk_dir false)
              (λ _ fs₃ _.
                Answers-then (flt_log_file c.wrk_dir c.wrk_dir) _ _
                  (flt_log_file-OnlyFiles c.wrk_dir c.wrk_dir)
                  (λ _ fs₄ _.
                    Answers-then (top_afp_file c.group_limit c.wrk_dir c.wrk_dir req.len) _
                      (record w { files = fs₄ })
                      (top_afp_file-OnlyFiles c.group_limit c.wrk_dir c.wrk_dir req.len)
                      (λ count fs₅ e.
                        decide_ℤ-Answers c.afp_dir c.org_dir c.wrk_dir count
                          (record w { files = fs₅ })
                          (top_afp_file-bounded c.group_limit c.wrk_dir c.wrk_dir req.len
                            (record w { files = fs₄ }) (record w { files = fs₅ }) count e))))))
