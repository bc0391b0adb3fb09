-- ===== src/Server/Offer.antt =====
-- GCServer::Preconf of src/server.cc with the steps of src/prodeal.cc.
use finger_move.Base.{
  All, List, [], ap, arith, false, if◌then◌else◌, inl, inr, leb_ℤ, length, pos, refl, subst, sym,
  take, true, ℕ, ℤ, ◌++◌, ◌<◌, ◌∙◌, ◌∷◌, ◌≡◌, ◌≢◌, ◌⊎◌,
}
use finger_move.Clib.{Bytes, codes, newline}
use finger_move.Clib.Laws.Lines.{IsText, written}
use finger_move.Prodeal.Count.Sorter.{IsSorter, Sort}
use finger_move.Prodeal.Logs.{mov_log_file}
use finger_move.Prodeal.Move.{mov_afp_file}
use finger_move.Prodeal.Move.Chosen.{Chosen}
use finger_move.Prodeal.Move.Delivery.{CanDeliver, CanTake, delivered, mov_afp_file-delivers}
use finger_move.Prodeal.Move.Listing.{names_of}
use finger_move.Prodeal.Names.{get_afp_name, top_afps_file}
use finger_move.Prodeal.Pipeline.{
  CanTake-selected, Ready, chosen-IsText, counted-run, filtered-run, lookup-selected, selected,
  selected-Holds, selected-run, sorted_counts,
}
use finger_move.Prodeal.Select.Fingers.{afp_text-written, finger_names}
use finger_move.Prodeal.Select.Top.{above, afp_text}
use finger_move.Prodeal.Steps.{pro_deal}
use finger_move.Prodeal.Working.{known_counts}
use finger_move.Rpc.{ConfigValue, cancelled, status_ok}
use finger_move.Server.{Preconf, gc_preconf}
use finger_move.World.{Cmd, World, done, logstring, pure, ◌>>=◌, ◌>>◌}
use finger_move.World.Effects.{Holds, logstring-fits, two-then}
use finger_move.World.Files.{FilePath, lookup}

-- What Preconf answers if it refuses, and if it has chosen a number of songs.
abbrev pub refusal : Preconf
refusal = record { status = cancelled; len = pos 0; starts_client = false }

abbrev pub offer : ℕ → Preconf
offer n = record { status = status_ok; len = pos n; starts_client = true }

-- What Preconf does with the count of songs.
abbrev decide : Bytes → Bytes → Bytes → ℕ → Cmd Preconf
decide afp org wrk n =
    if leb_ℤ (pos n) (pos 0)
    then logstring (codes "preconf error!") >> pure refusal
    else mov_afp_file afp org wrk >> pure (offer n)

-- With the list of a number of songs, and their files in place.
decide-cases :
    (afp org wrk : Bytes) (l : List (Bytes × ℕ)) (fs : Chosen) (q : FilePath) (u : World)
    → CanDeliver afp org wrk top_afps_file (names_of fs) fs u
    → ((l ≡ [])
        × ((w' : World) × (decide afp org wrk (length l) u ≡ done refusal w')
            × (lookup q w'.files ≡ lookup q u.files)))
      ⊎ ((0 < length l)
          × ((w' : World) × (decide afp org wrk (length l) u ≡ done (offer (length l)) w')
              × (lookup q w'.files ≡ delivered afp org fs q (lookup q u.files))))
decide-cases afp org wrk [] fs q u can = inl (
  refl,
  (
    record u { logged = u.logged ++ (codes "preconf error!" ++ newline ∷ []) ∷ [] },
    rw (logstring-fits (codes "preconf error!") u (omega arith), ◌>>=◌),
    refl,
  ),
)
decide-cases afp org wrk (e ∷ l) fs q u can =
    let some_songs : leb_ℤ (pos (length (e ∷ l))) (pos 0) ≡ false = ground arith in
    let (gs, ran, left, _) = mov_afp_file-delivers afp org wrk fs u can in
    inr (omega arith, (record u { files = gs }, rw some_songs (rw (ran, ◌>>=◌)), left q))

gc_preconf-run :
    (sort : Sort) (now : ℕ) (req : ConfigValue) (afps : Bytes) (logs : List (Bytes × Bytes)) (r : ℤ)
    (w v : World)
    → IsSorter sort
    → (get_afp_name w.config.afp_dir w.config.wrk_dir
          >> mov_log_file now w.config.dat_dir w.config.log_dir)
        w
      ≡ done r v
    → Ready sort w.config.log_dir w.config.wrk_dir afps logs v
    → let c = w.config in
      let most = v.config.group_limit in
      gc_preconf (pro_deal sort now) req w
      ≡ decide c.afp_dir c.org_dir c.wrk_dir
          (length (take most (above req.len (known_counts afps (sorted_counts sort logs)))))
          (selected sort c.log_dir c.wrk_dir afps logs most req.len v)
unfolding gc_preconf pro_deal
gc_preconf-run sort now req afps logs r w v sorts first ready =
    two-then (get_afp_name w.config.afp_dir w.config.wrk_dir)
      (mov_log_file now w.config.dat_dir w.config.log_dir) _ r w v first
    ∙ rw (counted-run sort w.config.log_dir w.config.wrk_dir afps logs v ready, ◌>>=◌)
        (rw (filtered-run sort w.config.log_dir w.config.wrk_dir afps logs v ready, ◌>>=◌)
          (rw (
            selected-run sort w.config.log_dir w.config.wrk_dir afps logs v.config.group_limit
                req.len v sorts ready,
            ◌>>=◌,
          )))

-- Preconf chooses, of the songs with a finger file that were asked for more often than the request
-- says, those with the greatest counts, at most GROUP_LIMIT. If there is none it refuses and
-- starts no client. Otherwise ORG_DIR then holds their finger files, which are gone from AFP_DIR,
-- and no others, each with what it held; Preconf answers OK with their number and starts the
-- client. In both cases every other path outside of the work directory holds what the first two
-- steps left there. The conditions are: those two end, and the counts are those of the logs that
-- they leave in the archive; LOG_DIR is there, is not the work directory, and its logs can be
-- read; each song of the logs has a name that is not empty and has no bar, its count is less than
-- 2^31, and its line fits the buffers and has no newline and no NUL; std::sort sorts; the list of
-- the finger files can be read, and the files that the other steps write can be written; the
-- chosen files are there, none twice, and can be moved; ORG_DIR is there and can be emptied; and
-- AFP_DIR, ORG_DIR and the work directory are not the same.
pub gc_preconf-delivers :
    (sort : Sort) (now : ℕ) (req : ConfigValue) (afps : Bytes) (logs : List (Bytes × Bytes)) (r : ℤ)
    (fs : Chosen) (q : FilePath) (w v : World)
    → let c = w.config in
      let chosen =
        take v.config.group_limit (above req.len (known_counts afps (sorted_counts sort logs))) in
      let result = gc_preconf (pro_deal sort now) req w in
      IsSorter sort
      → (get_afp_name c.afp_dir c.wrk_dir >> mov_log_file now c.dat_dir c.log_dir) w ≡ done r v
      → Ready sort c.log_dir c.wrk_dir afps logs v
      → names_of fs ≡ finger_names chosen
      → CanTake c.afp_dir c.org_dir fs v
      → c.afp_dir ≢ c.wrk_dir
      → c.org_dir ≢ c.wrk_dir
      → c.wrk_dir ≢ q.dir
      → ((chosen ≡ [])
          × ((w' : World) × (result ≡ done refusal w') × (lookup q w'.files ≡ lookup q v.files)))
        ⊎ ((0 < length chosen)
            × ((w' : World) × (result ≡ done (offer (length chosen)) w')
                × (lookup q w'.files ≡ delivered c.afp_dir c.org_dir fs q (lookup q v.files))))
gc_preconf-delivers sort now req afps logs r fs q w v sorts first ready named can afp_wrk org_wrk
      elsewhere =
    let c = w.config in
    let most = v.config.group_limit in
    let chosen = take most (above req.len (known_counts afps (sorted_counts sort logs))) in
    let u = selected sort c.log_dir c.wrk_dir afps logs most req.len v in
    let kept = lookup-selected sort c.log_dir c.wrk_dir afps logs most req.len v q elsewhere in
    let listed : written (names_of fs) ≡ afp_text chosen =
      ap written named ∙ sym (afp_text-written chosen) in
    let ran = gc_preconf-run sort now req afps logs r w v sorts first ready in
    let delivers : CanDeliver c.afp_dir c.org_dir c.wrk_dir top_afps_file (names_of fs) fs u =
      record {
        takes =
            CanTake-selected sort c.log_dir c.wrk_dir afps logs most req.len c.afp_dir c.org_dir fs
              v afp_wrk org_wrk can;
        aside = org_wrk;
        holds =
            subst (λ (s : Bytes). Holds c.wrk_dir top_afps_file s u) (sym listed)
              (selected-Holds sort c.log_dir c.wrk_dir afps logs most req.len v ready);
        texts = subst (All IsText) (sym named) (
            chosen-IsText sort c.log_dir c.wrk_dir afps logs most req.len ready.good ready.entries);
      } in
    elim (decide-cases c.afp_dir c.org_dir c.wrk_dir chosen fs q u delivers) [
      | inl (none_chosen, (w', ends, left)) ↦ inl (none_chosen, (w', ran ∙ ends, left ∙ kept))
      | inr (some_chosen, (w', ends, left)) ↦
          inr (some_chosen, (w', ran ∙ ends, left ∙ ap (delivered c.afp_dir c.org_dir fs q) kept))
    ]
