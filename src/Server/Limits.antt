-- ===== src/Server/Limits.antt =====
-- What the handlers of src/server.cc never do, whatever they meet.
use finger_move.Base.{
  All, All-imp, Bool, List, Option, [], arith, false, inl, inr, leb_ℤ, not, pos, refl, true, ℕ,
  ◌&&◌, ◌++◌, ◌∷◌, ◌≡◌,
}
use finger_move.Clib.{Bytes, c_str, codes, elem, same}
use finger_move.Client.{app_add, new_mc_sync}
use finger_move.Grpcwrap.{sync_clt_addafps}
use finger_move.Prodeal.Count.Sorter.{Sort}
use finger_move.Prodeal.Frames.Steps.{pro_deal-OnlyFiles}
use finger_move.Prodeal.Steps.{pro_deal}
use finger_move.Rpc.{
  AfpDelName, Call, ConfigValue, FingerValue, Peers, Request, Status, addafps, afpmove, cancelled,
  is_ok, status_ok,
}
use finger_move.Server.{
  gc_preconf, gm_afpmove, mc_loop, mc_round, sc_addafps, sc_delafps, value_bytes,
}
use finger_move.Server.Dispatch.{Handlers, gc_server, gm_server, mc_server, sc_server}
use finger_move.World.{
  Cmd, Run-cases, World, fclose_wb, fopen_wb, get_config, logstring, or_fault, pure, remove_path,
  sprintf_path, ◌>>=◌, ◌>>◌,
}
use finger_move.World.Frames.{
  OnlyFiles, OnlyFiles-fclose_wb, OnlyFiles-fopen_wb, OnlyFiles-or_fault, OnlyFiles-sprintf_path,
}
use finger_move.World.Keeps.{
  Keeps, Keeps->>=, Keeps-OnlyFiles, Keeps-call, Keeps-if, Keeps-logstring, Keeps-pure,
  Keeps-remove_path, Stays-done, Stays-files, Stays-trans,
}

abbrev is_addafps : Request → Bool
is_addafps (addafps v) = true
is_addafps _ = false

abbrev is_afpmove : Request → Bool
is_afpmove (afpmove v) = true
is_afpmove _ = false

-- The calls that a server may make: a main cache tells its sub caches to add files, and the
-- client that a group server starts moves files to the main cache.
abbrev pub tells : World → Handlers → Call → Bool
tells w mc_server c = elem c.addr w.sublist && is_addafps c.request
tells w gc_server c = same c.addr w.config.clt_move_addr && is_afpmove c.request
tells w gm_server c = false
tells w sc_server c = false

pub elem-All : (subs : List Bytes) → All (λ s. elem s subs ≡ true) subs
unfolding elem
elem-All [] = tt
elem-All (s ∷ subs) = (ground arith, All-imp (λ t h. ground (arith, h)) subs (elem-All subs))

OnlyFiles-get_config : OnlyFiles get_config
unfolding OnlyFiles
OnlyFiles-get_config w = inr (w.config, w.files, refl)

module _ (ok : Call → Bool) where
  -- The files and the log are all that these change.
  pub step :
      {A B : Type 0} (m : Cmd A) (f : A → Cmd B)
      → OnlyFiles m
      → ((a : A) → Keeps ok (f a))
      → Keeps ok (m >>= f)
  step m f h k = Keeps->>= ok m f (Keeps-OnlyFiles ok m h) k

  said : (s : Bytes) (r : Status) → Keeps ok (logstring s >> pure r)
  said s r = Keeps->>= ok (logstring s) _ (Keeps-logstring ok s) (λ _. Keeps-pure ok r)

  stores :
      (d : Bytes) (o : Option Bytes) (s : Status)
      → Keeps ok (or_fault o >>= λ t. fclose_wb d t >> pure s)
  stores d o s =
      step (or_fault o) _ (OnlyFiles-or_fault o)
        (λ t. step (fclose_wb d t) _ (OnlyFiles-fclose_wb d t) (λ _. Keeps-pure ok s))

  pub gm_afpmove-Keeps : (req : FingerValue) → Keeps ok (gm_afpmove req)
  unfolding gm_afpmove
  gm_afpmove-Keeps req = step get_config _ OnlyFiles-get_config (λ c.
      step (sprintf_path c.dst_dir (c_str req.name)) _ (OnlyFiles-sprintf_path c.dst_dir _) (λ p.
        step (fopen_wb p) _ (OnlyFiles-fopen_wb p) (λ b.
          Keeps-if ok b _ _ (stores p (value_bytes req.val req.len) status_ok)
            (said (codes "open " ++ p ++ codes " error!") cancelled))))

  pub sc_addafps-Keeps : (req : FingerValue) → Keeps ok (sc_addafps req)
  unfolding sc_addafps
  sc_addafps-Keeps req = step get_config _ OnlyFiles-get_config (λ c.
      step (sprintf_path c.dst_dir (c_str req.name)) _ (OnlyFiles-sprintf_path c.dst_dir _) (λ p.
        step (fopen_wb p) _ (OnlyFiles-fopen_wb p) (λ b.
          Keeps-if ok b _ _ (stores p (value_bytes req.val req.len) status_ok)
            (Keeps-pure ok cancelled))))

  pub sc_delafps-Keeps : (req : AfpDelName) → Keeps ok (sc_delafps req)
  unfolding sc_delafps
  sc_delafps-Keeps req = step get_config _ OnlyFiles-get_config (λ c.
      step (sprintf_path c.afp_dir (c_str req.name)) _ (OnlyFiles-sprintf_path c.afp_dir _)
        (λ p. Keeps->>= ok (remove_path p) _ (Keeps-remove_path ok p) (λ b. Keeps-pure ok _)))

  pub gc_preconf-Keeps :
      (sort : Sort) (now : ℕ) (req : ConfigValue) → Keeps ok (gc_preconf (pro_deal sort now) req)
  unfolding gc_preconf
  gc_preconf-Keeps sort now req =
      let s = (λ (p q r : Bytes). pro_deal-OnlyFiles sort now p q r false req.len req.len) in
      step get_config _ OnlyFiles-get_config (λ c. step _ _ (s c.afp_dir c.wrk_dir []).0 (λ _.
        step _ _ (s c.dat_dir c.log_dir []).1 (λ _. step _ _ (s c.log_dir c.wrk_dir []).2 (λ _.
          step _ _ (s c.wrk_dir c.wrk_dir []).3 (λ _.
            step _ _ (s c.wrk_dir c.wrk_dir []).4 (λ count.
              Keeps-if ok (leb_ℤ count (pos 0)) _ _
                (Keeps->>= ok (logstring (codes "preconf error!")) _
                  (Keeps-logstring ok (codes "preconf error!")) (λ _. Keeps-pure ok _))
                (step _ _ (s c.afp_dir c.org_dir c.wrk_dir).6 (λ _. Keeps-pure ok _))))))))

  module _ (peers : Peers) (url : Bytes) (req request : FingerValue) where
    app_add-Keeps :
        (addr : Bytes)
        → ok (record { addr = addr; request = addafps request }) ≡ true
        → Keeps ok (app_add peers (new_mc_sync (record { addr = addr })) request)
    unfolding app_add sync_clt_addafps
    app_add-Keeps addr passes =
        Keeps->>= ok _ _
          (Keeps-call ok peers (record { addr = addr; request = addafps request }) passes)
          (λ r. Keeps-pure ok r.status)

    mc_round-Keeps :
        (addr : Bytes)
        → ok (record { addr = addr; request = addafps request }) ≡ true
        → Keeps ok (mc_round peers url req request addr)
    unfolding mc_round
    mc_round-Keeps addr passes = step get_config _ OnlyFiles-get_config (λ c.
        Keeps->>= ok (app_add peers (new_mc_sync (record { addr = addr })) request) _
          (app_add-Keeps addr passes)
          (λ s. Keeps->>= ok (logstring _) _ (Keeps-logstring ok _) (λ _.
            Keeps-if ok (not (is_ok s)) _ _ (Keeps-pure ok cancelled) (
              step (sprintf_path c.dst_dir (c_str req.name)) _ (OnlyFiles-sprintf_path c.dst_dir _)
                (λ p. step (fopen_wb p) _ (OnlyFiles-fopen_wb p) (λ b.
                  Keeps-if ok b _ _
                    (step (or_fault (value_bytes req.val req.len)) _ (OnlyFiles-or_fault _) (λ t.
                      step (fclose_wb p t) _ (OnlyFiles-fclose_wb p t) (λ _. said _ status_ok)))
                    (said _ cancelled)))))))

    pub mc_loop-Keeps :
        (addrs : List Bytes)
        → All (λ s. ok (record { addr = s; request = addafps request }) ≡ true) addrs
        → Keeps ok (mc_loop peers url req request addrs)
    unfolding Keeps mc_loop
    mc_loop-Keeps [] h w v a e = Stays-done ok status_ok a w w v e (Stays-files ok w w.files)
    mc_loop-Keeps (addr ∷ addrs) h w v a e =
        elim (Run-cases (mc_round peers url req request addr w)) [
          | inl fails ↦ absurd (ground (arith, (rw (fails, mc_loop) at e)))
          | inr (cancelled, u, ends) ↦
              Stays-done ok cancelled a w u v (rw (ends, mc_loop) at e)
                (mc_round-Keeps addr h.0 w u cancelled ends)
          | inr (status_ok, u, ends) ↦
              Stays-trans ok w u v (mc_round-Keeps addr h.0 w u status_ok ends)
                (mc_loop-Keeps addrs h.1 u v a (rw (ends, mc_loop) at e))
        ]
