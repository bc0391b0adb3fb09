-- ===== src/Server/Served.antt =====
-- The servers of src/server.cc over any requests, whatever they meet.
use finger_move.Autoconf.Config.{Config}
use finger_move.Base.{
  All-imp, Bool, List, Option-cases, [], ap, arith, false, if_pos, if◌then◌else◌, inl, inr, refl,
  subst, true, ℕ, ◌∷◌, ◌≡◌,
}
use finger_move.Clib.{Bytes, Bytes-discrete, same}
use finger_move.Client.{gr_afp_move, new_gr_move, run_client}
use finger_move.Prodeal.Count.Sorter.{Sort}
use finger_move.Prodeal.Steps.{pro_deal}
use finger_move.Rpc.{
  Call, FingerValue, Peers, Reply, Request, Status, addafps, afpmove, cancelled, delafps, preconf,
}
use finger_move.Server.{gc_preconf, mc_afpmove, value_bytes}
use finger_move.Server.Dispatch.{
  Handlers, answer, gc_server, gm_server, mc_server, reply, sc_server, serve,
}
use finger_move.Server.Limits.{
  elem-All, gc_preconf-Keeps, gm_afpmove-Keeps, mc_loop-Keeps, sc_addafps-Keeps, sc_delafps-Keeps,
  tells,
}
use finger_move.Server.Started.{gr_afp_move-Keeps}
use finger_move.World.{Cmd, Run-cases, World, done, pure, unit, ◌>>=◌}
use finger_move.World.Keeps.{
  Keeps, Keeps->>=, Keeps-pure, Stays, Stays-done, Stays-files, Stays-trans,
}

module _ (peers : Peers) (sort : Sort) (now : ℕ) (url : Bytes) where
  mc_afpmove-Stays :
      (req : FingerValue) (w v : World) (s : Status)
      → mc_afpmove peers url req w ≡ done s v
      → Stays (tells w mc_server) w v
  unfolding mc_afpmove Keeps
  mc_afpmove-Stays req w v s e = elim (Option-cases (value_bytes req.val req.len)) [
    | inl unread ↦ absurd (ground (arith, (rw (unread, ◌>>=◌) at e)))
    | inr (t, reads) ↦
        let request : FingerValue = record { name = req.name; val = t; len = req.len } in
        mc_loop-Keeps (tells w mc_server) peers url req request w.sublist
          (All-imp (λ x h. ground (arith, h)) w.sublist (elem-All w.sublist)) w v s
          (rw (reads, ◌>>=◌) at e)
  ]

  -- The answer to a request, made of what the handler returns.
  replied : (ok : Call → Bool) (m : Cmd Status) → Keeps ok m → Keeps ok (m >>= λ s. pure (reply s))
  replied ok m h = Keeps->>= ok m _ h (λ s. Keeps-pure ok (reply s))

  idle : (ok : Call → Bool) → Keeps ok (pure (reply cancelled))
  idle ok = Keeps-pure ok (reply cancelled)

  -- The client that Preconf has started, or not.
  client-Stays :
      (b : Bool) (w u v : World) (r : Unit {0})
      → u.config ≡ w.config
      → (if b then run_client peers else unit) u ≡ done r v
      → Stays (tells w gc_server) u v
  unfolding run_client Keeps
  client-Stays true w u v r known e =
      let ok = tells w gc_server in
      let addr = u.config.clt_move_addr in
      let passes : same addr w.config.clt_move_addr ≡ true =
        if_pos (Bytes-discrete addr w.config.clt_move_addr)
          (ap (λ (c : Config). c.clt_move_addr) known) true false in
      Keeps->>= ok (gr_afp_move peers (new_gr_move (record { addr = addr })) u.config.org_dir) _
        (gr_afp_move-Keeps ok peers addr (λ x. rw passes refl) u.config.org_dir)
        (λ _. Keeps-pure ok tt) u v r e
  client-Stays false w u v r known e = Keeps-pure (tells w gc_server) tt u v r e

  answer-Stays :
      (h : Handlers) (r : Request) (w v : World) (a : Reply)
      → answer peers (pro_deal sort now) url h r w ≡ done a v
      → Stays (tells w h) w v
  unfolding answer Keeps
  answer-Stays gm_server (afpmove x) w v a e = replied _ _ (gm_afpmove-Keeps _ x) w v a e
  answer-Stays gm_server (preconf x) w v a e = idle _ w v a e
  answer-Stays gm_server (delafps x) w v a e = idle _ w v a e
  answer-Stays gm_server (addafps x) w v a e = idle _ w v a e
  answer-Stays gc_server (afpmove x) w v a e = idle _ w v a e
  answer-Stays gc_server (preconf x) w v a e =
      let ok = tells w gc_server in
      elim (Run-cases (gc_preconf (pro_deal sort now) x w)) [
        | inl fails ↦ absurd (ground (arith, (rw (fails, ◌>>=◌) at e)))
        | inr (r, u, ends) ↦
            let first = gc_preconf-Keeps ok sort now x w u r ends in
            elim (Run-cases ((if r.starts_client then run_client peers else unit) u)) [
              | inl fails ↦ absurd (ground (arith, (rw (fails, ◌>>=◌) at (rw (ends, ◌>>=◌) at e))))
              | inr (_, y, ends') ↦
                  Stays-done ok (record { status = r.status; len = r.len }) a w y v
                    (rw (ends', ◌>>=◌) at (rw (ends, ◌>>=◌) at e))
                    (Stays-trans ok w u y first
                      (client-Stays r.starts_client w u y tt first.config_same ends'))
            ]
      ]
  answer-Stays gc_server (delafps x) w v a e = idle _ w v a e
  answer-Stays gc_server (addafps x) w v a e = idle _ w v a e
  answer-Stays mc_server (afpmove x) w v a e = elim (Run-cases (mc_afpmove peers url x w)) [
    | inl fails ↦ absurd (ground (arith, (rw (fails, ◌>>=◌) at e)))
    | inr (s, u, ends) ↦
        Stays-done (tells w mc_server) (reply s) a w u v (rw (ends, ◌>>=◌) at e)
          (mc_afpmove-Stays x w u s ends)
  ]
  answer-Stays mc_server (preconf x) w v a e = idle _ w v a e
  answer-Stays mc_server (delafps x) w v a e = idle _ w v a e
  answer-Stays mc_server (addafps x) w v a e = idle _ w v a e
  answer-Stays sc_server (afpmove x) w v a e = idle _ w v a e
  answer-Stays sc_server (preconf x) w v a e = idle _ w v a e
  answer-Stays sc_server (delafps x) w v a e = replied _ _ (sc_delafps-Keeps _ x) w v a e
  answer-Stays sc_server (addafps x) w v a e = replied _ _ (sc_addafps-Keeps _ x) w v a e

  -- The list of sub caches and the address of the main cache stay.
  tells_same :
      (w u : World) (h : Handlers)
      → u.config ≡ w.config
      → u.sublist ≡ w.sublist
      → tells u h ≡ tells w h
  tells_same w u mc_server c s = λ i x. tells (record w { sublist = s i }) mc_server x
  tells_same w u gc_server c s = λ i x. tells (record w { config = c i }) gc_server x
  tells_same w u gm_server c s = refl
  tells_same w u sc_server c s = refl

  -- A server of any class that has answered any requests, whatever it met, has the configuration
  -- and the list of sub caches that it had; what it logged stands behind the lines before; and it
  -- has made no call, except that a main cache tells the sub caches in its list to add files, and
  -- that the client which a group server starts moves files to CLT_MOVE_ADDR. The client is run
  -- when Preconf has answered.
  pub serve-Stays :
      (h : Handlers) (rs : List Request) (w v : World) (as' : List Reply)
      → serve peers (pro_deal sort now) url h rs w ≡ done as' v
      → Stays (tells w h) w v
  unfolding serve
  serve-Stays h [] w v as' e =
      Stays-done (tells w h) [] as' w w v e (Stays-files (tells w h) w w.files)
  serve-Stays h (r ∷ rs) w v as' e = elim (Run-cases (answer peers (pro_deal sort now) url h r w)) [
    | inl fails ↦ absurd (ground (arith, (rw (fails, serve) at e)))
    | inr (a, u, ends) ↦
        let first = answer-Stays h r w u a ends in
        elim (Run-cases (serve peers (pro_deal sort now) url h rs u)) [
          | inl fails ↦ absurd (ground (arith, (rw (fails, serve) at (rw (ends, serve) at e))))
          | inr (bs, x, ends') ↦
              Stays-done (tells w h) (a ∷ bs) as' w x v
                (rw (ends', serve) at (rw (ends, serve) at e))
                (Stays-trans (tells w h) w u x first (
                  subst (λ (ok : Call → Bool). Stays ok u x)
                    (tells_same w u h first.config_same first.sublist_same)
                    (serve-Stays h rs u x bs ends')))
        ]
  ]
