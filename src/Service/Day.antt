-- ===== src/Service/Day.antt =====
-- The loop over the group list of src/service.cc.
use finger_move.Base.{
  All, All-both, All-imp, List, [], ap, append-nil, append_assoc, arith, length, lt→ltb, pos, refl,
  subst, sym, ℕ, ℤ, ◌++◌, ◌+◌, ◌<◌, ◌^◌, ◌∙◌, ◌∷◌, ◌≡◌,
}
use finger_move.Clib.{Bytes, max_line_len}
use finger_move.Clib.Laws.Lines.{c_str_self}
use finger_move.Client.{pre_conf}
use finger_move.Client.Handover.{group_calls}
use finger_move.Prodeal.Count.Sorter.{Sort}
use finger_move.Prodeal.Steps.{CProDeal, pro_deal}
use finger_move.Rpc.{Peers}
use finger_move.Service.{serve_group, serve_groups}
use finger_move.Service.Groups.{conf_call, serve_group-asks}
use finger_move.Service.Parts.{serve_group-run}
use finger_move.Service.Shares.{
  CanVisit, DisjointParts, FollowOn, HasList, IsAddr, Visit, accepted, day_calls, day_files,
  refused, tokens, total,
}
use finger_move.Service.Turn.{
  CanDeliver-part, CanVisit-asked, CanVisit-next, HasList-asked, HasList-next,
}
use finger_move.World.{World, done, fault}
use finger_move.World.Files.{FilePath, lookup}

-- Two words that fit their buffers.
words_served :
    (peers : Peers) (steps : CProDeal) (thr : ℤ) (old conf move : Bytes) (ts : List Bytes) (n : ℤ)
    (w : World)
    → IsAddr conf
    → IsAddr move
    → serve_groups peers steps thr old (conf ∷ move ∷ ts) n w
      ≡ elim (serve_group peers steps thr conf move n w) [
        | fault ↦ fault
        | done (k, left) w' ↦ serve_groups peers steps thr left ts k w'
      ]
unfolding serve_groups pre_conf
words_served peers steps thr old conf move ts n w h k =
    rw (lt→ltb (length conf) max_line_len h.1, serve_groups)
      (rw (lt→ltb (length move) max_line_len k.1, serve_groups)
        (rw (c_str_self conf h.0) (rw (c_str_self move k.0))))

-- The loop of runLoop gives the groups that accept, in order, parts of the files that the list of
-- botAfpFile names, as many as each answers, each part from where the one before ends. Each group
-- is asked; each file of its part goes to it whole, in the order of the list, and after each file
-- every sub cache is told to delete it. For each part ORG_DIR is emptied and the files of the part
-- move there from AFP_DIR with what they hold. A group that refuses gets nothing, takes no part,
-- and changes no file. Every other path holds what it held. The loop begins at a position that is
-- not negative, and this and the files that the groups get add up to less than 2^31. Every word of
-- the group list has no NUL and is shorter than 1024 bytes. AFP_DIR, ORG_DIR and the work
-- directory are three, and ORG_DIR is there; the list can be read and its lines fit the buffer;
-- the list is long enough for what the groups answer; no file stands in two parts or twice in one,
-- the files are in AFP_DIR, can be moved, and are not named . or .., what is in ORG_DIR at first
-- can be removed, the sizes of the files are less than 2^31, the addresses have hosts, and no line
-- that is logged is too long.
pub serve_groups-delivers :
    (peers : Peers) (sort : Sort) (now : ℕ) (thr : ℤ) (old : Bytes) (start : ℕ)
    (listed : List Bytes) (vs : List Visit) (w : World)
    → start + total vs < 2 ^ 31
    → FollowOn start listed vs
    → DisjointParts vs
    → HasList w.config.afp_dir w.config.org_dir w.config.wrk_dir listed w
    → All (CanVisit peers thr w.config.afp_dir w.config.org_dir w) vs
    → (w' : World) × (serve_groups peers (pro_deal sort now) thr old (tokens vs) (pos start) w
        ≡ done (pos (start + total vs)) w')
      × (w'.sent ≡ w.sent ++ day_calls thr w.sublist vs)
      × ((q : FilePath)
          → lookup q w'.files ≡ day_files w.config.afp_dir w.config.org_dir vs q (lookup q w.files))
unfolding serve_groups
serve_groups-delivers peers sort now thr old start listed [] w bound parts apart h ready =
    (w, ap (λ (n : ℕ). done (pos n) w) (omega arith), sym (append-nil w.sent), λ q. refl)
serve_groups-delivers peers sort now thr old start listed (refused conf move ∷ vs) w bound parts
      apart h ready =
    let c = w.config in
    let (l, ran) =
      serve_group-asks peers (pro_deal sort now) thr conf move (pos start) w (ready.0.2 w.sent) in
    let v = record w { sent = w.sent ++ conf_call conf thr ∷ []; logged = l } in
    let still : start + 0 ≡ start = omega arith in
    let (w', rest, sent, left) =
      serve_groups-delivers peers sort now thr move start listed vs v (omega (arith, bound))
        (subst (λ (n : ℕ). FollowOn n listed vs) still parts.1) apart.1
        (HasList-asked peers thr c.afp_dir c.org_dir c.wrk_dir w v.sent l listed h)
        (All-imp (CanVisit-asked peers thr c.afp_dir c.org_dir c.wrk_dir w v.sent l) vs ready.1) in
    (
      w',
      words_served peers (pro_deal sort now) thr old conf move (tokens vs) (pos start) w ready.0.0
            ready.0.1
          ∙ rw (ran, serve_groups) (rest ∙ ap (λ (n : ℕ). done (pos (start + n)) w') (omega arith)),
      sent ∙ append_assoc w.sent (conf_call conf thr ∷ []) (day_calls thr w.sublist vs),
      left,
    )
serve_groups-delivers peers sort now thr old start listed (accepted g ∷ vs) w bound parts apart h
      ready =
    let k = ready.0 in
    let (ts, l, buffer, ran, left, found) =
      serve_group-run peers sort now thr g.conf_addr g.move_addr start (length g.files) listed
        g.files g.host g.more w (omega (arith, bound)) (k.accepts w.sent) parts.0
        (CanDeliver-part peers thr listed g w h k) k.host_is k.tell in
    let c = w.sent ++ conf_call g.conf_addr thr ∷ group_calls g.move_addr w.sublist g.files in
    let v = record w { files = ts; sent = c; logged = l } in
    let sum : start + length g.files + total vs ≡ start + (length g.files + total vs) =
      omega arith in
    let (w', rest, sent, later_left) =
      serve_groups-delivers peers sort now thr buffer (start + length g.files) listed vs v
        (omega (arith, bound)) parts.1 apart.1
        (HasList-next peers thr w g.files ts c l listed g.host left found k.can k.tell h)
        (All-imp (λ u x. CanVisit-next peers thr w g.files ts c l u h.org_afp left x.1 x.0) vs
          (All-both _ _ vs ready.1 apart.0)) in
    (
      w',
      words_served peers (pro_deal sort now) thr old g.conf_addr g.move_addr (tokens vs) (pos start)
            w k.conf_word k.move_word
          ∙ rw (ran, serve_groups) (rest ∙ ap (λ (n : ℕ). done (pos n) w') sum),
      sent
          ∙ append_assoc w.sent
              (conf_call g.conf_addr thr ∷ group_calls g.move_addr w.sublist g.files)
              (day_calls thr w.sublist vs),
      λ q. later_left q ∙ ap (day_files w.config.afp_dir w.config.org_dir vs q) (left q),
    )
