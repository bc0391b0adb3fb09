-- ===== src/Service/Parts.antt =====
-- What a group of src/service.cc gets that accepts.
use finger_move.Base.{
  All, All-both, All-imp, List, [], add_int-pos, ap, append_assoc, drop, false, length, pos, some,
  take, ℕ, ℤ, ◌++◌, ◌+◌, ◌<◌, ◌^◌, ◌∙◌, ◌∷◌, ◌≡◌, ◌≢◌,
}
use finger_move.Clib.{Bytes, strtok}
use finger_move.Client.{colon, host_of, new_mc_move, pre_conf}
use finger_move.Client.Handover.{CanSend, group_calls, mc_afp_move-sends}
use finger_move.Client.Sync.{LineFits}
use finger_move.Grpcwrap.{conf_clt_preconf}
use finger_move.Prodeal.Count.Sorter.{Sort}
use finger_move.Prodeal.Move.Chosen.{Chosen, DistinctNames}
use finger_move.Prodeal.Move.Delivery.{CanDeliver, delivered, mov_cnt_file-delivers}
use finger_move.Prodeal.Move.Listing.{after_moves-each, names_of}
use finger_move.Prodeal.Move.Rename.{CanMove}
use finger_move.Prodeal.Names.{bot_afps_file, is_dot_entry}
use finger_move.Prodeal.Steps.{pro_deal}
use finger_move.Rpc.{Call, Peers, status_ok}
use finger_move.Service.{buffer_left, serve_group}
use finger_move.Service.Groups.{conf_call}
use finger_move.World.{World, call, done, ◌>>=◌}
use finger_move.World.Effects.{writable-loose}
use finger_move.World.Files.{FilePath, FileTable, lookup, names_in, path}

-- What is sent and logged about a file fits.
pub record CanTell (host : Bytes) (w : World) (e : Bytes × Bytes) : Type 0 where
  pub entry : is_dot_entry e.0 ≡ false
  pub size : length e.1 < 2 ^ 31
  pub line : LineFits e.0 host
  pub sub_lines : All (λ a. LineFits e.0 (host_of a)) w.sublist

module _ (org dst wrk : Bytes) (listed : List Bytes) (fs : Chosen) (w : World) where
  -- A call changes no file.
  CanDeliver-sent :
      (c : List Call)
      → CanDeliver org dst wrk bot_afps_file listed fs w
      → CanDeliver org dst wrk bot_afps_file listed fs (record w { sent = c })
  CanDeliver-sent c h = record {
    takes = record {
      dir = h.takes.dir;
      clear =
          All-imp
            (λ n x. record { entry = x.entry; plain = x.plain; fits = x.fits; loose = x.loose }) _
            h.takes.clear;
      apart = h.takes.apart;
      distinct = h.takes.distinct;
      can =
          All-imp
            (λ e x. record {
              plain = x.plain;
              fits = x.fits;
              holds = record { fits = x.holds.fits; loose = x.holds.loose; there = x.holds.there };
              free = x.free;
            })
            fs h.takes.can;
    };
    aside = h.aside;
    holds = record { fits = h.holds.fits; loose = h.holds.loose; there = h.holds.there };
    texts = h.texts;
  }

  -- The files that have been moved can be sent.
  CanSend-delivered :
      (host : Bytes) (c : List Call) (gs : FileTable)
      → ((q : FilePath) → lookup q gs ≡ delivered org dst fs q (lookup q w.files))
      → dst ≢ org
      → DistinctNames fs
      → All (CanMove org dst w) fs
      → All (CanTell host w) fs
      → All (CanSend dst host (record w { sent = c; files = gs })) fs
  CanSend-delivered host c gs left apart distinct can tell =
      All-imp
        (λ e x. record {
          entry = x.0.1.entry;
          plain = x.0.0.plain;
          size = x.0.1.size;
          holds = record {
            fits = x.0.0.fits;
            loose = writable-loose (path dst e.0) w x.0.0.free;
            there = left (path dst e.0) ∙ x.1 _;
          };
          line = x.0.1.line;
          sub_lines = x.0.1.sub_lines;
        })
        fs (All-both _ _ fs (All-both _ _ fs can tell) (after_moves-each org dst apart fs distinct))

-- The group is asked, the files of its part are moved, and then they are sent.
pub serve_group-run :
    (peers : Peers) (sort : Sort) (now : ℕ) (thr : ℤ) (conf_addr move_addr : Bytes) (start cnt : ℕ)
    (listed : List Bytes) (fs : Chosen) (host more : Bytes) (w : World)
    → start + cnt < 2 ^ 31
    → peers w.sent (conf_call conf_addr thr) ≡ record { status = status_ok; len = pos cnt }
    → names_of fs ≡ take cnt (drop start listed)
    → CanDeliver w.config.afp_dir w.config.org_dir w.config.wrk_dir bot_afps_file listed fs w
    → strtok colon move_addr ≡ some (host, more)
    → All (CanTell host w) fs
    → (gs : FileTable) × (l : List Bytes) × (left_over : Bytes) × (serve_group peers
          (pro_deal sort now)
          thr
          conf_addr
          move_addr
          (pos start)
          w
        ≡ done
            (pos (start + cnt), left_over)
            (record w {
              files = gs;
              sent = w.sent ++ conf_call conf_addr thr ∷ group_calls move_addr w.sublist fs;
              logged = l;
            }))
      × ((q : FilePath)
          → lookup q gs ≡ delivered w.config.afp_dir w.config.org_dir fs q (lookup q w.files))
      × (names_in w.config.org_dir gs ≡ names_of fs)
unfolding serve_group pre_conf conf_clt_preconf call pro_deal
serve_group-run peers sort now thr conf_addr move_addr start cnt listed fs host more w bound accepts
      names_are h host_is tell =
    let c = w.config in
    let call1 = conf_call conf_addr thr in
    let u = record w { sent = w.sent ++ call1 ∷ [] } in
    let (gs, moves, left, found) =
      mov_cnt_file-delivers c.afp_dir c.org_dir c.wrk_dir start cnt listed fs u bound names_are
        (CanDeliver-sent c.afp_dir c.org_dir c.wrk_dir listed fs w u.sent h) in
    let v = record u { files = gs } in
    let (l, sends) =
      mc_afp_move-sends peers (new_mc_move (record { addr = move_addr })) move_addr c.org_dir host
        more host_is fs v h.takes.dir found
        (CanSend-delivered c.afp_dir c.org_dir c.wrk_dir listed fs w host u.sent gs left
          h.takes.apart h.takes.distinct h.takes.can tell) in
    let buffer = buffer_left v.sent (v.sent ++ group_calls move_addr w.sublist fs) move_addr in
    (
      gs,
      l,
      buffer,
      rw accepts (rw (moves, ◌>>=◌) (rw (add_int-pos start cnt bound, ◌>>=◌) (rw (sends, ◌>>=◌))))
          ∙ ap
              (λ (d : List Call).
                done (pos (start + cnt), buffer) (record v { sent = d; logged = l }))
              (append_assoc w.sent (call1 ∷ []) (group_calls move_addr w.sublist fs)),
      left,
      found,
    )
