-- ===== src/Client/Upload.antt =====
-- GrMoveClient of src/client.cc: what a group server hands over when Preconf has chosen.
use finger_move.Base.{
  All, All-imp, List, [], ap, append-nil, append_assoc, false, length, map, refl, sym, true, ◌++◌,
  ◌<◌, ◌^◌, ◌∙◌, ◌∷◌, ◌≡◌,
}
use finger_move.Clib.{Bytes, Bytes-discrete, elem, has_byte}
use finger_move.Client.{gr_afp_move, gr_send, new_gr_move, run_client}
use finger_move.Client.Handover.{file_request-whole, whole}
use finger_move.Client.Sync.{move_call}
use finger_move.Grpcwrap.{move_clt_afpmove}
use finger_move.Prodeal.Move.Chosen.{Chosen}
use finger_move.Prodeal.Move.Listing.{names_of}
use finger_move.Prodeal.Names.{is_dot_entry}
use finger_move.Rpc.{Call, Peers}
use finger_move.World.{World, call, done, for_each, ◌>>=◌}
use finger_move.World.Effects.{Holds, fopen_rb-there, list_dir-there, sprintf_path-fits}
use finger_move.World.Files.{dot, dot_dot, names_in, slash}

-- A file of the directory that can be read and whose size is an int.
pub record CanUpload (org : Bytes) (w : World) (e : Bytes × Bytes) : Type 0 where
  pub entry : is_dot_entry e.0 ≡ false
  pub plain : has_byte slash e.0 ≡ false
  pub size : length e.1 < 2 ^ 31
  pub holds : Holds org e.0 e.1 w

-- The calls that the files make.
abbrev pub uploads : Bytes → Chosen → List Call
uploads addr = map (λ e. move_call addr (whole e))

CanUpload-later :
    (org : Bytes) (w : World) (c : List Call) (fs : Chosen)
    → All (CanUpload org w) fs
    → All (CanUpload org (record w { sent = c })) fs
CanUpload-later org w c = All-imp (λ e x. record {
  entry = x.entry;
  plain = x.plain;
  size = x.size;
  holds = record { fits = x.holds.fits; loose = x.holds.loose; there = x.holds.there };
})

module _ (peers : Peers) (addr org : Bytes) where
  gr_send-run :
      (e : Bytes × Bytes) (w : World)
      → CanUpload org w e
      → gr_send peers (new_gr_move (record { addr = addr })) org e.0 w
        ≡ done tt (record w { sent = w.sent ++ move_call addr (whole e) ∷ [] })
  unfolding gr_send move_clt_afpmove call
  gr_send-run (n, s) w h = rw h.entry (
      rw (sprintf_path-fits org n w h.holds.fits, ◌>>=◌)
        (rw (fopen_rb-there org n s w h.plain h.holds, ◌>>=◌)
          (rw (file_request-whole n s h.size, ◌>>=◌))))

  for_each-gr_send :
      (fs : Chosen) (w : World)
      → All (CanUpload org w) fs
      → for_each (names_of fs) (gr_send peers (new_gr_move (record { addr = addr })) org) w
        ≡ done tt (record w { sent = w.sent ++ uploads addr fs })
  unfolding for_each
  for_each-gr_send [] w h =
      ap (λ (c : List Call). done tt (record w { sent = c })) (sym (append-nil w.sent))
  for_each-gr_send (e ∷ fs) w h =
      let c = w.sent ++ move_call addr (whole e) ∷ [] in
      rw (gr_send-run e w h.0, for_each)
        (for_each-gr_send fs (record w { sent = c }) (CanUpload-later org w c fs h.1)
          ∙ ap (λ (d : List Call). done tt (record w { sent = d }))
              (append_assoc w.sent (move_call addr (whole e) ∷ []) (uploads addr fs)))

-- The directory's entries "." and ".." are left out.
for_each-dots :
    (peers : Peers) (addr org : Bytes) (ns : List Bytes) (w : World)
    → for_each (dot ∷ dot_dot ∷ ns) (gr_send peers (new_gr_move (record { addr = addr })) org) w
      ≡ for_each ns (gr_send peers (new_gr_move (record { addr = addr })) org) w
unfolding for_each gr_send Bytes-discrete
for_each-dots peers addr org ns w = refl

-- The client that Preconf starts sends every file of ORG_DIR, whole and under its name, to
-- CLT_MOVE_ADDR, in the order of the directory and with one call each, whatever the peer answers;
-- it changes no file and logs nothing. The directory is there, its files can be read, their sizes
-- are ints, no name has a slash, and the paths fit.
pub run_client-uploads :
    (peers : Peers) (fs : Chosen) (w : World)
    → elem w.config.org_dir w.dirs ≡ true
    → names_in w.config.org_dir w.files ≡ names_of fs
    → All (CanUpload w.config.org_dir w) fs
    → run_client peers w ≡ done tt (record w { sent = w.sent ++ uploads w.config.clt_move_addr fs })
unfolding run_client gr_afp_move
run_client-uploads peers fs w dir found can =
    rw (list_dir-there w.config.org_dir (names_of fs) w dir found, ◌>>=◌)
      (rw (
        for_each-dots peers w.config.clt_move_addr w.config.org_dir (names_of fs) w
            ∙ for_each-gr_send peers w.config.clt_move_addr w.config.org_dir fs w can,
        ◌>>=◌,
      ))
