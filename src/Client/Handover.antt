-- ===== src/Client/Handover.antt =====
-- McMoveClient::afpMove of src/client.cc over a whole directory.
use finger_move.Base.{
  All, All-imp, List, [], ap, append-nil, append_assoc, arith, false, length, pos, some, sym, true,
  ◌++◌, ◌<◌, ◌^◌, ◌∙◌, ◌∷◌, ◌≡◌,
}
use finger_move.Clib.{Bytes, Bytes-discrete, elem, has_byte, strtok}
use finger_move.Client.{McMoveClient, colon, file_request, host_of, mc_afp_move, mc_send}
use finger_move.Client.Sync.{LineFits, file_calls, mc_send-run}
use finger_move.Prodeal.Move.Chosen.{Chosen}
use finger_move.Prodeal.Move.Listing.{names_of}
use finger_move.Prodeal.Names.{is_dot_entry}
use finger_move.Rpc.{Call, FingerValue, Peers}
use finger_move.World.{World, done, for_each, ◌>>=◌}
use finger_move.World.Effects.{Holds, list_dir-there}
use finger_move.World.Files.{names_in, slash}

-- A file that goes out to the group at `host`, with the lines that are logged about it.
pub record CanSend (org host : Bytes) (w : World) (e : Bytes × Bytes) : Type 0 where
  pub entry : is_dot_entry e.0 ≡ false
  pub plain : has_byte slash e.0 ≡ false
  pub size : length e.1 < 2 ^ 31
  pub holds : Holds org e.0 e.1 w
  pub line : LineFits e.0 host
  pub sub_lines : All (λ a. LineFits e.0 (host_of a)) w.sublist

-- The request that a file becomes.
abbrev pub whole : Bytes × Bytes → FingerValue
whole (n, s) = record { name = n; val = s; len = pos (length s) }

-- The calls that the files make, in order.
abbrev pub group_calls : Bytes → List Bytes → Chosen → List Call
group_calls addr subs [] = []
group_calls addr subs (e ∷ fs) = file_calls addr subs e.0 (whole e) ++ group_calls addr subs fs

pub file_request-whole : (n s : Bytes) → length s < 2 ^ 31 → file_request n s ≡ some (whole (n, s))
unfolding file_request
file_request-whole n s h = ground arith

CanSend-later :
    (org host : Bytes) (w : World) (c : List Call) (l : List Bytes) (fs : Chosen)
    → All (CanSend org host w) fs
    → All (CanSend org host (record w { sent = c; logged = l })) fs
CanSend-later org host w c l = All-imp (λ e x. record {
  entry = x.entry;
  plain = x.plain;
  size = x.size;
  holds = record { fits = x.holds.fits; loose = x.holds.loose; there = x.holds.there };
  line = x.line;
  sub_lines = x.sub_lines;
})

module _ (peers : Peers) (clt : McMoveClient) (hostaddr org host more : Bytes)
    (host_is : strtok colon hostaddr ≡ some (host, more)) where
  abbrev addr : Bytes
  addr = clt.stub.m_stub.addr

  for_each-mc_send :
      (fs : Chosen) (w : World)
      → All (CanSend org host w) fs
      → (l : List Bytes) × (for_each (names_of fs) (mc_send peers clt hostaddr org) w
          ≡ done tt (record w { sent = w.sent ++ group_calls addr w.sublist fs; logged = l }))
  unfolding for_each
  for_each-mc_send [] w h =
      (w.logged, ap (λ (c : List Call). done tt (record w { sent = c })) (sym (append-nil w.sent)))
  for_each-mc_send (e ∷ fs) w h =
      let (k, sends) =
        mc_send-run peers clt hostaddr org e.0 e.1 host more (whole e) w
          (file_request-whole e.0 e.1 h.0.size) h.0.entry h.0.plain h.0.holds host_is h.0.line
          h.0.sub_lines in
      let c = w.sent ++ file_calls addr w.sublist e.0 (whole e) in
      let (l, ran) =
        for_each-mc_send fs (record w { sent = c; logged = k })
          (CanSend-later org host w c k fs h.1) in
      (
        l,
        rw (sends, for_each) ran
            ∙ ap (λ (d : List Call). done tt (record w { sent = d; logged = l }))
                (append_assoc w.sent (file_calls addr w.sublist e.0 (whole e))
                  (group_calls addr w.sublist fs)),
      )

  -- All the files of the directory go out, each followed by the calls to the sub caches.
  pub mc_afp_move-sends :
      (fs : Chosen) (w : World)
      → elem org w.dirs ≡ true
      → names_in org w.files ≡ names_of fs
      → All (CanSend org host w) fs
      → (l : List Bytes) × (mc_afp_move peers clt org hostaddr w
          ≡ done (pos 0) (record w { sent = w.sent ++ group_calls addr w.sublist fs; logged = l }))
  unfolding mc_afp_move for_each mc_send Bytes-discrete
  mc_afp_move-sends fs w dir found h =
      let (l, ran) = for_each-mc_send fs w h in
      (l, rw (list_dir-there org (names_of fs) w dir found, ◌>>=◌) (rw (ran, ◌>>=◌)))
