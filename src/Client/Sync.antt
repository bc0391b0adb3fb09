-- ===== src/Client/Sync.antt =====
-- McMoveClient::afpMove of src/client.cc: a file leaves for a group, and the sub caches delete it.
use finger_move.Base.{
  All, List, [], ap, append-nil, append_assoc, arith, false, length, length-append, map, some, sym,
  ◌++◌, ◌+◌, ◌<◌, ◌∙◌, ◌∷◌, ◌≡◌, ◌≤◌,
}
use finger_move.Clib.{Bytes, codes, has_byte, max_line_len, newline, strtok}
use finger_move.Client.{
  McMoveClient, app_del, colon, failure, file_request, host_of, log_text, mc_send, success,
  sync_del, verdict_of,
}
use finger_move.Grpcwrap.{move_clt_afpmove, sync_clt_delafps}
use finger_move.Prodeal.Names.{is_dot_entry}
use finger_move.Rpc.{Call, FingerValue, Peers, Status, afpmove, cancelled, delafps, status_ok}
use finger_move.World.{World, call, done, for_each, ◌>>=◌}
use finger_move.World.Effects.{Holds, LogFits, fopen_rb-there, logstring-fits, sprintf_path-fits}
use finger_move.World.Files.{slash}

-- The line that a step logs about a file and a host fits the buffer, whatever its verdict.
abbrev pub LineFits : Bytes → Bytes → Type 0
LineFits n host = length n + length host + 27 < max_line_len

log_text-LogFits :
    (n op host v : Bytes)
    → length op ≤ 3
    → length v ≤ 10
    → LineFits n host
    → LogFits (log_text n op host v)
unfolding log_text
log_text-LogFits n op host v ho hv h =
    let main = 9 ∷ colon ∷ 9 ∷ 9 ∷ codes "main" in
    let step = 9 ∷ 9 ∷ op in
    let peer = 9 ∷ 9 ∷ host in
    let whole : length (log_text n op host v) ≡ length (n ++ main ++ step ++ peer) + length v =
      length-append (n ++ main ++ step ++ peer) v in
    omega (
      arith,
      whole,
      length-append (n ++ main ++ step) peer,
      length-append (n ++ main) step,
      length-append n main,
    )

verdict_of-length :
    (s : Status) (a b : Bytes) → length a ≤ 10 → length b ≤ 10 → length (verdict_of s a b) ≤ 10
verdict_of-length status_ok a b h k = h
verdict_of-length cancelled a b h k = k

-- The call that tells the sub cache at an address to delete a file.
abbrev pub del_call : Bytes → Bytes → Call
del_call n addr = record { addr = addr; request = delafps (record { name = n }) }

module _ (peers : Peers) (n : Bytes) where
  sync_del-run :
      (addr : Bytes) (w : World)
      → LineFits n (host_of addr)
      → (l : List Bytes) × (sync_del peers n addr w
          ≡ done tt (record w { sent = w.sent ++ del_call n addr ∷ []; logged = l }))
  unfolding sync_del app_del sync_clt_delafps call
  sync_del-run addr w h =
      let s = (peers w.sent (del_call n addr)).status in
      let short = verdict_of-length s success (codes "Error!") (omega arith) (omega arith) in
      let fits = log_text-LogFits n (codes "-->") (host_of addr) _ (omega arith) short h in
      let line = log_text n (codes "-->") (host_of addr) (verdict_of s success (codes "Error!")) in
      (w.logged ++ (line ++ newline ∷ []) ∷ [], rw (logstring-fits line _ fits))

  sync_subs-run :
      (subs : List Bytes) (w : World)
      → All (λ addr. LineFits n (host_of addr)) subs
      → (l : List Bytes) × (for_each subs (sync_del peers n) w
          ≡ done tt (record w { sent = w.sent ++ map (del_call n) subs; logged = l }))
  unfolding for_each
  sync_subs-run [] w h =
      (w.logged, ap (λ (c : List Call). done tt (record w { sent = c })) (sym (append-nil w.sent)))
  sync_subs-run (addr ∷ subs) w h =
      let (k, told) = sync_del-run addr w h.0 in
      let (l, runs) =
        sync_subs-run subs (record w { sent = w.sent ++ del_call n addr ∷ []; logged = k }) h.1 in
      (
        l,
        rw (told, for_each)
            (runs
              ∙ ap (λ (c : List Call). done tt (record w { sent = c; logged = l }))
                  (append_assoc w.sent (del_call n addr ∷ []) (map (del_call n) subs))),
      )

-- The call that sends a request to a group.
abbrev pub move_call : Bytes → FingerValue → Call
move_call addr req = record { addr = addr; request = afpmove req }

-- All the calls that one file makes.
abbrev pub file_calls : Bytes → List Bytes → Bytes → FingerValue → List Call
file_calls addr subs n req = move_call addr req ∷ map (del_call n) subs

pub mc_send-run :
    (peers : Peers) (clt : McMoveClient) (hostaddr org n s host more : Bytes) (req : FingerValue)
    (w : World)
    → file_request n s ≡ some req
    → is_dot_entry n ≡ false
    → has_byte slash n ≡ false
    → Holds org n s w
    → strtok colon hostaddr ≡ some (host, more)
    → LineFits n host
    → All (λ a. LineFits n (host_of a)) w.sublist
    → (l : List Bytes) × (mc_send peers clt hostaddr org n w
        ≡ done tt (record w {
          sent = w.sent ++ file_calls clt.stub.m_stub.addr w.sublist n req;
          logged = l;
        }))
unfolding mc_send move_clt_afpmove call
mc_send-run peers clt hostaddr org n s host more req w h entry plain holds host_is line lines =
    let st = (peers w.sent (move_call clt.stub.m_stub.addr req)).status in
    let short = verdict_of-length st success failure (omega arith) (omega arith) in
    let fits = log_text-LogFits n (codes "==>") host _ (omega arith) short line in
    let sent_line = log_text n (codes "==>") host (verdict_of st success failure) in
    let u = record w { sent = w.sent ++ move_call clt.stub.m_stub.addr req ∷ [] } in
    let v = record u { logged = w.logged ++ (sent_line ++ newline ∷ []) ∷ [] } in
    let (l, ran) = sync_subs-run peers n w.sublist v lines in
    (
      l,
      rw entry (
            rw (sprintf_path-fits org n w holds.fits, ◌>>=◌)
              (rw (fopen_rb-there org n s w plain holds, ◌>>=◌)
                (rw (h, ◌>>=◌)
                  (rw (host_is, ◌>>=◌) (rw (logstring-fits sent_line u fits, ◌>>=◌) ran)))))
          ∙ ap (λ (c : List Call). done tt (record w { sent = c; logged = l }))
              (append_assoc w.sent (move_call clt.stub.m_stub.addr req ∷ [])
                (map (del_call n) w.sublist)),
    )
