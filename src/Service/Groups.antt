-- ===== src/Service/Groups.antt =====
-- The groups in the loop of src/service.cc.
use finger_move.Base.{List, [], arith, ℤ, ◌++◌, ◌∷◌, ◌≡◌}
use finger_move.Clib.{Bytes, codes, newline}
use finger_move.Client.{pre_conf}
use finger_move.Grpcwrap.{conf_clt_preconf}
use finger_move.Prodeal.Steps.{CProDeal}
use finger_move.Rpc.{Call, Peers, cancelled, preconf}
use finger_move.Service.{serve_group}
use finger_move.World.{World, call, done, ◌>>=◌}
use finger_move.World.Effects.{logstring-fits}

-- The call that asks a group how many files it wants.
abbrev pub conf_call : Bytes → ℤ → Call
conf_call addr thr = record { addr = addr; request = preconf (record { len = thr }) }

pub serve_group-asks :
    (peers : Peers) (steps : CProDeal) (thr : ℤ) (conf_addr move_addr : Bytes) (line_count : ℤ)
    (w : World)
    → (peers w.sent (conf_call conf_addr thr)).status ≡ cancelled
    → (l : List Bytes) × (serve_group peers steps thr conf_addr move_addr line_count w
        ≡ done
            (line_count, move_addr)
            (record w { sent = w.sent ++ conf_call conf_addr thr ∷ []; logged = l }))
unfolding serve_group pre_conf conf_clt_preconf call
serve_group-asks peers steps thr conf_addr move_addr line_count w refuses =
    let u = record w { sent = w.sent ++ conf_call conf_addr thr ∷ [] } in
    (
      u.logged ++ (codes "preconf Error!" ++ newline ∷ []) ∷ [],
      rw refuses (rw (logstring-fits (codes "preconf Error!") u (omega arith), ◌>>=◌)),
    )
