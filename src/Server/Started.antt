-- ===== src/Server/Started.antt =====
-- The client of src/client.cc that Preconf starts: what it never does.
use finger_move.Base.{
  Bool, List, Option, [], arith, inl, inr, minus_one, none, pos, some, true, ◌∷◌, ◌≡◌,
}
use finger_move.Clib.{Bytes}
use finger_move.Client.{file_request, gr_afp_move, gr_send, new_gr_move}
use finger_move.Grpcwrap.{move_clt_afpmove}
use finger_move.Prodeal.Names.{is_dot_entry}
use finger_move.Rpc.{Call, FingerValue, Peers, afpmove}
use finger_move.Server.Limits.{step}
use finger_move.World.{
  Run-cases, fopen_rb, for_each, list_dir, or_fault, pure, sprintf_path, unit, ◌>>=◌, ◌>>◌,
}
use finger_move.World.Frames.{
  OnlyFiles-fopen_rb, OnlyFiles-list_dir, OnlyFiles-or_fault, OnlyFiles-sprintf_path,
}
use finger_move.World.Keeps.{
  Keeps, Keeps->>=, Keeps-call, Keeps-if, Keeps-pure, Stays-done, Stays-files, Stays-trans,
}

module _ (ok : Call → Bool) where
  -- The client that moves files to an address.
  module _ (peers : Peers) (addr : Bytes)
      (passes : (x : FingerValue) → ok (record { addr = addr; request = afpmove x }) ≡ true) where
    gr_send-Keeps :
        (org n : Bytes) → Keeps ok (gr_send peers (new_gr_move (record { addr = addr })) org n)
    unfolding gr_send move_clt_afpmove
    gr_send-Keeps org n = Keeps-if ok (is_dot_entry n) _ _ (Keeps-pure ok tt) (
        step ok (sprintf_path org n) _ (OnlyFiles-sprintf_path org n)
          (λ p. step ok (fopen_rb p) _ (OnlyFiles-fopen_rb p) (λ o. read_file o n)))
      where
        read_file :
            (o : Option Bytes) (n : Bytes)
            → Keeps ok (elim o [
              | none ↦ unit
              | some s ↦ do
                req ← or_fault (file_request n s)
                move_clt_afpmove peers (new_gr_move (record { addr = addr })).stub req
                unit
            ])
        read_file none n = Keeps-pure ok tt
        read_file (some s) n =
            step ok (or_fault (file_request n s)) _ (OnlyFiles-or_fault _)
              (λ req. Keeps->>= ok _ _ (Keeps-call ok peers _ (passes req)) (λ r. Keeps-pure ok tt))

    gr_sends-Keeps :
        (org : Bytes) (ns : List Bytes)
        → Keeps ok (for_each ns (gr_send peers (new_gr_move (record { addr = addr })) org))
    unfolding Keeps for_each
    gr_sends-Keeps org [] w v a e = Stays-done ok tt a w w v e (Stays-files ok w w.files)
    gr_sends-Keeps org (n ∷ ns) w v a e =
        elim (Run-cases (gr_send peers (new_gr_move (record { addr = addr })) org n w)) [
          | inl fails ↦ absurd (ground (arith, (rw (fails, for_each) at e)))
          | inr (_, u, ends) ↦
              Stays-trans ok w u v (gr_send-Keeps org n w u tt ends)
                (gr_sends-Keeps org ns u v a (rw (ends, for_each) at e))
        ]

    pub gr_afp_move-Keeps :
        (org : Bytes) → Keeps ok (gr_afp_move peers (new_gr_move (record { addr = addr })) org)
    unfolding gr_afp_move
    gr_afp_move-Keeps org = step ok (list_dir org) _ (OnlyFiles-list_dir org) (λ o. all_sent o)
      where
        all_sent :
            (o : Option (List Bytes))
            → Keeps ok (elim o [
              | none ↦ pure minus_one
              | some ns ↦ do
                for_each ns (gr_send peers (new_gr_move (record { addr = addr })) org)
                pure (pos 0)
            ])
        all_sent none = Keeps-pure ok minus_one
        all_sent (some ns) = Keeps->>= ok _ _ (gr_sends-Keeps org ns) (λ r. Keeps-pure ok (pos 0))
