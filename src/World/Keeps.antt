-- ===== src/World/Keeps.antt =====
-- Commands that keep the configuration, and whose calls and log lines come behind the others.
use finger_move.Base.{
  All, All-append, Bool, Bool-cases, List, [], ap, append-nil, append_assoc, arith, false,
  if◌then◌else◌, inl, inr, keep, length, ltb, not, refl, subst, sym, true, ◌&&◌, ◌++◌, ◌+◌, ◌∙◌,
  ◌∷◌, ◌≡◌, ◌⊎◌,
}
use finger_move.Clib.{Bytes, elem, max_line_len, newline, same}
use finger_move.Rpc.{Call, Peers}
use finger_move.World.{
  Cmd, Run, Run-cases, World, call, done, fault, is_none, logstring, pure, remove, remove_path,
  rmdir, ◌>>=◌,
}
use finger_move.World.Files.{FileTable, locate, names_in, path}
use finger_move.World.Frames.{OnlyFiles, OnlyFiles-remove}

-- The world `v` comes of `w`, with calls that `ok` lets pass.
pub record Stays (ok : Call → Bool) (w v : World) : Type 0 where
  pub config_same : v.config ≡ w.config
  pub sublist_same : v.sublist ≡ w.sublist
  pub new_calls : (cs : List Call) × (v.sent ≡ w.sent ++ cs) × All (λ c. ok c ≡ true) cs
  pub new_lines : (ls : List Bytes) × (v.logged ≡ w.logged ++ ls)

unfoldable pub Keeps {ℓ} : (Call → Bool) → {A : Type ℓ} → Cmd A → Type ℓ
Keeps ok {A} m = (w v : World) (a : A) → m w ≡ done a v → Stays ok w v

rmdir-cases :
    (d : Bytes) (w : World)
    → (rmdir d w ≡ done true w)
      ⊎ ((ds : List Bytes) × (rmdir d w ≡ done false (record w { dirs = ds })))
unfolding rmdir
rmdir-cases d w =
    elim (Bool-cases
      (elem d w.dirs && is_none (names_in d w.files) && not (w.locked (path d [])))) [
        | inl e ↦ inr (keep (λ x. not (same x d)) w.dirs, rw e)
        | inr e ↦ inl (rw e)
      ]

module _ (ok : Call → Bool) where
  pub Stays-files : (w : World) (fs : FileTable) → Stays ok w (record w { files = fs })
  Stays-files w fs = record {
    config_same = refl;
    sublist_same = refl;
    new_calls = ([], sym (append-nil w.sent), tt);
    new_lines = ([], sym (append-nil w.logged));
  }

  pub Stays-dirs : (w : World) (ds : List Bytes) → Stays ok w (record w { dirs = ds })
  Stays-dirs w ds = record {
    config_same = refl;
    sublist_same = refl;
    new_calls = ([], sym (append-nil w.sent), tt);
    new_lines = ([], sym (append-nil w.logged));
  }

  pub Stays-trans : (w v u : World) → Stays ok w v → Stays ok v u → Stays ok w u
  Stays-trans w v u h k =
      let (cs, sent_h, ok_h) = h.new_calls in
      let (ds, sent_k, ok_k) = k.new_calls in
      let (ls, logged_h) = h.new_lines in
      let (ms, logged_k) = k.new_lines in
      record {
        config_same = k.config_same ∙ h.config_same;
        sublist_same = k.sublist_same ∙ h.sublist_same;
        new_calls = (
          cs ++ ds,
          sent_k ∙ ap (λ (l : List Call). l ++ ds) sent_h ∙ append_assoc w.sent cs ds,
          All-append (λ (c : Call). ok c ≡ true) cs ds ok_h ok_k,
        );
        new_lines = (
          ls ++ ms,
          logged_k ∙ ap (λ (l : List Bytes). l ++ ms) logged_h ∙ append_assoc w.logged ls ms,
        );
      }

  module _ {ℓ} {A : Type ℓ} where
    -- A command that is known to end in one world.
    pub Stays-done : (a b : A) (w u v : World) → done a u ≡ done b v → Stays ok w u → Stays ok w v
    Stays-done a b w u v e =
        subst (Stays ok w) (ap (λ (r : Run A). elim r [ done _ x ↦ x | fault ↦ u ]) e)

    pub Keeps-pure : (a : A) → Keeps ok (pure a)
    unfolding Keeps
    Keeps-pure a w v b e = Stays-done a b w w v e (Stays-files w w.files)

    pub Keeps-OnlyFiles : (m : Cmd A) → OnlyFiles m → Keeps ok m
    unfolding Keeps OnlyFiles
    Keeps-OnlyFiles m h w v a e = elim (h w) [
      | inl fails ↦ absurd (ground (arith, fails, e))
      | inr (b, fs, ends) ↦
          Stays-done b a w (record w { files = fs }) v (sym ends ∙ e) (Stays-files w fs)
    ]

    pub Keeps->>= {κ} :
        {B : Type κ} (m : Cmd A) (f : A → Cmd B)
        → Keeps ok m
        → ((a : A) → Keeps ok (f a))
        → Keeps ok (m >>= f)
    unfolding Keeps
    Keeps->>= m f h k w v b e = elim (Run-cases (m w)) [
      | inl fails ↦ absurd (ground (arith, (rw (fails, ◌>>=◌) at e)))
      | inr (a, u, ends) ↦ Stays-trans w u v (h w u a ends) (k a u v b (rw (ends, ◌>>=◌) at e))
    ]

    pub Keeps-if :
        (b : Bool) (m n : Cmd A) → Keeps ok m → Keeps ok n → Keeps ok (if b then m else n)
    Keeps-if true m n h k = h
    Keeps-if false m n h k = k

  pub Keeps-logstring : (s : Bytes) → Keeps ok (logstring s)
  unfolding Keeps logstring
  Keeps-logstring s w v a e = elim (Bool-cases (ltb (length s + 1) max_line_len)) [
    | inl fits ↦
        let u = record w { logged = w.logged ++ (s ++ newline ∷ []) ∷ [] } in
        Stays-done tt a w u v (rw fits at e) (record {
          config_same = refl;
          sublist_same = refl;
          new_calls = ([], sym (append-nil w.sent), tt);
          new_lines = ((s ++ newline ∷ []) ∷ [], refl);
        })
    | inr long ↦ absurd (ground (arith, (rw long at e)))
  ]

  pub Keeps-call : (peers : Peers) (c : Call) → ok c ≡ true → Keeps ok (call peers c)
  unfolding Keeps call
  Keeps-call peers c passes w v a e =
      Stays-done (peers w.sent c) a w (record w { sent = w.sent ++ c ∷ [] }) v e
        (record {
          config_same = refl;
          sublist_same = refl;
          new_calls = (c ∷ [], refl, (passes, tt));
          new_lines = ([], sym (append-nil w.logged));
        })

  -- A directory goes at most.
  Keeps-rmdir : (d : Bytes) → Keeps ok (rmdir d)
  unfolding Keeps rmdir
  Keeps-rmdir d w v a e = elim (rmdir-cases d w) [
    | inl h ↦ Stays-done true a w w v (sym h ∙ e) (Stays-files w w.files)
    | inr (ds, h) ↦ Stays-done false a w (record w { dirs = ds }) v (sym h ∙ e) (Stays-dirs w ds)
  ]

  pub Keeps-remove_path : (p : Bytes) → Keeps ok (remove_path p)
  unfolding Keeps remove_path
  Keeps-remove_path p w v a e = by_name (locate p).name refl
    where
      by_name : (n : Bytes) → (locate p).name ≡ n → Stays ok w v
      by_name [] q = Keeps-rmdir (locate p).dir w v a (rw (q, remove_path) at e)
      by_name (c ∷ n) q =
          Keeps-OnlyFiles (remove p) (OnlyFiles-remove p) w v a (rw (q, remove_path) at e)
