-- ===== src/Autoconf/Rounds.antt =====
-- The rounds of `Inspect::routing_fn`.
use finger_move.Autoconf.Config.{Config}
use finger_move.Autoconf.Inspect.{
  Poll, close, close_inspect, control, new_inspect, routing_fn, words,
}
use finger_move.Autoconf.Reload.{
  FitPair, Pairs, assign_all, assign_all_twice, last_value, last_value_twice, load-pair_words,
  pair_words,
}
use finger_move.Base.{
  All, Bool, List, Option, [], ap, ap₂, false, if◌then◌else◌, inl, inr, none, refl, some, subst,
  sym, true, ◌++◌, ◌∙◌, ◌∷◌, ◌≡◌, ◌⊎◌,
}
use finger_move.Clib.{Bytes}

-- A round that no other thread interferes with.
abbrev pub quiet : Option Bytes → Poll
quiet conf = record { calls = []; conf = conf }

-- In such a round the file cannot be opened, or it holds these pairs.
abbrev pub Sees : Pairs → Poll → Type 0
Sees ps p = (p ≡ quiet none) ⊎ ((s : Bytes) × (p ≡ quiet (some s)) × (words s ≡ pair_words ps))

-- The file is opened in some round.
pub opened : List Poll → Bool
opened [] = false
opened (p ∷ polls) = elim p.conf [ none ↦ opened polls | some s ↦ true ]

-- The configuration and the buffer after the file was read, or not.
abbrev pub settled : Bool → Pairs → Config × Bytes → Config × Bytes
settled read_it ps (c, old) = if read_it then (assign_all ps c, last_value old ps) else (c, old)

settled_twice :
    (b : Bool) (ps : Pairs) (r : Config × Bytes)
    → settled b ps (settled true ps r) ≡ settled true ps r
settled_twice true ps (c, old) =
    ap₂ (λ (d : Config) (v : Bytes). (d, v)) (assign_all_twice ps c) (last_value_twice ps old)
settled_twice false ps r = refl

-- The round that sees the flag.
abbrev pub closing : Option Bytes → Poll
closing conf = record { calls = close ∷ []; conf = conf }

module _ (ps : Pairs) (fits : All FitPair ps) (conf : Option Bytes) (more : List Poll) where
  abbrev thread : List Poll → Config × Bytes → Option (Config × Bytes)
  thread polls (c, old) = routing_fn new_inspect old (polls ++ closing conf ∷ more) c

  thread-none :
      (polls : List Poll) (r : Config × Bytes) → thread (quiet none ∷ polls) r ≡ thread polls r
  unfolding routing_fn control
  thread-none polls r = refl

  thread-some :
      (s : Bytes) (polls : List Poll) (r : Config × Bytes)
      → words s ≡ pair_words ps
      → thread (quiet (some s) ∷ polls) r ≡ thread polls (settled true ps r)
  unfolding routing_fn control
  thread-some s polls (c, old) pairs = rw pairs (rw (load-pair_words ps old c fits))

  thread-settled :
      (polls : List Poll) (r : Config × Bytes)
      → All (Sees ps) polls
      → thread polls r ≡ some (settled (opened polls) ps r)
  unfolding opened
  thread-settled [] r h = unfold routing_fn control close_inspect in refl
  thread-settled (p ∷ polls) r (inl e, h) =
      subst (λ (x : Poll). thread (x ∷ polls) r ≡ some (settled (opened (x ∷ polls)) ps r)) (sym e)
        (thread-none polls r ∙ thread-settled polls r h)
  thread-settled (p ∷ polls) r (inr (s, e, pairs), h) =
      subst (λ (x : Poll). thread (x ∷ polls) r ≡ some (settled (opened (x ∷ polls)) ps r)) (sym e)
        (thread-some s polls r pairs
          ∙ thread-settled polls (settled true ps r) h
          ∙ ap some (settled_twice (opened polls) ps r))

-- Over rounds in which the file cannot be opened or holds the same complete pairs, which fit the
-- buffers, the thread ends up with what a single reading makes of the configuration if the file
-- was opened in one of them, and with the old one otherwise. At the first round after a call of
-- `closeInspect` it ends, whatever would come later.
pub routing_fn-settled :
    (ps : Pairs) (polls : List Poll) (conf : Option Bytes) (more : List Poll) (old : Bytes)
    (c : Config)
    → All FitPair ps
    → All (Sees ps) polls
    → routing_fn new_inspect old (polls ++ closing conf ∷ more) c
      ≡ some (if opened polls then (assign_all ps c, last_value old ps) else (c, old))
routing_fn-settled ps polls conf more old c fits h =
    thread-settled ps fits conf more polls (c, old) h
