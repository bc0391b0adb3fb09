-- ===== src/Service/Start.antt =====
-- `main` of src/service.cc: the role, the configuration and the sub caches.
use finger_move.Autoconf.Config.{Config}
use finger_move.Autoconf.Inspect.{conf_name, start_inspect, words}
use finger_move.Autoconf.Reload.{FitPair, Pairs, assign_all, load-pair_words, pair_words}
use finger_move.Base.{
  All, Bool, List, Option, [], ap, arith, false, map, none, refl, some, ℕ, ◌++◌, ◌==◌, ◌||◌, ◌∷◌,
  ◌≡◌,
}
use finger_move.Clib.{Bytes, drop_last, newline}
use finger_move.Clib.Laws.Lines.{IsText, drop_last-append, lines-written, terminated, written}
use finger_move.Server.Dispatch.{Handlers, gc_server, gm_server, mc_server, sc_server}
use finger_move.Service.{
  Role, Thread, choose, group, main, main_cache, read_sublist, run_server, start_server, sub_cache,
}
use finger_move.World.{World, done, fopen_rb, ◌>>=◌}

-- The letter of a role, and any other.
abbrev pub letter : Role → ℕ
letter group = b'g'
letter main_cache = b'm'
letter sub_cache = b's'

abbrev pub is_letter : ℕ → Bool
is_letter o = (o == b'g') || (o == b'm') || (o == b's')

choose-unknown : (us : List ℕ) (r : Role) → All (λ o. is_letter o ≡ false) us → choose us r ≡ r
unfolding choose
choose-unknown [] r h = refl
choose-unknown (o ∷ us) r h =
    let none_of : (o == b'g' ≡ false) × (o == b'm' ≡ false) × (o == b's' ≡ false) =
      (ground (arith, h.0), ground (arith, h.0), ground (arith, h.0)) in
    rw (none_of.0, choose)
      (rw (none_of.1, choose) (rw (none_of.2, choose) (choose-unknown us r h.1)))

choose-last :
    (os us : List ℕ) (r q : Role)
    → All (λ o. is_letter o ≡ false) us
    → choose (os ++ letter r ∷ us) q ≡ r
unfolding choose
choose-last [] us group q h = choose-unknown us group h
choose-last [] us main_cache q h = choose-unknown us main_cache h
choose-last [] us sub_cache q h = choose-unknown us sub_cache h
choose-last (o ∷ os) us r q h = choose-last os us r _ h

read_sublist-terminated : (as' : List Bytes) → read_sublist (map terminated as') ≡ some as'
unfolding read_sublist
read_sublist-terminated [] = refl
read_sublist-terminated ([] ∷ as') = rw (read_sublist-terminated as', read_sublist, drop_last)
read_sublist-terminated ((c ∷ s) ∷ as') =
    rw (read_sublist-terminated as', read_sublist)
      (ap (λ (t : Bytes). some (t ∷ as')) (drop_last-append (c ∷ s) newline))

-- What the threads of a role serve, and where; none is the loop of the main cache.
abbrev pub servers_of : Role → Config → List (Option (Handlers × Bytes))
servers_of group c = some (gm_server, c.ser_move_addr) ∷ some (gc_server, c.ser_conf_addr) ∷ []
servers_of main_cache c = none ∷ some (mc_server, c.ser_move_addr) ∷ []
servers_of sub_cache c = some (sc_server, c.ser_sync_addr) ∷ []

start_server-servers_of :
    (r : Role) (c : Config) → map (λ t. run_server t c) (start_server r) ≡ servers_of r c
unfolding start_server run_server
start_server-servers_of group c = refl
start_server-servers_of main_cache c = refl
start_server-servers_of sub_cache c = refl

-- main starts the threads of the role whose letter is the last of the known ones among its
-- options: for the group a server with the handlers of GMServer at SER_MOVE_ADDR and one with
-- those of GCServer at SER_CONF_ADDR, for the main cache its loop and a server with the handlers
-- of McServer at SER_MOVE_ADDR, for a sub cache a server with the handlers of ScServer at
-- SER_SYNC_ADDR. The configuration is what the pairs of the file make of the one before, and the
-- sub caches are those that the lines of the list name, in order, behind those that there are. One
-- of the options is the letter of a role, the file can be opened and has complete pairs that fit
-- the buffers, the list that it names can be opened, and its lines fit theirs and have no NUL.
pub main-starts :
    (value s : Bytes) (os us : List ℕ) (r : Role) (ps : Pairs) (addrs : List Bytes) (w : World)
    → fopen_rb conf_name w ≡ done (some s) w
    → words s ≡ pair_words ps
    → All FitPair ps
    → let c = assign_all ps w.config in
      fopen_rb c.sub_list (record w { config = c })
        ≡ done (some (written addrs)) (record w { config = c })
      → All IsText addrs
      → All (λ o. is_letter o ≡ false) us
      → (ts : List Thread) × (main value (os ++ letter r ∷ us) w
          ≡ done (some ts) (record w { config = c; sublist = w.sublist ++ addrs }))
        × (map (λ t. run_server t c) ts ≡ servers_of r c)
unfolding main start_inspect
main-starts value s os us r ps addrs w conf_opens split fit list_opens good_addrs unknown = (
  start_server r,
  rw (conf_opens, ◌>>=◌)
      (rw (split, load-pair_words ps value w.config fit, ◌>>=◌)
        (rw (list_opens, ◌>>=◌)
          (rw (lines-written addrs good_addrs)
            (rw (read_sublist-terminated addrs, ◌>>=◌) (rw (choose-last os us r group unknown)))))),
  start_server-servers_of r (assign_all ps w.config),
)
