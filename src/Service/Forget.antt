-- ===== src/Service/Forget.antt =====
-- What a sub cache forgets on a day of src/service.cc.
use finger_move.Autoconf.Config.{Config}
use finger_move.Base.{
  All, All-remap, List, [], ap, arith, false, if_pos, if◌then◌else◌, map, map-append, none, refl,
  sym, true, ℤ, ◌++◌, ◌∙◌, ◌∷◌, ◌≡◌, ◌≢◌,
}
use finger_move.Clib.{Bytes, Bytes-discrete}
use finger_move.Client.Handover.{group_calls}
use finger_move.Client.Sync.{del_call}
use finger_move.Prodeal.Move.Chosen.{Chosen}
use finger_move.Prodeal.Move.Clear.{mentions}
use finger_move.Prodeal.Move.Listing.{names_of}
use finger_move.Prodeal.Steps.{CProDeal}
use finger_move.Rpc.{Peers, Reply, Request, delafps}
use finger_move.Server.Cache.{CanServe, Table, cache_answers, cache_steps, serve-cache_steps, table}
use finger_move.Server.Dispatch.{sc_server, serve}
use finger_move.Service.Receipt.{
  all_files, conf_of, requests_to, requests_to-append, requests_to-none, same-differ,
}
use finger_move.Service.Shares.{Visit, accepted, day_calls, refused}
use finger_move.World.{World, done}
use finger_move.World.Effects.{Fits, IsPlain}
use finger_move.World.Files.{FilePath, FileTable, lookup, path}

abbrev deletes : Chosen → List Request
deletes = map (λ e. delafps (record { name = e.0 }))

abbrev move_of : Visit → List Bytes
move_of (accepted g) = g.move_addr ∷ []
move_of (refused conf move) = []

-- Neither of a group's addresses.
abbrev pub OtherAddrs : Bytes → Visit → Type 0
OtherAddrs a v = (conf_of v ≢ a) × All (λ m. m ≢ a) (move_of v)

module _ (a : Bytes) (ss more : List Bytes) (before_it : All (λ s. s ≢ a) ss)
    (behind_it : All (λ s. s ≢ a) more) where
  abbrev subs : List Bytes
  subs = ss ++ a ∷ more

  told_once :
      (n : Bytes) → requests_to a (map (del_call n) subs) ≡ delafps (record { name = n }) ∷ []
  unfolding requests_to
  told_once n =
      ap (requests_to a) (map-append (del_call n) ss (a ∷ more))
      ∙ requests_to-append a (map (del_call n) ss) (map (del_call n) (a ∷ more))
      ∙ rw (
        requests_to-none a n ss before_it,
        if_pos (Bytes-discrete a a) refl true false,
        requests_to-none a n more behind_it,
      )

  group_calls-deletes :
      (b : Bytes) (fs : Chosen) → b ≢ a → requests_to a (group_calls b subs fs) ≡ deletes fs
  unfolding requests_to
  group_calls-deletes b [] h = refl
  group_calls-deletes b (e ∷ fs) h =
      rw (same-differ b a h, requests_to)
        (requests_to-append a (map (del_call e.0) subs) (group_calls b subs fs)
          ∙ rw (told_once e.0, group_calls-deletes b fs h))

  day_calls-deletes :
      (thr : ℤ) (vs : List Visit)
      → All (OtherAddrs a) vs
      → requests_to a (day_calls thr subs vs) ≡ deletes (all_files vs)
  unfolding requests_to
  day_calls-deletes thr [] h = refl
  day_calls-deletes thr (refused conf move ∷ vs) h =
      rw (same-differ conf a h.0.0, requests_to) (day_calls-deletes thr vs h.1)
  day_calls-deletes thr (accepted g ∷ vs) h =
      rw (same-differ g.conf_addr a h.0.0, requests_to)
        (requests_to-append a (group_calls g.move_addr subs g.files) (day_calls thr subs vs)
          ∙ rw (group_calls-deletes g.move_addr g.files h.0.1.0, day_calls-deletes thr vs h.1)
              (sym (map-append (λ e. delafps (record { name = e.0 })) g.files (all_files vs))))

-- A file that a sub cache can delete, if it is there.
abbrev pub CanForget : World → Bytes × Bytes → Type 0
CanForget u e =
    IsPlain e.0
    × (e.0 ≢ [])
    × Fits u.config.afp_dir e.0
    × (u.locked (path u.config.afp_dir e.0) ≡ false)

cache_steps-deletes :
    (c : Config) (fs : Chosen) (t : Table) (q : FilePath)
    → cache_steps c (deletes fs) t q ≡ (if mentions c.afp_dir (names_of fs) q then none else t q)
unfolding mentions
cache_steps-deletes c [] t q = refl
cache_steps-deletes c (e ∷ fs) t q = cache_steps-deletes c fs _ q ∙ ground arith

-- A sub cache that stands once in the list of the main cache and gets the calls of a day, those to
-- its address in their order, has no file in AFP_DIR any more of all that the groups got, and
-- every other path holds what it held. No group has its address, the names are not empty, have no
-- slash and no NUL and fit the buffer with the directory, and the files are not locked.
pub serve-day_calls_deletes :
    (peers : Peers) (steps : CProDeal) (url : Bytes) (thr : ℤ) (ss more : List Bytes)
    (vs : List Visit) (a : Bytes) (u : World)
    → All (λ s. s ≢ a) ss
    → All (λ s. s ≢ a) more
    → All (OtherAddrs a) vs
    → All (CanForget u) (all_files vs)
    → (as' : List Reply) × (ts : FileTable) × (serve peers steps url sc_server
          (requests_to a (day_calls thr (ss ++ a ∷ more) vs))
          u
        ≡ done as' (record u { files = ts }))
      × ((q : FilePath)
          → lookup q ts ≡ (
              if mentions u.config.afp_dir (names_of (all_files vs)) q
              then none
              else lookup q u.files))
serve-day_calls_deletes peers steps url thr ss more vs a u before_it behind_it others can =
    let (ts, ran, left) = serve-cache_steps peers steps url (deletes (all_files vs)) u (
      All-remap (CanServe u) (λ (e : Bytes × Bytes). delafps (record { name = e.0 })) (all_files vs)
        can) in
    (
      cache_answers u.config (deletes (all_files vs)) (table u.files),
      ts,
      rw (day_calls-deletes a ss more before_it behind_it thr vs others) ran,
      λ q.
          ap (λ (t : Table). t q) left
          ∙ cache_steps-deletes u.config (all_files vs) (table u.files) q,
    )
