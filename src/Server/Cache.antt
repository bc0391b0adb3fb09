-- ===== src/Server/Cache.antt =====
-- A sub cache of src/server.cc as a table from paths to what they hold.
use finger_move.Autoconf.Config.{Config}
use finger_move.Base.{
  All, List, Option, Option-cases, [], ap, false, if_neg, if_pos, if◌then◌else◌, inl, inr, none,
  refl, some, sym, true, ◌∙◌, ◌∷◌, ◌≡◌, ◌≢◌,
}
use finger_move.Clib.{Bytes, after}
use finger_move.Prodeal.Steps.{CProDeal}
use finger_move.Rpc.{
  AfpDelName, FingerValue, Peers, Reply, Request, Status, addafps, afpmove, cancelled, delafps,
  preconf, status_ok,
}
use finger_move.Server.{value_bytes}
use finger_move.Server.Delete.{sc_delafps-not, sc_delafps-there}
use finger_move.Server.Dispatch.{answer, reply, sc_server, serve}
use finger_move.Server.Store.{lookup-stored, sc_addafps-run}
use finger_move.World.{World, done, writable, ◌>>=◌}
use finger_move.World.Effects.{Fits, IsPlain}
use finger_move.World.Files.{
  FilePath, FilePath-discrete, FileTable, erase, lookup, lookup-erase, path, put, same_path,
}

abbrev pub Table : Type 0
Table = FilePath → Option Bytes

abbrev pub table : FileTable → Table
table fs q = lookup q fs

-- What a request does to the table, and how it is answered.
abbrev pub cache_step : Config → Request → Table → Table
cache_step c (addafps v) t q =
    if same_path (path c.dst_dir v.name) q then value_bytes v.val v.len else t q
cache_step c (delafps v) t q = if same_path (path c.afp_dir v.name) q then none else t q
cache_step c _ t q = t q

abbrev pub cache_answer : Config → Request → Table → Status
cache_answer c (addafps v) t = status_ok
cache_answer c (delafps v) t = elim (t (path c.afp_dir v.name)) [
  | none ↦ cancelled
  | some _ ↦ status_ok
]
cache_answer c _ t = cancelled

abbrev pub cache_steps : Config → List Request → Table → Table
cache_steps c [] t = t
cache_steps c (r ∷ rs) t = cache_steps c rs (cache_step c r t)

abbrev pub cache_answers : Config → List Request → Table → List Reply
cache_answers c [] t = []
cache_answers c (r ∷ rs) t = reply (cache_answer c r t) ∷ cache_answers c rs (cache_step c r t)

-- A request that nothing stands in the way of: the file to add can be written and its length can
-- be read, the file to delete, if there is one, is not locked.
abbrev pub CanServe : World → Request → Type 0
CanServe w (addafps v) =
    IsPlain v.name
    × Fits w.config.dst_dir v.name
    × (writable (path w.config.dst_dir v.name) w ≡ true)
    × ((s : Bytes) × (value_bytes v.val v.len ≡ some s))
CanServe w (delafps v) =
    IsPlain v.name
    × (v.name ≢ [])
    × Fits w.config.afp_dir v.name
    × (w.locked (path w.config.afp_dir v.name) ≡ false)
CanServe w _ = Unit

CanServe-files :
    (w : World) (fs : FileTable) (rs : List Request)
    → All (CanServe w) rs
    → All (CanServe (record w { files = fs })) rs
CanServe-files w fs [] h = tt
CanServe-files w fs (afpmove v ∷ rs) h = (tt, CanServe-files w fs rs h.1)
CanServe-files w fs (preconf v ∷ rs) h = (tt, CanServe-files w fs rs h.1)
CanServe-files w fs (delafps v ∷ rs) h = (h.0, CanServe-files w fs rs h.1)
CanServe-files w fs (addafps v ∷ rs) h = (h.0, CanServe-files w fs rs h.1)

-- To take away what is not there changes nothing.
lookup-gone :
    (p q : FilePath) (fs : FileTable)
    → lookup p fs ≡ none
    → lookup q fs ≡ (if same_path p q then none else lookup q fs)
lookup-gone p q fs h = elim (FilePath-discrete p q) [
  | yes x ↦
      rw (if_pos (FilePath-discrete p q) x true false)
        (ap (λ (y : FilePath). lookup y fs) (sym x) ∙ h)
  | no x ↦ rw (if_neg (FilePath-discrete p q) x true false)
]

module _ (peers : Peers) (steps : CProDeal) (url : Bytes) where
  -- What one request leaves.
  abbrev Served : Request → World → Type 0
  Served r w =
      (fs : FileTable) × (answer peers steps url sc_server r w
        ≡ done (reply (cache_answer w.config r (table w.files))) (record w { files = fs }))
      × (table fs ≡ cache_step w.config r (table w.files))

  answer-addafps : (v : FingerValue) (w : World) → CanServe w (addafps v) → Served (addafps v) w
  unfolding answer
  answer-addafps v w (plain, fits, free, (s, reads)) =
      let gs =
        put (path w.config.dst_dir v.name) s (put (path w.config.dst_dir v.name) [] w.files) in
      let left : (q : FilePath) → lookup q gs ≡ cache_step w.config (addafps v) (table w.files) q =
        (λ q. rw reads (lookup-stored v.name s w plain w.config.dst_dir q)) in
      (gs, rw (sc_addafps-run v.name s w plain v.val v.len reads fits free, ◌>>=◌), λ i q. left q i)

  answer-delafps : (v : AfpDelName) (w : World) → CanServe w (delafps v) → Served (delafps v) w
  unfolding answer
  answer-delafps v w (plain, named, fits, loose) =
      let p = path w.config.afp_dir v.name in
      elim (Option-cases (lookup p w.files)) [
        | inl gone ↦ (
          w.files,
          rw (sc_delafps-not v.name w plain fits named (inr gone), ◌>>=◌) (rw (gone, cache_answer)),
          λ i q. lookup-gone p q w.files gone i,
        )
        | inr (s, there) ↦ (
          erase p w.files,
          rw (sc_delafps-there v.name w plain fits named s loose there, ◌>>=◌)
              (rw (there, cache_answer)),
          λ i q. lookup-erase p q w.files i,
        )
      ]

  answer-Served : (r : Request) (w : World) → CanServe w r → Served r w
  unfolding answer
  answer-Served (afpmove v) w h = (w.files, refl, refl)
  answer-Served (preconf v) w h = (w.files, refl, refl)
  answer-Served (delafps v) w h = answer-delafps v w h
  answer-Served (addafps v) w h = answer-addafps v w h

  -- A sub cache, over any sequence of requests that nothing stands in the way of, answers and ends
  -- up as a table from paths to what they hold says: an addition puts the bytes under the name in
  -- DST_DIR and is answered OK, a deletion takes away what is under the name in AFP_DIR and is
  -- answered OK if there was something and CANCELLED if not, and requests of other services change
  -- nothing and are answered CANCELLED. The names have no slash and no NUL and fit the buffer with
  -- their directory; a file to add can be written and its length can be read; a name to delete is
  -- not empty, and its path is not locked.
  pub serve-cache_steps :
      (rs : List Request) (w : World)
      → All (CanServe w) rs
      → (fs : FileTable) × (serve peers steps url sc_server rs w
          ≡ done (cache_answers w.config rs (table w.files)) (record w { files = fs }))
        × (table fs ≡ cache_steps w.config rs (table w.files))
  unfolding serve
  serve-cache_steps [] w h = (w.files, refl, refl)
  serve-cache_steps (r ∷ rs) w h =
      let (fs, ran, after) = answer-Served r w h.0 in
      let (gs, rest, rest_left) =
        serve-cache_steps rs (record w { files = fs }) (CanServe-files w fs rs h.1) in
      (
        gs,
        rw (ran, serve)
            (rw (rest, serve)
              (ap
                (λ (t : Table).
                  done
                    (reply (cache_answer w.config r (table w.files)) ∷ cache_answers w.config rs t)
                    (record w { files = gs }))
                after)),
        rest_left ∙ ap (cache_steps w.config rs) after,
      )
