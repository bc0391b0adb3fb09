-- ===== src/Service/Receipt.antt =====
-- What the groups and the sub caches get of a day of src/service.cc.
use finger_move.Base.{
  All, All-imp, Bool-cases, List, Option, [], ap, false, if_neg, if_pos, if◌then◌else◌, inl, inr,
  length, map, map-append, pos, refl, some, sym, true, ℤ, ◌++◌, ◌∙◌, ◌∷◌, ◌≡◌, ◌≢◌,
}
use finger_move.Clib.{Bytes, Bytes-discrete, same}
use finger_move.Client.Handover.{group_calls, whole}
use finger_move.Client.Sync.{del_call}
use finger_move.Prodeal.Move.Chosen.{Chosen}
use finger_move.Prodeal.Steps.{CProDeal}
use finger_move.Rpc.{Call, Peers, Request, afpmove, status_ok}
use finger_move.Server.Dispatch.{answer, gm_server, reply, serve}
use finger_move.Server.Store.{gm_afpmove-run, lookup-stored, stored, value_bytes-whole}
use finger_move.Service.Shares.{Visit, accepted, day_calls, part, refused}
use finger_move.World.{World, done, writable, ◌>>=◌}
use finger_move.World.Effects.{Fits, IsPlain}
use finger_move.World.Files.{FilePath, FileTable, lookup, path, same_path}

-- The requests that reach an address, in the order of the calls.
unfoldable pub requests_to : Bytes → List Call → List Request
requests_to a [] = []
requests_to a (c ∷ cs) =
    let rest = requests_to a cs in if same c.addr a then c.request ∷ rest else rest

-- The files of the parts that go to an address, and of all parts.
abbrev pub files_for : Bytes → List Visit → Chosen
files_for a [] = []
files_for a (accepted g ∷ vs) =
    let rest = files_for a vs in if same g.move_addr a then g.files ++ rest else rest
files_for a (refused conf move ∷ vs) = files_for a vs

abbrev pub all_files : List Visit → Chosen
all_files [] = []
all_files (v ∷ vs) = part v ++ all_files vs

abbrev pub conf_of : Visit → Bytes
conf_of (accepted g) = g.conf_addr
conf_of (refused conf move) = conf

pub same-differ : (a b : Bytes) → a ≢ b → same a b ≡ false
same-differ a b h = if_neg (Bytes-discrete a b) h true false

pub requests_to-append :
    (a : Bytes) (cs ds : List Call)
    → requests_to a (cs ++ ds) ≡ requests_to a cs ++ requests_to a ds
unfolding requests_to
requests_to-append a [] ds = refl
requests_to-append a (c ∷ cs) ds = elim (Bool-cases (same c.addr a)) [
  | inl e ↦
      rw (e, requests_to) (ap (λ (rs : List Request). c.request ∷ rs) (requests_to-append a cs ds))
  | inr e ↦ rw (e, requests_to) (requests_to-append a cs ds)
]

-- Calls to other addresses only.
pub requests_to-none :
    (a n : Bytes) (subs : List Bytes)
    → All (λ s. s ≢ a) subs
    → requests_to a (map (del_call n) subs) ≡ []
unfolding requests_to
requests_to-none a n [] h = refl
requests_to-none a n (s ∷ subs) h =
    rw (same-differ s a h.0, requests_to) (requests_to-none a n subs h.1)

abbrev pub file_requests : Chosen → List Request
file_requests = map (λ e. afpmove (whole e))

module _ (a : Bytes) (subs : List Bytes) (apart : All (λ s. s ≢ a) subs) where
  group_calls-own : (fs : Chosen) → requests_to a (group_calls a subs fs) ≡ file_requests fs
  unfolding requests_to
  group_calls-own [] = refl
  group_calls-own (e ∷ fs) =
      rw (if_pos (Bytes-discrete a a) refl true false, requests_to)
        (ap (λ (rs : List Request). afpmove (whole e) ∷ rs)
          (requests_to-append a (map (del_call e.0) subs) (group_calls a subs fs)
            ∙ rw (requests_to-none a e.0 subs apart) (group_calls-own fs)))

  group_calls-other : (b : Bytes) (fs : Chosen) → b ≢ a → requests_to a (group_calls b subs fs) ≡ []
  unfolding requests_to
  group_calls-other b [] h = refl
  group_calls-other b (e ∷ fs) h =
      rw (same-differ b a h, requests_to)
        (requests_to-append a (map (del_call e.0) subs) (group_calls b subs fs)
          ∙ rw (requests_to-none a e.0 subs apart) (group_calls-other b fs h))

  -- A group gets its parts, file by file.
  pub requests_to-day_calls :
      (thr : ℤ) (vs : List Visit)
      → All (λ v. conf_of v ≢ a) vs
      → requests_to a (day_calls thr subs vs) ≡ file_requests (files_for a vs)
  unfolding requests_to
  requests_to-day_calls thr [] h = refl
  requests_to-day_calls thr (refused conf move ∷ vs) h =
      rw (same-differ conf a h.0, requests_to) (requests_to-day_calls thr vs h.1)
  requests_to-day_calls thr (accepted g ∷ vs) h =
      rw (same-differ g.conf_addr a h.0, requests_to)
        (requests_to-append a (group_calls g.move_addr subs g.files) (day_calls thr subs vs)
          ∙ elim (Bytes-discrete g.move_addr a) [
            | yes e ↦ rw (if_pos (Bytes-discrete g.move_addr a) e true false) (
                rw (e, group_calls-own g.files, requests_to-day_calls thr vs h.1)
                  (sym (map-append (λ x. afpmove (whole x)) g.files (files_for a vs))))
            | no e ↦
                rw (if_neg (Bytes-discrete g.move_addr a) e true false)
                  (rw (group_calls-other g.move_addr g.files e) (requests_to-day_calls thr vs h.1))
          ])

-- What a path holds when the files are stored, one after the other.
unfoldable pub put_all : Bytes → Chosen → FilePath → Option Bytes → Option Bytes
put_all dst [] q old = old
put_all dst (e ∷ fs) q old = put_all dst fs q (if same_path (path dst e.0) q then some e.1 else old)

-- A file that a group can store.
abbrev pub CanReceive : World → Bytes × Bytes → Type 0
CanReceive u e =
    IsPlain e.0 × Fits u.config.dst_dir e.0 × (writable (path u.config.dst_dir e.0) u ≡ true)

module _ (peers : Peers) (steps : CProDeal) (url : Bytes) where
  serve-file_requests :
      (fs : Chosen) (u : World)
      → All (CanReceive u) fs
      → (ts : FileTable) × (serve peers steps url gm_server (file_requests fs) u
          ≡ done (map (λ e. reply status_ok) fs) (record u { files = ts }))
        × ((q : FilePath) → lookup q ts ≡ put_all u.config.dst_dir fs q (lookup q u.files))
  unfolding serve answer put_all
  serve-file_requests [] u h = (u.files, refl, λ q. refl)
  serve-file_requests ((n, s) ∷ fs) u h =
      let (plain, fits, free) = h.0 in
      let v = stored n s u plain u.config.dst_dir in
      let (ts, ran, left) = serve-file_requests fs v (All-imp (λ e x. (x.0, x.1, x.2)) fs h.1) in
      (
        ts,
        rw
            (
              gm_afpmove-run n s u plain s (pos (length s)) (value_bytes-whole s) fits free,
              serve,
              ◌>>=◌,
            )
            (rw (ran, serve)),
        λ q.
            left q
            ∙ ap (put_all u.config.dst_dir fs q) (lookup-stored n s u plain u.config.dst_dir q),
      )

  -- A group server that gets the calls of a day of the main cache, those to its address in their
  -- order, answers OK to each and stores the files of its parts under their names in DST_DIR, each
  -- whole and in order; every other path holds what it held. No sub cache has that address, no
  -- group is asked at it, the names have no slash and no NUL and fit the buffer with the
  -- directory, and the files can be opened to write.
  pub serve-day_calls :
      (thr : ℤ) (subs : List Bytes) (vs : List Visit) (a : Bytes) (u : World)
      → All (λ s. s ≢ a) subs
      → All (λ v. conf_of v ≢ a) vs
      → All (CanReceive u) (files_for a vs)
      → (ts : FileTable) × (serve peers steps url gm_server
            (requests_to a (day_calls thr subs vs))
            u
          ≡ done (map (λ e. reply status_ok) (files_for a vs)) (record u { files = ts }))
        × ((q : FilePath)
            → lookup q ts ≡ put_all u.config.dst_dir (files_for a vs) q (lookup q u.files))
  serve-day_calls thr subs vs a u apart confs can =
      rw (requests_to-day_calls a subs apart thr vs confs)
        (serve-file_requests (files_for a vs) u can)
