-- ===== src/Service/Shares.antt =====
-- The groups in the loop of src/service.cc, and their parts of the chosen files.
use finger_move.Base.{
  All, List, Option, Ordered, [], drop, false, length, pos, some, take, true, ℕ, ℤ, ◌++◌, ◌+◌, ◌<◌,
  ◌∷◌, ◌≡◌, ◌≢◌,
}
use finger_move.Clib.{Bytes, elem, has_byte, max_line_len, strtok}
use finger_move.Clib.Laws.Lines.{IsText, written}
use finger_move.Client.{colon}
use finger_move.Client.Handover.{group_calls}
use finger_move.Prodeal.Move.Chosen.{Chosen, DistinctNames}
use finger_move.Prodeal.Move.Clear.{CanClear}
use finger_move.Prodeal.Move.Delivery.{delivered}
use finger_move.Prodeal.Move.Listing.{names_of}
use finger_move.Prodeal.Move.Rename.{CanMove}
use finger_move.Prodeal.Names.{bot_afps_file}
use finger_move.Rpc.{Call, Peers, cancelled, status_ok}
use finger_move.Service.Groups.{conf_call}
use finger_move.Service.Parts.{CanTell}
use finger_move.World.{World}
use finger_move.World.Effects.{Holds}
use finger_move.World.Files.{FilePath, names_in}

-- A group of the list, with what its answer makes of the chosen files.
pub record Group : Type 0 where
  pub conf_addr : Bytes
  pub move_addr : Bytes
  pub host : Bytes
  pub more : Bytes
  pub files : Chosen

-- A group as the loop comes to it.
pub data Visit : Type 0 where
  accepted : Group → Visit
  refused : (conf_addr move_addr : Bytes) → Visit

abbrev pub part : Visit → Chosen
part (accepted g) = g.files
part (refused conf move) = []

-- The group list, as it is read.
abbrev pub tokens : List Visit → List Bytes
tokens [] = []
tokens (accepted g ∷ vs) = g.conf_addr ∷ g.move_addr ∷ tokens vs
tokens (refused conf move ∷ vs) = conf ∷ move ∷ tokens vs

-- The parts follow one another in the list of the chosen files.
abbrev pub FollowOn : ℕ → List Bytes → List Visit → Type 0
FollowOn start listed [] = Unit
FollowOn start listed (v ∷ vs) =
    (names_of (part v) ≡ take (length (part v)) (drop start listed))
    × FollowOn (start + length (part v)) listed vs

-- No name stands in the parts of two groups.
abbrev pub DisjointParts : List Visit → Type 0
DisjointParts =
    Ordered (λ v v'.
      All (λ (f : Bytes × Bytes). All (λ (e : Bytes × Bytes). e.0 ≢ f.0) (part v)) (part v'))

-- The number of files that the groups get, the calls that go out, and what a path holds after.
abbrev pub total : List Visit → ℕ
total [] = 0
total (v ∷ vs) = length (part v) + total vs

abbrev pub day_calls : ℤ → List Bytes → List Visit → List Call
day_calls thr subs [] = []
day_calls thr subs (accepted g ∷ vs) =
    (conf_call g.conf_addr thr ∷ group_calls g.move_addr subs g.files) ++ day_calls thr subs vs
day_calls thr subs (refused conf move ∷ vs) = conf_call conf thr ∷ day_calls thr subs vs

abbrev pub day_files : Bytes → Bytes → List Visit → FilePath → Option Bytes → Option Bytes
day_files afp org [] q old = old
day_files afp org (accepted g ∷ vs) q old = day_files afp org vs q (delivered afp org g.files q old)
day_files afp org (refused conf move ∷ vs) q old = day_files afp org vs q old

-- A word that fits its buffer, without a NUL.
abbrev pub IsAddr : Bytes → Type 0
IsAddr a = (has_byte 0 a ≡ false) × (length a < max_line_len)

-- A group that accepts its part, which can be moved and sent.
pub record CanGive (peers : Peers) (thr : ℤ) (afp org : Bytes) (w : World) (g : Group)
    : Type 0 where
  pub conf_word : IsAddr g.conf_addr
  pub move_word : IsAddr g.move_addr
  pub accepts :
      (past : List Call)
      → peers past (conf_call g.conf_addr thr)
        ≡ record { status = status_ok; len = pos (length g.files) }
  pub host_is : strtok colon g.move_addr ≡ some (g.host, g.more)
  pub tell : All (CanTell g.host w) g.files
  pub can : All (CanMove afp org w) g.files
  pub distinct : DistinctNames g.files

-- What a group answers, and if it accepts, what it takes for it to get its part.
abbrev pub CanVisit : Peers → ℤ → Bytes → Bytes → World → Visit → Type 0
CanVisit peers thr afp org w (accepted g) = CanGive peers thr afp org w g
CanVisit peers thr afp org w (refused conf move) =
    IsAddr conf
    × IsAddr move
    × ((past : List Call) → (peers past (conf_call conf thr)).status ≡ cancelled)

-- The directories, and the list of the chosen files.
pub record HasList (afp org wrk : Bytes) (listed : List Bytes) (w : World) : Type 0 where
  pub dir : elem org w.dirs ≡ true
  pub clear : All (CanClear org w) (names_in org w.files)
  pub org_afp : org ≢ afp
  pub org_wrk : org ≢ wrk
  pub afp_wrk : afp ≢ wrk
  pub holds : Holds wrk bot_afps_file (written listed) w
  pub texts : All IsText listed
