-- ===== src/Autoconf/Reload.antt =====
-- Reading the configuration file again, as `Inspect::routing_fn` does each minute.
use finger_move.Autoconf.Assign.{Tag-discrete, Value, effect, read, read-dispath}
use finger_move.Autoconf.Config.{
  Config, Tag, dispath, find_ref, refs, tag_afp_dir, tag_cache_limit, tag_client_addr,
  tag_clt_conf_addr, tag_clt_move_addr, tag_clt_sync_addr, tag_dat_dir, tag_dst_dir,
  tag_group_limit, tag_group_list, tag_log_dir, tag_org_dir, tag_ser_conf_addr, tag_ser_move_addr,
  tag_ser_sync_addr, tag_server_addr, tag_sub_list, tag_wrk_dir,
}
use finger_move.Autoconf.Inspect.{load}
use finger_move.Base.{
  All, List, Option-cases, [], ap, arith, if_neg, if_pos, inl, inr, length, refl, some, sym, ◌++◌,
  ◌<◌, ◌∙◌, ◌∷◌, ◌≡◌, ◌⊎◌,
}
use finger_move.Clib.{Bytes, c_str}
use finger_move.World.{max_name_len}

-- A file of complete pairs, each of which fits the buffers.
abbrev pub Pairs : Type 0
Pairs = List (Bytes × Bytes)

abbrev pub FitPair : Bytes × Bytes → Type 0
FitPair (k, v) = (length k < max_name_len) × (length v < max_name_len)

unfoldable pub pair_words : Pairs → List Bytes
pair_words [] = []
pair_words ((k, v) ∷ ps) = k ∷ v ∷ pair_words ps

unfoldable pub assign_all : Pairs → Config → Config
assign_all [] c = c
assign_all ((k, v) ∷ ps) c = assign_all ps (dispath (c_str k) (c_str v) c)

pub last_value : Bytes → Pairs → Bytes
last_value old [] = old
last_value old ((k, v) ∷ ps) = last_value v ps

pub load-pair_words :
    (ps : Pairs) (old : Bytes) (c : Config)
    → All FitPair ps
    → load old (pair_words ps) c ≡ some (assign_all ps c, last_value old ps)
unfolding load pair_words assign_all last_value
load-pair_words [] old c h = refl
load-pair_words ((k, v) ∷ ps) old c h =
    ground (arith, load-pair_words ps v (dispath (c_str k) (c_str v) c) h.1)

-- What the pairs make of one member.
final : Tag → Pairs → Value → Value
final t [] d = d
final t ((k, v) ∷ ps) d = final t ps (effect t (c_str k) (c_str v) d)

read-assign_all :
    (t : Tag) (ps : Pairs) (c : Config) → read t (assign_all ps c) ≡ final t ps (read t c)
unfolding assign_all final
read-assign_all t [] c = refl
read-assign_all t ((k, v) ∷ ps) c =
    read-assign_all t ps (dispath (c_str k) (c_str v) c)
    ∙ ap (final t ps) (read-dispath t (c_str k) (c_str v) c)

-- The pairs leave a member alone, or they set it without regard to its value.
abbrev IsSettled : (Value → Value) → Type 0
IsSettled f = ((d : Value) → f d ≡ d) ⊎ ((d e : Value) → f d ≡ f e)

effect-IsSettled : (t : Tag) (k v : Bytes) → IsSettled (effect t k v)
unfolding effect
effect-IsSettled t k v = elim (Option-cases (find_ref k refs)) [
  | inl e ↦ inl (λ d. rw (e, effect))
  | inr (u, e) ↦ elim (Tag-discrete t u) [
    | yes p ↦ inr (λ d d'. rw (e, effect) (rw (if_pos _ p) (rw (if_pos _ p))))
    | no p ↦ inl (λ d. rw (e, effect) (rw (if_neg _ p)))
  ]
]

final-IsSettled : (t : Tag) (ps : Pairs) → IsSettled (final t ps)
unfolding final
final-IsSettled t [] = inl (λ d. refl)
final-IsSettled t ((k, v) ∷ ps) = elim (final-IsSettled t ps) [
  | inr const ↦ inr (λ d e. const _ _)
  | inl same_all ↦ elim (effect-IsSettled t (c_str k) (c_str v)) [
    | inl alone ↦ inl (λ d. same_all _ ∙ alone d)
    | inr set ↦ inr (λ d e. ap (final t ps) (set d e))
  ]
]

final-final : (t : Tag) (ps : Pairs) (d : Value) → final t ps (final t ps d) ≡ final t ps d
final-final t ps d = elim (final-IsSettled t ps) [
  | inl alone ↦ alone (final t ps d)
  | inr set ↦ set (final t ps d) d
]

Config-ext : (c d : Config) → ((t : Tag) → read t c ≡ read t d) → c ≡ d
Config-ext c d h = ground (
  arith,
  h tag_server_addr,
  h tag_client_addr,
  h tag_afp_dir,
  h tag_dat_dir,
  h tag_wrk_dir,
  h tag_org_dir,
  h tag_dst_dir,
  h tag_log_dir,
  h tag_ser_move_addr,
  h tag_ser_conf_addr,
  h tag_ser_sync_addr,
  h tag_clt_move_addr,
  h tag_clt_conf_addr,
  h tag_clt_sync_addr,
  h tag_group_limit,
  h tag_cache_limit,
  h tag_group_list,
  h tag_sub_list,
)

pub assign_all_twice : (ps : Pairs) (c : Config) → assign_all ps (assign_all ps c) ≡ assign_all ps c
assign_all_twice ps c = Config-ext _ _ (λ t.
    read-assign_all t ps (assign_all ps c)
    ∙ ap (final t ps) (read-assign_all t ps c)
    ∙ final-final t ps (read t c)
    ∙ sym (read-assign_all t ps c))

pub last_value_twice :
    (ps : Pairs) (old : Bytes) → last_value (last_value old ps) ps ≡ last_value old ps
unfolding last_value
last_value_twice [] old = refl
last_value_twice ((k, v) ∷ ps) old = refl

-- A name that stands last with no value is given the value of the pair before it, each up to its
-- first NUL, in a file whose names and values fit the buffers; if there is no pair, the value is
-- what the buffer held before.
pub load-odd :
    (name : Bytes) (ps : Pairs) (old : Bytes) (c : Config)
    → All FitPair ps
    → length name < max_name_len
    → load old (pair_words ps ++ name ∷ []) c
      ≡ some (dispath (c_str name) (c_str (last_value old ps)) (assign_all ps c), last_value old ps)
unfolding load pair_words assign_all last_value
load-odd name [] old c h l = ground arith
load-odd name ((k, v) ∷ ps) old c h l =
    ground (arith, load-odd name ps v (dispath (c_str k) (c_str v) c) h.1 l)
