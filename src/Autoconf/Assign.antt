-- ===== src/Autoconf/Assign.antt =====
-- Which member a pair of the configuration file changes.
use finger_move.Autoconf.Config.{
  Config, Tag, assign, dispath, find_ref, refs, tag_afp_dir, tag_cache_limit, tag_client_addr,
  tag_clt_conf_addr, tag_clt_move_addr, tag_clt_sync_addr, tag_dat_dir, tag_dst_dir,
  tag_group_limit, tag_group_list, tag_log_dir, tag_org_dir, tag_ser_conf_addr, tag_ser_move_addr,
  tag_ser_sync_addr, tag_server_addr, tag_sub_list, tag_wrk_dir,
}
use finger_move.Base.{
  Option-cases, arith, if_neg, if_pos, inl, inr, ite, none, refl, some, to_unsigned, ℕ, ◌≡◌, ◌≢◌,
}
use finger_move.Clib.{Bytes, Bytes-discrete, atoi, codes}

-- A member's value.
pub data Value : Type 0 where
  text : Bytes → Value
  limit : ℕ → Value

abbrev pub read : Tag → Config → Value
read tag_server_addr c = text c.server_addr
read tag_client_addr c = text c.client_addr
read tag_afp_dir c = text c.afp_dir
read tag_dat_dir c = text c.dat_dir
read tag_wrk_dir c = text c.wrk_dir
read tag_org_dir c = text c.org_dir
read tag_dst_dir c = text c.dst_dir
read tag_log_dir c = text c.log_dir
read tag_ser_move_addr c = text c.ser_move_addr
read tag_ser_conf_addr c = text c.ser_conf_addr
read tag_ser_sync_addr c = text c.ser_sync_addr
read tag_clt_move_addr c = text c.clt_move_addr
read tag_clt_conf_addr c = text c.clt_conf_addr
read tag_clt_sync_addr c = text c.clt_sync_addr
read tag_group_limit c = limit c.group_limit
read tag_cache_limit c = limit c.cache_limit
read tag_group_list c = text c.group_list
read tag_sub_list c = text c.sub_list

-- What a text means for a member.
abbrev pub meaning : Tag → Bytes → Value
meaning tag_group_limit v = limit (to_unsigned (atoi v))
meaning tag_cache_limit v = limit (to_unsigned (atoi v))
meaning _ v = text v

pub Tag-discrete : Discrete Tag
Tag-discrete = hlevel

read-assign_self : (t : Tag) (v : Bytes) (c : Config) → read t (assign t v c) ≡ meaning t v
unfolding assign
read-assign_self tag_server_addr v c = refl
read-assign_self _ v c = refl

read-assign_ne : (t u : Tag) (v : Bytes) (c : Config) → t ≢ u → read t (assign u v c) ≡ read t c
unfolding assign
read-assign_ne tag_server_addr tag_server_addr v c h = absurd (h refl)
read-assign_ne _ _ v c h = ground arith

read-assign :
    (t u : Tag) (v : Bytes) (c : Config)
    → read t (assign u v c) ≡ ite (Tag-discrete t u) (meaning u v) (read t c)
read-assign t u v c = elim (Tag-discrete t u) [
  | yes e ↦ rw (if_pos _ e) (rw e (read-assign_self u v c))
  | no differ ↦ rw (if_neg _ differ) (read-assign_ne t u v c differ)
]

-- The value of a member after a pair, from its value before.
unfoldable pub effect : Tag → Bytes → Bytes → Value → Value
effect t k v d = elim (find_ref k refs) [
  | none ↦ d
  | some u ↦ ite (Tag-discrete t u) (meaning u v) d
]

-- A pair sets the member that its name stands for in the table, and no other; a name that is not
-- in the table changes nothing.
pub read-dispath :
    (t : Tag) (k v : Bytes) (c : Config) → read t (dispath k v c) ≡ effect t k v (read t c)
unfolding dispath effect
read-dispath t k v c = elim (Option-cases (find_ref k refs)) [
  | inl e ↦ rw (e, dispath, effect)
  | inr (u, e) ↦ rw (e, dispath, effect) (read-assign t u v c)
]

-- The name of each member in the file.
pub key : Tag → Bytes
key tag_server_addr = codes "SERVER_ADDR"
key tag_client_addr = codes "CLIENT_ADDR"
key tag_afp_dir = codes "AFP_DIR"
key tag_dat_dir = codes "DAT_DIR"
key tag_wrk_dir = codes "WRK_DIR"
key tag_org_dir = codes "ORG_DIR"
key tag_dst_dir = codes "DST_DIR"
key tag_log_dir = codes "LOG_DIR"
key tag_ser_move_addr = codes "SER_MOVE_ADDR"
key tag_ser_conf_addr = codes "SER_CONF_ADDR"
key tag_ser_sync_addr = codes "SER_SYNC_ADDR"
key tag_clt_move_addr = codes "CLT_MOVE_ADDR"
key tag_clt_conf_addr = codes "CLT_CONF_ADDR"
key tag_clt_sync_addr = codes "CLT_SYNC_ADDR"
key tag_group_limit = codes "GROUP_LIMIT"
key tag_cache_limit = codes "CACHE_LIMIT"
key tag_group_list = codes "GROUP_LIST"
key tag_sub_list = codes "SUB_LIST"

find_ref-key : (t : Tag) → find_ref (key t) refs ≡ some t
unfolding key find_ref refs Bytes-discrete
find_ref-key tag_server_addr = refl
find_ref-key _ = refl

-- Every member can be set by its name: it then has what the text means, and any other member
-- keeps its value.
pub read-dispath-key :
    (t u : Tag) (v : Bytes) (c : Config)
    → u ≢ t
    → (read t (dispath (key t) v c) ≡ meaning t v) × (read u (dispath (key t) v c) ≡ read u c)
unfolding dispath
read-dispath-key t u v c h =
    rw (find_ref-key t, dispath) (read-assign_self t v c, read-assign_ne u t v c h)
