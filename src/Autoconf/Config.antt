-- ===== src/Autoconf/Config.antt =====
-- The class `Config`: its static members with their first values, the table `m_ref` from names
-- to tags, and `Inspect::dispath`, which assigns to the member that a name stands for.
use finger_move.Base.{List, Option, [], if◌then◌else◌, none, some, to_unsigned, ℕ, ◌∷◌}
use finger_move.Clib.{Bytes, atoi, codes, same}

-- TAG_SERVER_ADDR to TAG_SUB_LIST
pub data Tag : Type 0 where
  tag_server_addr tag_client_addr : Tag
  tag_afp_dir tag_dat_dir tag_wrk_dir tag_org_dir tag_dst_dir tag_log_dir : Tag
  tag_ser_move_addr tag_ser_conf_addr tag_ser_sync_addr : Tag
  tag_clt_move_addr tag_clt_conf_addr tag_clt_sync_addr : Tag
  tag_group_limit tag_cache_limit tag_group_list tag_sub_list : Tag

pub record Config : Type 0 where
  pub server_addr : Bytes
  pub client_addr : Bytes
  pub afp_dir : Bytes
  pub dat_dir : Bytes
  pub wrk_dir : Bytes
  pub org_dir : Bytes
  pub dst_dir : Bytes
  pub log_dir : Bytes
  pub ser_move_addr : Bytes
  pub ser_conf_addr : Bytes
  pub ser_sync_addr : Bytes
  pub clt_move_addr : Bytes
  pub clt_conf_addr : Bytes
  pub clt_sync_addr : Bytes
  pub group_list : Bytes
  pub sub_list : Bytes
  pub group_limit : ℕ
  pub cache_limit : ℕ

abbrev pub defaults : Config
defaults = record {
  server_addr = codes "0.0.0.0:50059";
  client_addr = codes "localhost:50059";
  afp_dir = [];
  dat_dir = [];
  wrk_dir = [];
  org_dir = [];
  dst_dir = [];
  log_dir = [];
  ser_move_addr = [];
  ser_conf_addr = [];
  ser_sync_addr = [];
  clt_move_addr = [];
  clt_conf_addr = [];
  clt_sync_addr = [];
  group_list = codes "group_list";
  sub_list = codes "sub_list";
  group_limit = 100;
  cache_limit = 1800;
}

-- The table that the constructor fills.
unfoldable pub refs : List (Bytes × Tag)
refs =
    (codes "SERVER_ADDR", tag_server_addr)
    ∷ (codes "CLIENT_ADDR", tag_client_addr)
    ∷ (codes "AFP_DIR", tag_afp_dir)
    ∷ (codes "DAT_DIR", tag_dat_dir)
    ∷ (codes "WRK_DIR", tag_wrk_dir)
    ∷ (codes "ORG_DIR", tag_org_dir)
    ∷ (codes "DST_DIR", tag_dst_dir)
    ∷ (codes "LOG_DIR", tag_log_dir)
    ∷ (codes "SER_MOVE_ADDR", tag_ser_move_addr)
    ∷ (codes "SER_CONF_ADDR", tag_ser_conf_addr)
    ∷ (codes "SER_SYNC_ADDR", tag_ser_sync_addr)
    ∷ (codes "CLT_MOVE_ADDR", tag_clt_move_addr)
    ∷ (codes "CLT_CONF_ADDR", tag_clt_conf_addr)
    ∷ (codes "CLT_SYNC_ADDR", tag_clt_sync_addr)
    ∷ (codes "GROUP_LIMIT", tag_group_limit)
    ∷ (codes "CACHE_LIMIT", tag_cache_limit)
    ∷ (codes "GROUP_LIST", tag_group_list)
    ∷ (codes "SUB_LIST", tag_sub_list)
    ∷ []

-- `m_ref.find(str)`
unfoldable pub find_ref : Bytes → List (Bytes × Tag) → Option Tag
find_ref k [] = none
find_ref k ((j, t) ∷ rs) = if same k j then some t else find_ref k rs

-- The switch.
unfoldable pub assign : Tag → Bytes → Config → Config
unfolding atoi
assign tag_server_addr v c = record c { server_addr = v }
assign tag_client_addr v c = record c { client_addr = v }
assign tag_afp_dir v c = record c { afp_dir = v }
assign tag_dat_dir v c = record c { dat_dir = v }
assign tag_wrk_dir v c = record c { wrk_dir = v }
assign tag_org_dir v c = record c { org_dir = v }
assign tag_dst_dir v c = record c { dst_dir = v }
assign tag_log_dir v c = record c { log_dir = v }
assign tag_ser_move_addr v c = record c { ser_move_addr = v }
assign tag_ser_conf_addr v c = record c { ser_conf_addr = v }
assign tag_ser_sync_addr v c = record c { ser_sync_addr = v }
assign tag_clt_move_addr v c = record c { clt_move_addr = v }
assign tag_clt_conf_addr v c = record c { clt_conf_addr = v }
assign tag_clt_sync_addr v c = record c { clt_sync_addr = v }
assign tag_group_limit v c = record c { group_limit = to_unsigned (atoi v) }
assign tag_cache_limit v c = record c { cache_limit = to_unsigned (atoi v) }
assign tag_group_list v c = record c { group_list = v }
assign tag_sub_list v c = record c { sub_list = v }

unfoldable pub dispath : Bytes → Bytes → Config → Config
unfolding find_ref assign refs
dispath name val c = elim (find_ref name refs) [ none ↦ c | some t ↦ assign t val c ]
