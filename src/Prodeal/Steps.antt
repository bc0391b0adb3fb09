-- ===== src/Prodeal/Steps.antt =====
-- The class `CProDeal` of src/prodeal.h as an interface, and the program's own implementation.
use finger_move.Prodeal.Names
use finger_move.Prodeal.Logs
use finger_move.Prodeal.Count
use finger_move.Prodeal.Filter
use finger_move.Prodeal.Select
use finger_move.Prodeal.Move
use finger_move.Base.{Bool, List, ℕ, ℤ}
use finger_move.Clib.{Bytes}
use finger_move.World.{Cmd, get_config, ◌>>=◌}

pub record CProDeal : Type 0 where
  pub get_afp_name : Bytes → Bytes → Cmd ℤ
  pub mov_log_file : Bytes → Bytes → Cmd ℤ
  pub cnt_srh_nums : Bytes → Bytes → Bool → Cmd ℤ
  pub flt_log_file : Bytes → Bytes → Cmd ℤ
  pub top_afp_file : Bytes → Bytes → ℤ → Cmd ℤ
  pub bot_afp_file : Bytes → Bytes → Cmd ℤ
  pub mov_afp_file : Bytes → Bytes → Bytes → Cmd ℤ
  pub mov_cnt_file : Bytes → Bytes → Bytes → ℤ → ℤ → Cmd ℤ

-- The steps of src/prodeal.cc at the time `now`, with `sort` for std::sort. The limits are read
-- from the configuration.
unfoldable pub pro_deal :
    ((Bytes × ℕ → Bytes × ℕ → Bool) → List (Bytes × ℕ) → List (Bytes × ℕ)) → ℕ → CProDeal
pro_deal sort now = record {
  get_afp_name = Names.get_afp_name;
  mov_log_file = Logs.mov_log_file now;
  cnt_srh_nums = Count.cnt_srh_nums sort;
  flt_log_file = Filter.flt_log_file;
  top_afp_file = λ org dst cnt. do
    c ← get_config
    Select.top_afp_file c.group_limit org dst cnt;
  bot_afp_file = λ org dst. do
    c ← get_config
    Select.bot_afp_file c.cache_limit org dst;
  mov_afp_file = Move.mov_afp_file;
  mov_cnt_file = Move.mov_cnt_file;
}
