-- ===== src/Prodeal/Frames/Steps.antt =====
-- All steps of src/prodeal.cc as the class `CProDeal` has them.
use finger_move.Base.{Bool, ℕ, ℤ}
use finger_move.Clib.{Bytes}
use finger_move.Prodeal.Count.Sorter.{Sort}
use finger_move.Prodeal.Frames.{
  bot_afp_file-OnlyFiles, flt_log_file-OnlyFiles, get_afp_name-OnlyFiles, top_afp_file-OnlyFiles,
}
use finger_move.Prodeal.Frames.Logs.{cnt_srh_nums-OnlyFiles, mov_log_file-OnlyFiles}
use finger_move.Prodeal.Frames.Moves.{mov_afp_file-OnlyFiles, mov_cnt_file-OnlyFiles}
use finger_move.Prodeal.Steps.{pro_deal}
use finger_move.World.Frames.{OnlyFiles}

pub pro_deal-OnlyFiles :
    (sort : Sort) (now : ℕ) (p q r : Bytes) (flg : Bool) (x y : ℤ)
    → let s = pro_deal sort now in
      OnlyFiles (s.get_afp_name p q)
      × OnlyFiles (s.mov_log_file p q)
      × OnlyFiles (s.cnt_srh_nums p q flg)
      × OnlyFiles (s.flt_log_file p q)
      × OnlyFiles (s.top_afp_file p q x)
      × OnlyFiles (s.bot_afp_file p q)
      × OnlyFiles (s.mov_afp_file p q r)
      × OnlyFiles (s.mov_cnt_file p q r x y)
unfolding OnlyFiles pro_deal
pro_deal-OnlyFiles sort now p q r flg x y = (
  get_afp_name-OnlyFiles p q,
  mov_log_file-OnlyFiles now p q,
  cnt_srh_nums-OnlyFiles sort p q flg,
  flt_log_file-OnlyFiles p q,
  λ w. top_afp_file-OnlyFiles w.config.group_limit p q x w,
  λ w. bot_afp_file-OnlyFiles w.config.cache_limit p q w,
  mov_afp_file-OnlyFiles p q r,
  mov_cnt_file-OnlyFiles p q r x y,
)
