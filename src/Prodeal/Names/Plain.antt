-- ===== src/Prodeal/Names/Plain.antt =====
-- The working files can be the last part of a path.
use finger_move.Base.{refl}
use finger_move.Clib.{has_byte}
use finger_move.Prodeal.Names.{
  afp_name_file, bot_afps_file, flt_logs_file, log_num_count, top_afps_file,
}
use finger_move.World.Effects.{IsPlain}

pub afp_name_file-IsPlain : IsPlain afp_name_file
unfolding has_byte
afp_name_file-IsPlain = (refl, refl)

pub log_num_count-IsPlain : IsPlain log_num_count
unfolding has_byte
log_num_count-IsPlain = (refl, refl)

pub flt_logs_file-IsPlain : IsPlain flt_logs_file
unfolding has_byte
flt_logs_file-IsPlain = (refl, refl)

pub top_afps_file-IsPlain : IsPlain top_afps_file
unfolding has_byte
top_afps_file-IsPlain = (refl, refl)

pub bot_afps_file-IsPlain : IsPlain bot_afps_file
unfolding has_byte
bot_afps_file-IsPlain = (refl, refl)
