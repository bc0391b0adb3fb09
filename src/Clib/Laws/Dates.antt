-- ===== src/Clib/Laws/Dates.antt =====
-- The names of dated logs.
use finger_move.Base.{arith, false, refl, ℕ, ◌%◌, ◌+◌, ◌∷◌, ◌≡◌}
use finger_move.Clib.Date.{log_name}
use finger_move.Clib.Text.{Bytes, codes, has_byte}

-- Such a name begins with a digit.
pub log_name-cons : (t : ℕ) → (d : ℕ) × (s : Bytes) × (log_name t ≡ (b'0' + d % 10) ∷ s)
unfolding log_name
log_name-cons t = (_, _, refl)

digit-slash : (d : ℕ) (s : Bytes) → has_byte b'/' ((b'0' + d % 10) ∷ s) ≡ has_byte b'/' s
unfolding has_byte
digit-slash d s = ground arith

dash-slash : (s : Bytes) → has_byte b'/' (b'-' ∷ s) ≡ has_byte b'/' s
unfolding has_byte
dash-slash s = refl

underscore-slash : (s : Bytes) → has_byte b'/' (b'_' ∷ s) ≡ has_byte b'/' s
unfolding has_byte
underscore-slash s = refl

ending-slash : has_byte b'/' (codes ".log") ≡ false
unfolding has_byte
ending-slash = refl

pub log_name-slash : (t : ℕ) → has_byte b'/' (log_name t) ≡ false
unfolding log_name
log_name-slash t = simp (digit-slash, dash-slash, underscore-slash, ending-slash)
