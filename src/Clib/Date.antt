-- ===== src/Clib/Date.antt =====
-- `gmtime` and `strftime`, for the one format that the program uses to name its logs.
use finger_move.Base.{[], if◌then◌else◌, leb, ltb, refl, ℕ, ◌%◌, ◌*◌, ◌++◌, ◌+◌, ◌-◌, ◌/◌, ◌∷◌, ◌≡◌}
use finger_move.Clib.Text.{Bytes, codes}

pub record Day : Type 0 where
  pub year : ℕ
  pub month : ℕ
  pub day : ℕ

-- The civil date of a day counted from 1970-01-01. The year is taken to begin in March.
unfoldable pub civil : ℕ → Day
civil days =
    let z : ℕ = days + 719468 in
    let era : ℕ = z / 146097 in
    let doe : ℕ = z % 146097 in
    let yoe : ℕ = (doe + doe / 36524 - doe / 1460 - doe / 146096) / 365 in
    let doy : ℕ = doe - (365 * yoe + yoe / 4 - yoe / 100) in
    let mp : ℕ = (5 * doy + 2) / 153 in
    let m : ℕ = if ltb mp 10 then mp + 3 else mp - 9 in
    record {
      year = yoe + era * 400 + (if leb m 2 then 1 else 0);
      month = m;
      day = doy - (153 * mp + 2) / 5 + 1;
    }

abbrev two : ℕ → Bytes
two n = (b'0' + n / 10 % 10) ∷ (b'0' + n % 10) ∷ []

abbrev four : ℕ → Bytes
four n = two (n / 100) ++ two n

-- "%Y-%m-%d_%H-%M-%S.log" of the seconds since 1970, for years of four digits.
unfoldable pub log_name : ℕ → Bytes
unfolding civil
log_name t =
    let d : Day = civil (t / 86400) in
    let s : ℕ = t % 86400 in
    four d.year
    ++ b'-' ∷ two d.month
    ++ b'-' ∷ two d.day
    ++ b'_' ∷ two (s / 3600)
    ++ b'-' ∷ two (s / 60 % 60)
    ++ b'-' ∷ two (s % 60)
    ++ codes ".log"

-- 2015-11-27 08:09:10 UTC
log_name_test : log_name 1448611750 ≡ codes "2015-11-27_08-09-10.log"
unfolding log_name
log_name_test = refl
