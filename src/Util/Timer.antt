-- ===== src/Util/Timer.antt =====
-- src/util/base/timer.cc: the interval, the current time and the broken-down time. `gettimeofday` gives
-- seconds and microseconds; `localtime` and `mktime` are arguments. Times are not before 1970, so
-- that every number here is natural but an interval.
pub mod Order
mod Tests
use recomm_engine.Prelude.{
  ℕ, zero, suc, ◌+◌, ◌-◌, ◌*◌, ◌/◌, ◌<◌, Bool, List, [], ◌∷◌, ◌++◌, length, take, ◌≤◌,
}
use recomm_engine.Prelude.Int.{ℤ, pos, negsuc, sub_ℕ}
use recomm_engine.Prelude.Texts.{Text, ascii}
use recomm_engine.Util.Strings.{digits, string_append_f}

pub record TimeVal : Type 0 where
  pub tv_sec : ℕ
  pub tv_usec : ℕ

-- `struct tm`. The year is counted from 1900 and the month from 0.
pub record Tm : Type 0 where
  pub tm_year : ℕ
  pub tm_mon : ℕ
  pub tm_mday : ℕ
  pub tm_hour : ℕ
  pub tm_min : ℕ
  pub tm_sec : ℕ

pub record Timer : Type 0 where
  pub begin_point : ℕ
  pub end_point : ℕ

unfoldable pub current_time_in_us : TimeVal → ℕ
current_time_in_us tv = tv.tv_sec * 1000000 + tv.tv_usec

unfoldable pub begin : TimeVal → Timer → Timer
unfolding current_time_in_us
begin tv t = record t { begin_point = current_time_in_us tv }

unfoldable pub end : TimeVal → Timer → Timer
unfolding current_time_in_us
end tv t = record t { end_point = current_time_in_us tv }

-- Division of an `int64_t`, towards zero.
abbrev quotient : ℤ → ℕ → ℤ
quotient (pos n) d = pos (n / d)
quotient (negsuc n) d = sub_ℕ 0 ((n + 1) / d)

unfoldable pub get_us : Timer → ℤ
get_us t = sub_ℕ t.end_point t.begin_point

unfoldable pub get_ms : Timer → ℤ
unfolding get_us
get_ms t = quotient (get_us t) 1000

unfoldable pub get_s : Timer → ℤ
unfolding get_us
get_s t = quotient (get_us t) 1000000

unfoldable pub current_time_in_ms : TimeVal → ℕ
current_time_in_ms tv = tv.tv_sec * 1000 + tv.tv_usec / 1000

unfoldable pub current_time_in_s : TimeVal → ℕ
current_time_in_s tv = tv.tv_sec + tv.tv_usec / (1000 * 1000)

-- `%4d` pads with spaces on the left, `%02d` with zeros.
abbrev fill : ℕ → ℕ → Text
fill c zero = []
fill c (suc n) = c ∷ fill c n

abbrev pub padded : ℕ → ℕ → ℕ → Text
padded c width n = let t = digits 10 n in fill c (width - length t) ++ t

abbrev pub two : ℕ → Text
two = padded 48 2

module _ (localtime_r : ℕ → Tm) where
  unfoldable pub local_time_str_hms : ℕ → Text
  local_time_str_hms tt =
      let t = localtime_r tt in
      (string_append_f
        (padded 32 4 (t.tm_year + 1900)
          ++ two (t.tm_mon + 1)
          ++ two t.tm_mday
          ++ two t.tm_hour
          ++ two t.tm_min
          ++ two t.tm_sec)
        []).0

  unfoldable pub local_time_str : ℕ → Text
  local_time_str tt =
      let t = localtime_r tt in
      (string_append_f
        (padded 32 4 (t.tm_year + 1900)
          ++ ascii "-"
          ++ two (t.tm_mon + 1)
          ++ ascii "-"
          ++ two t.tm_mday
          ++ ascii " "
          ++ two t.tm_hour
          ++ ascii ":"
          ++ two t.tm_min
          ++ ascii ":"
          ++ two t.tm_sec)
        []).0

  -- `now` and the offset in days, an `int`; the product stays in range, and the sum is not before 1970.
  abbrev at_offset : ℕ → ℤ → ℕ
  at_offset now (pos d) = now + d * 86400
  at_offset now (negsuc d) = now - (d + 1) * 86400

  unfoldable pub current_year : ℕ → ℤ → ℕ
  current_year now day_offset = (localtime_r (at_offset now day_offset)).tm_year + 1900

  unfoldable pub current_month : ℕ → ℤ → ℕ
  current_month now day_offset = (localtime_r (at_offset now day_offset)).tm_mon + 1

  unfoldable pub current_day : ℕ → ℤ → ℕ
  current_day now day_offset = (localtime_r (at_offset now day_offset)).tm_mday

  module _ (mktime : Tm → ℕ) where
    unfoldable pub get_day_time : ℕ → ℕ
    get_day_time tt = mktime (record (localtime_r tt) { tm_hour = 0; tm_min = 0; tm_sec = 0 })

    unfoldable pub get_hour_time : ℕ → ℕ
    get_hour_time tt = mktime (record (localtime_r tt) { tm_min = 0; tm_sec = 0 })
