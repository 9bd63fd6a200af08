-- ===== src/Util/Timer/Tests.antt =====
-- Runs of src/util/base/timer.cc.
use recomm_engine.Prelude.{ℕ, ◌/◌, ◌%◌, ◌≡◌, refl, arith}
use recomm_engine.Prelude.Texts.{ascii}
use recomm_engine.Util.Strings.{string_append_f}
use recomm_engine.Util.Timer.{Tm, local_time_str_hms, local_time_str}
use recomm_engine.Util.Timer.Order.{text_ltb, earlier, local_time_str_hms_lem}

-- A day of 2013.
abbrev that_day : ℕ → Tm
that_day t = record {
  tm_year = 113;
  tm_mon = 3;
  tm_mday = 25;
  tm_hour = t / 3600 % 24;
  tm_min = t / 60 % 60;
  tm_sec = t % 60;
}

written_whole : local_time_str_hms that_day 32461 ≡ ascii "20130425090101"
unfolding local_time_str_hms string_append_f
written_whole = refl

written_apart : local_time_str that_day 32461 ≡ ascii "2013-04-25 09:01:01"
unfolding local_time_str string_append_f
written_apart = refl

local_time_str_hms_lem_example :
    text_ltb (local_time_str_hms that_day 59) (local_time_str_hms that_day 32461)
    ≡ earlier (that_day 59) (that_day 32461)
local_time_str_hms_lem_example =
    local_time_str_hms_lem that_day 59 32461
      (record {
        year = omega arith;
        mon = omega arith;
        mday = omega arith;
        hour = omega arith;
        min = omega arith;
        sec = omega arith;
      })
      (record {
        year = omega arith;
        mon = omega arith;
        mday = omega arith;
        hour = omega arith;
        min = omega arith;
        sec = omega arith;
      })
