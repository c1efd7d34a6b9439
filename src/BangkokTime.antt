-- ===== src/BangkokTime.antt =====
-- api/src/lib/bangkok-time.ts
--
-- An instant is a number of milliseconds since 1970-01-01T00:00Z. A calendar date, the text
-- `YYYY-MM-DD` of the source, is the number of days from 1970-01-01 to it. Bangkok has kept +07:00
-- without a change since before 1970, which is what `Intl` and the literal offset both give.
pub mod Clock
pub mod Days
use room_booking.Base.{ℕ, ◌+◌, ◌-◌, ◌*◌, ◌/◌, ◌%◌, ◌==◌, Bool, false, Text, codes, if◌then◌else◌}
use room_booking.Errors.{Result, ok, ◌>>=◌}
use Clock.{parse_clock_minutes}

pub data DayOfWeek : Type 0 where
  sunday monday tuesday wednesday thursday friday saturday : DayOfWeek

-- the number of a weekday, Sunday first
abbrev day_code : DayOfWeek → ℕ
day_code sunday = 0
day_code monday = 1
day_code tuesday = 2
day_code wednesday = 3
day_code thursday = 4
day_code friday = 5
day_code saturday = 6

abbrev pub day_eq : DayOfWeek → DayOfWeek → Bool
day_eq a b = day_code a == day_code b

-- `DAY_OF_WEEK`, at the number of the weekday, Sunday first
unfoldable pub day_of_week : ℕ → DayOfWeek
day_of_week n =
    if n == 0
    then sunday
    else if n == 1
    then monday
    else if n == 2
    then tuesday
    else if n == 3
    then wednesday
    else if n == 4
    then thursday
    else if n == 5
    then friday
    else saturday

pub record BangkokDateTime : Type 0 where
  pub date : ℕ
  pub day_of_week : DayOfWeek
  pub hour : ℕ
  pub minute : ℕ
  pub second : ℕ
  pub minutes_since_midnight : ℕ

abbrev pub millis_per_day : ℕ
millis_per_day = 24 * 60 * 60 * 1000

-- `BANGKOK_UTC_OFFSET` in milliseconds
abbrev pub bangkok_utc_offset : ℕ
bangkok_utc_offset = 7 * 60 * 60 * 1000

-- 1970-01-01 was a Thursday.
unfoldable pub get_bangkok_date_time : ℕ → BangkokDateTime
unfolding day_of_week
get_bangkok_date_time value =
    let local = value + bangkok_utc_offset in
    let hour = local % millis_per_day / 3600000 in
    let minute = local % 3600000 / 60000 in
    record {
      date = local / millis_per_day;
      day_of_week = day_of_week ((local / millis_per_day + 4) % 7);
      hour = hour;
      minute = minute;
      second = local % 60000 / 1000;
      minutes_since_midnight = hour * 60 + minute;
    }

unfoldable pub bangkok_date_as_utc_date : ℕ → ℕ
bangkok_date_as_utc_date date = date * millis_per_day

unfoldable pub bangkok_local_date_time_to_instant : ℕ → Text → Result ℕ
unfolding parse_clock_minutes
bangkok_local_date_time_to_instant date time = do
  minutes ← parse_clock_minutes time false
  ok (date * millis_per_day + minutes * 60000 - bangkok_utc_offset)

pub record DayBounds : Type 0 where
  pub start : ℕ
  pub end : ℕ

unfoldable pub bangkok_day_bounds : ℕ → Result DayBounds
unfolding bangkok_local_date_time_to_instant
bangkok_day_bounds date = do
  start ← bangkok_local_date_time_to_instant date (codes "00:00")
  ok (record { start = start; end = start + 24 * 60 * 60 * 1000 })

unfoldable pub add_calendar_days : ℕ → ℕ → ℕ
add_calendar_days date days = date + days
