-- ===== src/BangkokTime/Days.antt =====
-- The calendar of api/src/lib/bangkok-time.ts: instants against days and times of the day.
use room_booking.Base.{
  ℕ, ◌+◌, ◌-◌, ◌*◌, ◌%◌, ◌≤◌, ◌<◌, ◌≡◌, ◌↔◌, ◌/◌, ◌∙◌, ap, sym, false, arith, Text,
}
use room_booking.Errors.{ok}
use room_booking.BangkokTime.{
  bangkok_local_date_time_to_instant, bangkok_day_bounds, get_bangkok_date_time, DayBounds,
  millis_per_day, bangkok_utc_offset,
}
use room_booking.BangkokTime.Clock.{parse_clock_minutes, parse_clock_minutes_bounds}

-- The instant of a local date and time, as numbers.
local_instant :
    (date : ℕ) (time : Text) (instant : ℕ)
    → bangkok_local_date_time_to_instant date time ≡ ok instant
    → (m : ℕ) × (parse_clock_minutes time false ≡ ok m)
      × (instant ≡ date * millis_per_day + m * 60000 - bangkok_utc_offset)
unfolding bangkok_local_date_time_to_instant
local_instant date time instant h = ground arith

minute_lt_day : (time : Text) (m : ℕ) → parse_clock_minutes time false ≡ ok m → m < 1440
minute_lt_day time m h = ground (arith, parse_clock_minutes_bounds time false m h)

-- the local clock at the start of minute `m` of a day
clock_at :
    (date m x : ℕ)
    → x ≡ date * millis_per_day + m * 60000
    → m < 1440
    → (x / millis_per_day ≡ date)
      × (x % millis_per_day / 3600000 * 60 + x % 3600000 / 60000 ≡ m)
      × (x % 60000 / 1000 ≡ 0)
clock_at date m x e h = (omega arith, omega arith, omega arith)

-- A local date and time, read as an instant and shown again in Bangkok time, is the same date and
-- minute of the day, at second 0. The date is after 1970-01-01.
pub get_bangkok_date_time-local :
    (date : ℕ) (time : Text) (instant : ℕ)
    → 0 < date
    → bangkok_local_date_time_to_instant date time ≡ ok instant
    → ((get_bangkok_date_time instant).date ≡ date)
      × (parse_clock_minutes time false ≡ ok (get_bangkok_date_time instant).minutes_since_midnight)
      × ((get_bangkok_date_time instant).second ≡ 0)
unfolding get_bangkok_date_time
get_bangkok_date_time-local date time instant pos h =
    let (m, parsed, at) = local_instant date time instant h in
    let c =
      clock_at date m (instant + bangkok_utc_offset) (omega arith) (minute_lt_day time m parsed) in
    (c.0, parsed ∙ ap ok (sym c.1), c.2)

-- The bounds of a day hold the instants whose Bangkok date is that day, and no others. The date is
-- after 1970-01-01.
pub bangkok_day_bounds_exact :
    (date : ℕ) (b : DayBounds) (x : ℕ)
    → 0 < date
    → bangkok_day_bounds date ≡ ok b
    → ((b.start ≤ x) × (x < b.end)) ↔ ((get_bangkok_date_time x).date ≡ date)
unfolding get_bangkok_date_time bangkok_day_bounds parse_clock_minutes
bangkok_day_bounds_exact date b x pos h =
    let start : b.start ≡ date * millis_per_day - bangkok_utc_offset = ground arith in
    let end : b.end ≡ b.start + millis_per_day = ground arith in
    (λ r. omega arith, λ e. (omega arith, omega arith))
