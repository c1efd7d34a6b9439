-- ===== src/Series/Recurrence.antt =====
-- api/src/booking/booking-series-recurrence.ts
--
-- A weekday that is none of the seven is `none`. The numbers of the input and of the environment
-- are `none` where `Number.isInteger` refuses them.
pub mod Weekly
use room_booking.Base.{
  ℕ, zero, suc, ◌+◌, ◌-◌, ltb, leb, not, ◌&&◌, ◌||◌, Bool, true, false, Option, none, some, List,
  [], ◌∷◌, Text, codes, is_some, length, if◌then◌else◌, ◌==◌,
}
use room_booking.Errors.{
  Result, ok, err, Error, ◌>>=◌, ◌>>◌, throw_if, plain, invalid_date, series, invalid_recurrence,
  series_too_large,
}
use room_booking.BangkokTime.{
  DayOfWeek, day_eq, get_bangkok_date_time, bangkok_date_as_utc_date,
  bangkok_local_date_time_to_instant, add_calendar_days,
}
use room_booking.BangkokTime.Clock.{parse_clock_minutes}

-- A text of a date: a day of the calendar; a text of the form `YYYY-MM-DD` that `Date` takes for
-- another day, such as `2023-02-29`; or any other text.
pub data CalendarText : Type 0 where
  day : ℕ → CalendarText
  other_day : ℕ → CalendarText
  malformed : CalendarText

pub record BookingSeriesTemplateInput : Type 0 where
  pub room_id : ℕ
  pub start_date : CalendarText
  pub end_date : CalendarText
  pub weekdays : List (Option DayOfWeek)
  pub start_time : Text
  pub end_time : Text
  pub attendees : Option ℕ
  pub purpose : Option Text

pub bounded_positive_integer : Option ℕ → ℕ → ℕ → ℕ
bounded_positive_integer none fallback maximum = fallback
bounded_positive_integer (some parsed) fallback maximum =
    if ltb 0 parsed && leb parsed maximum then parsed else fallback

pub record Limits : Type 0 where
  pub max_occurrences : ℕ
  pub max_span_days : ℕ

-- the two variables of the environment, as numbers
pub booking_series_limits_from_env : Option ℕ → Option ℕ → Limits
unfolding bounded_positive_integer
booking_series_limits_from_env occurrences span = record {
  max_occurrences = bounded_positive_integer occurrences 26 104;
  max_span_days = bounded_positive_integer span 366 730;
}

unfoldable pub assert_calendar_date : CalendarText → Result ℕ
assert_calendar_date (day d) = ok d
assert_calendar_date (other_day d) = err (series invalid_recurrence)
assert_calendar_date malformed = err (plain invalid_date)

pub record BookingSeriesOccurrence : Type 0 where
  pub date : ℕ
  pub occurrence_date : ℕ
  pub start_time : ℕ
  pub end_time : ℕ

abbrev weekday_eq : Option DayOfWeek → Option DayOfWeek → Bool
weekday_eq none none = true
weekday_eq none (some e) = false
weekday_eq (some d) none = false
weekday_eq (some d) (some e) = day_eq d e

-- `Set.has`
abbrev pub has_weekday : List (Option DayOfWeek) → Option DayOfWeek → Bool
has_weekday [] d = false
has_weekday (e ∷ es) d = weekday_eq e d || has_weekday es d

-- `[...new Set(weekdays)].length !== weekdays.length`; two unknown weekdays may differ, but an
-- unknown one is refused before
abbrev pub has_duplicates : List (Option DayOfWeek) → Bool
has_duplicates [] = false
has_duplicates (d ∷ ds) = has_weekday ds d || has_duplicates ds

abbrev is_empty : List (Option DayOfWeek) → Bool
is_empty [] = true
is_empty (d ∷ ds) = false

abbrev pub has_unknown : List (Option DayOfWeek) → Bool
has_unknown [] = false
has_unknown (none ∷ ds) = true
has_unknown (some d ∷ ds) = has_unknown ds

-- `parseClockMinutes` in the `try`: any error is an invalid recurrence
abbrev clock_of : Result ℕ → Result ℕ
clock_of (ok minutes) = ok minutes
clock_of (err e) = err (series invalid_recurrence)

abbrev positive : Option ℕ → Bool
positive none = false
positive (some n) = ltb 0 n

-- the occurrence on a date
unfoldable pub occurrence_on : Text → Text → ℕ → Result BookingSeriesOccurrence
occurrence_on start_time end_time date = do
  start ← bangkok_local_date_time_to_instant date start_time
  end_at ← bangkok_local_date_time_to_instant date end_time
  ok (record {
    date = date;
    occurrence_date = bangkok_date_as_utc_date date;
    start_time = start;
    end_time = end_at;
  })

-- the weekday of a date, at midday
unfoldable pub weekday_of : ℕ → Result DayOfWeek
weekday_of date = do
  midday ← bangkok_local_date_time_to_instant date (codes "12:00")
  ok (get_bangkok_date_time midday).day_of_week

module _ (input : BookingSeriesTemplateInput) (limits : Limits) (start_date : ℕ) where
  -- one round of the loop: what is pushed, then the test of the limit, then the rounds that follow
  push_occurrence :
      ℕ → ℕ → Result (List BookingSeriesOccurrence) → Result (List BookingSeriesOccurrence)
  push_occurrence date pushed rest = do
    occurrence ← occurrence_on input.start_time input.end_time date
    throw_if (ltb limits.max_occurrences (suc pushed)) (series series_too_large)
    occurrences ← rest
    ok (occurrence ∷ occurrences)

  -- The loop from `offset` on, with the rounds that are left and the number of occurrences pushed.
  collect : ℕ → ℕ → ℕ → Result (List BookingSeriesOccurrence)
  unfolding push_occurrence
  collect zero offset pushed = ok []
  collect (suc rounds) offset pushed =
      weekday_of (add_calendar_days start_date offset) >>= λ weekday.
      let skip = collect rounds (suc offset) pushed in
      let push =
        push_occurrence (add_calendar_days start_date offset) pushed
          (collect rounds (suc offset) (suc pushed)) in
      if has_weekday input.weekdays (some weekday) then push else skip

-- what is left to do once the input is valid, with `spanDays`
occurrences_over :
    BookingSeriesTemplateInput → Limits → ℕ → ℕ → Result (List BookingSeriesOccurrence)
unfolding collect
occurrences_over input limits start span_days = do
  throw_if (ltb limits.max_span_days span_days) (series series_too_large)
  occurrences ← collect input limits start span_days 0 0
  throw_if (length occurrences == 0) (series invalid_recurrence)
  ok occurrences

unfoldable pub generate_weekly_occurrences :
    BookingSeriesTemplateInput → Limits → Result (List BookingSeriesOccurrence)
unfolding occurrences_over assert_calendar_date
generate_weekly_occurrences input limits = do
  start ← assert_calendar_date input.start_date
  end_date ← assert_calendar_date input.end_date
  throw_if (ltb end_date start) (series invalid_recurrence)
  throw_if (not (positive input.attendees)) (series invalid_recurrence)
  throw_if (is_empty input.weekdays || has_unknown input.weekdays) (series invalid_recurrence)
  throw_if (has_duplicates input.weekdays) (series invalid_recurrence)
  opens_at ← clock_of (parse_clock_minutes input.start_time false)
  closes_at ← clock_of (parse_clock_minutes input.end_time false)
  throw_if (leb closes_at opens_at) (series invalid_recurrence)
  occurrences_over input limits start (suc (end_date - start))
