-- ===== src/Series/Recurrence/Weekly.antt =====
-- Which occurrences `generateWeeklyOccurrences` of api/src/booking/booking-series-recurrence.ts
-- gives, without its loop.
use room_booking.Base.{
  length-map, ℕ, zero, suc, ◌+◌, ◌-◌, ◌*◌, ◌%◌, ◌/◌, ◌≤◌, ◌<◌, ◌≡◌, ◌↔◌, refl, ◌∙◌, ap, ltb, leb,
  Bool, true, false, Bool-cases, inl, inr, Option, some, List, [], ◌∷◌, map, length, where_rows,
  Text, arith, if◌then◌else◌,
}
use room_booking.Errors.{Result, ok, err, series, series_too_large}
use room_booking.BangkokTime.{
  DayOfWeek, day_of_week, get_bangkok_date_time, bangkok_date_as_utc_date,
  bangkok_local_date_time_to_instant, add_calendar_days, millis_per_day, bangkok_utc_offset,
}
use room_booking.BangkokTime.Clock.{parse_clock_minutes}
use room_booking.Series.Recurrence.{
  CalendarText, day, other_day, malformed, BookingSeriesTemplateInput, Limits,
  BookingSeriesOccurrence, assert_calendar_date, has_weekday, has_duplicates, has_unknown, is_empty,
  clock_of, positive, occurrence_on, weekday_of, collect, occurrences_over,
  generate_weekly_occurrences,
}

-- the days of a range
abbrev pub dates : ℕ → ℕ → List ℕ
dates zero first = []
dates (suc rounds) first = first ∷ dates rounds (suc first)

-- 1970-01-01 was a Thursday.
abbrev pub falls_on : List (Option DayOfWeek) → ℕ → Bool
falls_on weekdays date = has_weekday weekdays (some (day_of_week ((date + 4) % 7)))

-- the occurrence on a date, from `opens_at` to `closes_at` in minutes of the day
abbrev pub occurrence_at : ℕ → ℕ → ℕ → BookingSeriesOccurrence
occurrence_at opens_at closes_at date = record {
  date = date;
  occurrence_date = date * millis_per_day;
  start_time = date * millis_per_day + opens_at * 60000 - bangkok_utc_offset;
  end_time = date * millis_per_day + closes_at * 60000 - bangkok_utc_offset;
}

weekday_of_lem : (date : ℕ) → 0 < date → weekday_of date ≡ ok (day_of_week ((date + 4) % 7))
unfolding weekday_of bangkok_local_date_time_to_instant get_bangkok_date_time parse_clock_minutes
weekday_of_lem date h =
    let e : (date * millis_per_day + 720 * 60000 - bangkok_utc_offset + bangkok_utc_offset)
          / millis_per_day
        ≡ date =
      omega arith in
    ap (λ d. ok (day_of_week ((d + 4) % 7))) e

occurrence_on_lem :
    (start_time end_time : Text) (opens_at closes_at date : ℕ)
    → parse_clock_minutes start_time false ≡ ok opens_at
    → parse_clock_minutes end_time false ≡ ok closes_at
    → occurrence_on start_time end_time date ≡ ok (occurrence_at opens_at closes_at date)
unfolding occurrence_on bangkok_local_date_time_to_instant bangkok_date_as_utc_date
occurrence_on_lem start_time end_time opens_at closes_at date h k = rw (h, k) refl

module _ (input : BookingSeriesTemplateInput) (limits : Limits) (start opens_at closes_at : ℕ)
    (opens : parse_clock_minutes input.start_time false ≡ ok opens_at)
    (closes : parse_clock_minutes input.end_time false ≡ ok closes_at)
    (after_epoch : 0 < start) where
  abbrev selected : ℕ → ℕ → List ℕ
  selected rounds offset = where_rows (falls_on input.weekdays) (dates rounds (start + offset))

  -- The loop gives the selected days in order, or refuses once they are too many.
  collect_lem :
      (rounds offset pushed : ℕ)
      → pushed ≤ limits.max_occurrences
      → collect input limits start rounds offset pushed ≡ (
          if leb (pushed + length (selected rounds offset)) limits.max_occurrences
          then ok (map (occurrence_at opens_at closes_at) (selected rounds offset))
          else err (series series_too_large))
  unfolding collect add_calendar_days
  collect_lem zero offset pushed h =
      let few : leb (pushed + 0) limits.max_occurrences ≡ true = ground arith in rw few refl
  collect_lem (suc rounds) offset pushed h =
      let w = weekday_of_lem (start + offset) (omega arith) in
      let at =
        occurrence_on_lem input.start_time input.end_time opens_at closes_at (start + offset) opens
          closes in
      let next : start + suc offset ≡ suc (start + offset) = omega arith in
      elim (Bool-cases (falls_on input.weekdays (start + offset))) [
        | inr off ↦ rw (w, off) (rw next at (collect_lem rounds (suc offset) pushed h))
        | inl on ↦ elim (Bool-cases (ltb limits.max_occurrences (suc pushed))) [
          | inl full ↦ rw (w, on, at, full) (ground arith)
          | inr room ↦
              let rest = rw next at (collect_lem rounds (suc offset) (suc pushed) (ground arith)) in
              rw (w, on, at, room, rest) (ground arith)
        ]
      ]

  -- what the loop gives, where all tests before it have passed
  occurrences_over_lem :
      (span_days : ℕ) (found : List BookingSeriesOccurrence)
      → (occurrences_over input limits start span_days ≡ ok found) ↔ (
          (span_days ≤ limits.max_span_days)
          × (found ≡ map (occurrence_at opens_at closes_at) (selected span_days 0))
          × (1 ≤ length (selected span_days 0))
          × (length (selected span_days 0) ≤ limits.max_occurrences))
  unfolding occurrences_over
  occurrences_over_lem span_days found =
      let c = collect_lem span_days 0 0 (omega arith) in
      let l = length-map (occurrence_at opens_at closes_at) (selected span_days 0) in
      (λ h. ground (arith, c, l), λ h. ground (arith, c, l))

-- A template that can be expanded, and its occurrences: one on each day of the range, its ends
-- included, that falls on a chosen weekday, in order, at the template's clock times.
pub record IsWeekly (input : BookingSeriesTemplateInput) (limits : Limits)
    (found : List BookingSeriesOccurrence) : Type 0 where
  pub start : ℕ
  pub end_date : ℕ
  pub opens_at : ℕ
  pub closes_at : ℕ
  pub start_given : input.start_date ≡ day start
  pub end_given : input.end_date ≡ day end_date
  pub in_order : start ≤ end_date
  pub someone : positive input.attendees ≡ true
  pub some_weekday : is_empty input.weekdays ≡ false
  pub known : has_unknown input.weekdays ≡ false
  pub no_duplicates : has_duplicates input.weekdays ≡ false
  pub opens : parse_clock_minutes input.start_time false ≡ ok opens_at
  pub closes : parse_clock_minutes input.end_time false ≡ ok closes_at
  pub positive_length : opens_at < closes_at
  pub short : suc (end_date - start) ≤ limits.max_span_days
  pub occurrences :
      found
      ≡ map
          (occurrence_at opens_at closes_at)
          (where_rows (falls_on input.weekdays) (dates (suc (end_date - start)) start))
  pub not_empty : 1 ≤ length found
  pub few : length found ≤ limits.max_occurrences

-- the day of a text is after 1970-01-01
abbrev pub IsLate : CalendarText → Type 0
IsLate (day d) = 0 < d
IsLate (other_day d) = Unit
IsLate malformed = Unit

date_inv : (t : CalendarText) (d : ℕ) → assert_calendar_date t ≡ ok d → t ≡ day d
unfolding assert_calendar_date
date_inv t d h = ground arith

clock_inv : (r : Result ℕ) (m : ℕ) → clock_of r ≡ ok m → r ≡ ok m
clock_inv r m h = ground arith

generated :
    (input : BookingSeriesTemplateInput) (limits : Limits) (found : List BookingSeriesOccurrence)
    → generate_weekly_occurrences input limits ≡ ok found
    → (start : ℕ) × (end_date : ℕ) × (opens_at : ℕ) × (closes_at : ℕ) × (assert_calendar_date
          input.start_date
        ≡ ok start)
      × (assert_calendar_date input.end_date ≡ ok end_date)
      × (start ≤ end_date)
      × (positive input.attendees ≡ true)
      × (is_empty input.weekdays ≡ false)
      × (has_unknown input.weekdays ≡ false)
      × (has_duplicates input.weekdays ≡ false)
      × (clock_of (parse_clock_minutes input.start_time false) ≡ ok opens_at)
      × (clock_of (parse_clock_minutes input.end_time false) ≡ ok closes_at)
      × (opens_at < closes_at)
      × (occurrences_over input limits start (suc (end_date - start)) ≡ ok found)
unfolding generate_weekly_occurrences
generated input limits found h = ground arith

module _ (input : BookingSeriesTemplateInput) (limits : Limits)
    (found : List BookingSeriesOccurrence) (late : IsLate input.start_date) where
  generate-IsWeekly :
      generate_weekly_occurrences input limits ≡ ok found → IsWeekly input limits found
  generate-IsWeekly h =
      let (
        start, end_date, opens_at, closes_at, s, e, order, someone, some_weekday, known,
        no_duplicates, o, c, positive_length, rest,
      ) =
        generated input limits found h in
      let start_given = date_inv input.start_date start s in
      let opens = clock_inv _ opens_at o in
      let closes = clock_inv _ closes_at c in
      let after : 0 < start = rw start_given at late in
      let zero_offset : start + 0 ≡ start = omega arith in
      let (short, occurrences, not_empty, few) = rw zero_offset at (
        (occurrences_over_lem input limits start opens_at closes_at opens closes after
            (suc (end_date - start)) found).0
          rest) in
      let l =
        length-map (occurrence_at opens_at closes_at)
          (where_rows (falls_on input.weekdays) (dates (suc (end_date - start)) start)) in
      record {
        start = start;
        end_date = end_date;
        opens_at = opens_at;
        closes_at = closes_at;
        start_given = start_given;
        end_given = date_inv input.end_date end_date e;
        in_order = order;
        someone = someone;
        some_weekday = some_weekday;
        known = known;
        no_duplicates = no_duplicates;
        opens = opens;
        closes = closes;
        positive_length = positive_length;
        short = short;
        occurrences = occurrences;
        not_empty = rw (ap length occurrences ∙ l) not_empty;
        few = rw (ap length occurrences ∙ l) few;
      }

  generate_complete :
      IsWeekly input limits found → generate_weekly_occurrences input limits ≡ ok found
  unfolding generate_weekly_occurrences assert_calendar_date
  generate_complete w =
      let after : 0 < w.start = rw w.start_given at late in
      let zero_offset : w.start + 0 ≡ w.start = omega arith in
      let l =
        length-map (occurrence_at w.opens_at w.closes_at)
          (where_rows (falls_on input.weekdays) (dates (suc (w.end_date - w.start)) w.start)) in
      let over : occurrences_over input limits w.start (suc (w.end_date - w.start)) ≡ ok found =
        (occurrences_over_lem input limits w.start w.opens_at w.closes_at w.opens w.closes after
            (suc (w.end_date - w.start)) found).1
          (rw zero_offset (
            w.short,
            w.occurrences,
            ground (arith, w.occurrences, l, w.not_empty),
            ground (arith, w.occurrences, l, w.few),
          )) in
      let order : ltb w.end_date w.start ≡ false = ground (arith, w.in_order) in
      let length_ok : leb w.closes_at w.opens_at ≡ false = ground (arith, w.positive_length) in
      rw
        (
          w.start_given, w.end_given, order, w.someone, w.some_weekday, w.known, w.no_duplicates,
          w.opens, w.closes, length_ok,
        )
        over

  -- The expansion of a template whose range starts after 1970-01-01 succeeds exactly on valid
  -- templates, and gives one occurrence on each day of the range that falls on a chosen weekday, in
  -- order of the days: at least one, and no more than the limits allow.
  pub generate_weekly_occurrences_iff :
      (generate_weekly_occurrences input limits ≡ ok found) ↔ IsWeekly input limits found
  generate_weekly_occurrences_iff = (generate-IsWeekly, generate_complete)
