-- ===== src/Series/Creation.antt =====
-- The transaction of `create` of api/src/booking/booking-series.service.ts, for the occurrences that
-- `generateWeeklyOccurrences` has given.
--
-- A calendar date in metadata is the number of its day. `attendees` is a number, since the template
-- has been expanded. What `create` does about a violated exclusion constraint, and the
-- notifications after the transaction, are not modelled.
pub mod Whole
use room_booking.Base.{
  ℕ, suc, ◌*◌, ◌==◌, ltb, not, ◌&&◌, Bool, true, false, Option, none, some, or_else, is_empty, List,
  [], ◌∷◌, length, Text, codes, if◌then◌else◌, find_first,
}
use room_booking.Json.{
  Json, Items, nil, cons, Metadata, present, field, end, num, str, bool, arr, null,
}
use room_booking.Errors.{
  Result, ok, err, Error, policy_with, PolicyCode, Alternative, SeriesConflict, series, series_with,
  series_conflict, pro_required,
}
use room_booking.BangkokTime.{
  DayOfWeek, sunday, monday, tuesday, wednesday, thursday, friday, saturday,
  bangkok_date_as_utc_date,
}
use room_booking.Store.Rows.{
  Db, Booking, BookingStatus, pending, confirmed, status_eq, User, is_pro, Room, BookingSeries,
  SeriesStatus, EventType, TargetType, AuditStatus, booking_series_created,
}
use room_booking.Store.Tx.{
  Tx, pure, throw, reads, checks, throw_if, fresh_id, new_date, ◌>>=◌, ◌>>◌,
}
use room_booking.Store.Tables.{insert_booking, record_audit}
use room_booking.Policy.{BookingPolicyConfig, BookingPolicyInput, Context, Request, validate_create}
use room_booking.Alternatives.{suggest}
use room_booking.Bookings.Events.{EventInput, record_event}
use room_booking.Bookings.Create.{new_row, auto_confirms, when}
use room_booking.Series.Recurrence.{
  BookingSeriesTemplateInput, BookingSeriesOccurrence, CalendarText, day, other_day, malformed,
}
use room_booking.Series.Cancelling.{BookingSeriesActor, actor_type, event_actor}

abbrev has_access : ℕ → User → Bool
has_access now u = is_pro u.plan && elim u.plan_expires_at [ none ↦ true | some at ↦ ltb now at ]

abbrev user_has_access : ℕ → Option User → Bool
user_has_access now none = false
user_has_access now (some u) = has_access now u

unfoldable pub assert_pro_entitlement : ℕ → Tx (Unit {0})
assert_pro_entitlement user_id = do
  now ← new_date
  user ← reads (λ db. find_first (λ (u : User). u.id == user_id) db.users)
  throw_if (not (user_has_access now user)) (series pro_required)

-- `policyInput`
abbrev pub policy_input :
    BookingSeriesTemplateInput → BookingSeriesOccurrence → BookingSeriesActor → BookingPolicyInput
policy_input template occurrence actor = record {
  user_id = actor.user_id;
  room_id = template.room_id;
  start_time = some occurrence.start_time;
  end_time = some occurrence.end_time;
  attendees = template.attendees;
  user_role = some actor.role;
  exclude_booking_id = none;
  allow_room_conflict = false;
}

abbrev day_number : CalendarText → ℕ
day_number (day d) = d
day_number (other_day d) = d
day_number malformed = 0

-- the row of the series
abbrev pub series_row : BookingSeriesTemplateInput → BookingSeriesActor → ℕ → BookingSeries
series_row input actor id = record {
  id = id;
  user_id = actor.user_id;
  room_id = input.room_id;
  start_date = bangkok_date_as_utc_date (day_number input.start_date);
  end_date = bangkok_date_as_utc_date (day_number input.end_date);
  weekdays = input.weekdays;
  start_time = input.start_time;
  end_time = input.end_time;
  attendees = or_else input.attendees 0;
  purpose = input.purpose;
  status = SeriesStatus.active;
  cancelled_at = none;
}

unfoldable pub insert_series : BookingSeries → Tx (Unit {0})
insert_series s db = ok (tt, record db { series = s ∷ db.series })

abbrev request_of :
    BookingSeriesTemplateInput → BookingSeriesOccurrence → BookingSeriesActor → Request
request_of input occurrence actor = record {
  user_id = actor.user_id;
  room_id = input.room_id;
  start_time = occurrence.start_time;
  end_time = occurrence.end_time;
  attendees = or_else input.attendees 0;
  user_role = some actor.role;
  exclude_booking_id = none;
  allow_room_conflict = false;
}

-- the row of an occurrence
abbrev pub occurrence_row :
    BookingSeriesTemplateInput
    → BookingSeriesOccurrence
    → BookingSeriesActor
    → ℕ
    → Bool
    → ℕ
    → ℕ
    → Booking
occurrence_row input occurrence actor series_id auto_confirm id now =
    record (new_row (request_of input occurrence actor) id now input.purpose
      (if auto_confirm then confirmed else pending)) {
        series_id = some series_id;
        occurrence_date = some occurrence.occurrence_date;
        approved_at = when auto_confirm now;
        approved_by = when auto_confirm actor.user_id;
      }

abbrev pub occurrence_event :
    BookingSeriesOccurrence → BookingSeriesActor → ℕ → Bool → Booking → EventInput
occurrence_event occurrence actor series_id auto_confirm b = record {
  booking_id = b.id;
  room_id = b.room_id;
  actor = event_actor actor;
  event_type = EventType.created;
  previous_status = none;
  new_status = b.status;
  metadata = present (
      field (codes "seriesId") (num series_id) (
        field (codes "occurrenceDate") (num occurrence.date)
          (field (codes "autoConfirmed") (bool auto_confirm) end)));
}

-- what became of an occurrence
pub data Made : Type 0 where
  booked : ℕ → Bool → Made
  refused : SeriesConflict → Made

-- the lists that the loop fills
pub record Progress : Type 0 where
  pub conflicts : List SeriesConflict
  pub booking_ids : List ℕ
  pub confirmed_booking_ids : List ℕ

abbrev pub add : Made → Progress → Progress
add (booked id is_confirmed) p = record {
  conflicts = p.conflicts;
  booking_ids = id ∷ p.booking_ids;
  confirmed_booking_ids =
      let ids = p.confirmed_booking_ids in if is_confirmed then id ∷ ids else ids;
}
add (refused conflict) p = record p { conflicts = conflict ∷ p.conflicts }

abbrev day_text : Option DayOfWeek → Json
day_text none = null
day_text (some sunday) = str (codes "SUNDAY")
day_text (some monday) = str (codes "MONDAY")
day_text (some tuesday) = str (codes "TUESDAY")
day_text (some wednesday) = str (codes "WEDNESDAY")
day_text (some thursday) = str (codes "THURSDAY")
day_text (some friday) = str (codes "FRIDAY")
day_text (some saturday) = str (codes "SATURDAY")

abbrev day_items : List (Option DayOfWeek) → Items
day_items [] = nil
day_items (d ∷ ds) = cons (day_text d) (day_items ds)

pub record CreatedSeries : Type 0 where
  pub series_id : ℕ
  pub booking_ids : List ℕ
  pub confirmed_booking_ids : List ℕ

abbrev pub conflict : BookingSeriesOccurrence → PolicyCode → List Alternative → SeriesConflict
conflict occurrence code alternatives = record {
  date = occurrence.date;
  start_time = occurrence.start_time;
  end_time = occurrence.end_time;
  code = code;
  suggested_alternatives = alternatives;
}

module _ (config : BookingPolicyConfig) (by_name : List Room → List Room)
    (input : BookingSeriesTemplateInput) (actor : BookingSeriesActor) where
  -- the writes for an occurrence that the policy lets through
  unfoldable pub book_occurrence : ℕ → BookingSeriesOccurrence → Bool → Tx Made
  book_occurrence series_id occurrence auto_confirm = do
    now ← new_date
    id ← fresh_id
    let b = occurrence_row input occurrence actor series_id auto_confirm id now
    insert_booking b
    record_event (occurrence_event occurrence actor series_id auto_confirm b)
    pure (booked id auto_confirm)

  -- `toConflict`, for an error of the policy; any other error is thrown
  unfoldable pub refuse_occurrence : BookingSeriesOccurrence → Error → Tx Made
  refuse_occurrence occurrence (policy_with code before) = do
    now ← new_date
    alternatives ←
        checks (λ db. suggest by_name config now (policy_input input occurrence actor) 5 db)
    pure (refused (conflict occurrence code alternatives))
  refuse_occurrence occurrence e = throw e

  abbrev decided : ℕ → BookingSeriesOccurrence → Result Context → Tx Made
  decided series_id occurrence (ok context) =
      book_occurrence series_id occurrence (auto_confirms none context)
  decided series_id occurrence (err e) = refuse_occurrence occurrence e

  -- one round of the loop
  unfoldable pub create_occurrence : ℕ → BookingSeriesOccurrence → Tx Made
  create_occurrence series_id occurrence = do
    now ← new_date
    verdict ← reads (validate_create config now (policy_input input occurrence actor))
    decided series_id occurrence verdict

  unfoldable pub create_occurrences : ℕ → List BookingSeriesOccurrence → Tx Progress
  create_occurrences series_id [] =
      pure (record { conflicts = []; booking_ids = []; confirmed_booking_ids = [] })
  create_occurrences series_id (o ∷ os) = do
    made ← create_occurrence series_id o
    rest ← create_occurrences series_id os
    pure (add made rest)

  abbrev created_audit : ℕ → ℕ → Tx (Unit {0})
  created_audit series_id count = record_audit (record {
    actor_type = actor_type actor.role;
    actor_id = some actor.user_id;
    correlation_id = actor.correlation_id;
    target_type = TargetType.booking_series;
    target_id = series_id;
    event_type = booking_series_created;
    source_event_id = none;
    booking_id = none;
    room_id = some input.room_id;
    previous_status = none;
    new_status = some (AuditStatus.series SeriesStatus.active);
    metadata = present (
        field (codes "occurrenceCount") (num count) (
          field (codes "startDate") (num (day_number input.start_date)) (
            field (codes "endDate") (num (day_number input.end_date))
              (field (codes "weekdays") (arr (day_items input.weekdays)) end))));
    created_at = none;
  })

  -- what follows the loop
  unfoldable pub finish_create : ℕ → Progress → Tx CreatedSeries
  finish_create series_id progress = do
    throw_if (not (is_empty progress.conflicts)) (series_with series_conflict progress.conflicts)
    created_audit series_id (length progress.booking_ids)
    pure (record {
      series_id = series_id;
      booking_ids = progress.booking_ids;
      confirmed_booking_ids = progress.confirmed_booking_ids;
    })

  -- what follows the check of the plan
  unfoldable pub create_series : List BookingSeriesOccurrence → Tx CreatedSeries
  create_series occurrences = do
    series_id ← fresh_id
    insert_series (series_row input actor series_id)
    progress ← create_occurrences series_id occurrences
    finish_create series_id progress

  unfoldable pub create_tx : List BookingSeriesOccurrence → Tx CreatedSeries
  create_tx occurrences = do assert_pro_entitlement actor.user_id; create_series occurrences
