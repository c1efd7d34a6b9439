-- ===== src/Series/Cancelling.antt =====
-- `cancelOccurrence` and `cancelSeries` of api/src/booking/booking-series.service.ts, with the
-- checks of a series that they share.
--
-- A calendar date of a row is the instant at which it starts in UTC.
pub mod Kept
use room_booking.Base.{
  ℕ, ◌-◌, ◌*◌, ◌/◌, ◌==◌, ltb, leb, not, ◌&&◌, ◌||◌, Bool, true, false, Option, none, some, is_some,
  or_else, List, [], ◌∷◌, length, where_rows, find_first, Text, codes, if◌then◌else◌,
}
use room_booking.Base.Sort.{sort_by}
use room_booking.Errors.{
  Error, Result, series, series_not_found, series_unauthorized, occurrence_not_found,
  invalid_series_scope, database_error, p2025, ok, pro_required,
}
use room_booking.Json.{Metadata, Json, absent, present, field, end, num, str, null}
use room_booking.Store.Rows.{
  Db, Booking, cancelled, User, is_pro, BookingSeries, SeriesStatus, Role, role_eq, admin_role,
  ActorType, EventType, TargetType, AuditStatus, booking_series_cancelled,
  booking_series_future_cancelled,
}
use room_booking.Store.Tx.{Tx, pure, throw, reads, require, throw_if, new_date, ◌>>=◌, ◌>>◌}
use room_booking.Store.Tables.{update_series, record_audit}
use room_booking.Store.World.{Api}
use room_booking.Retry.{with_serializable_retry}
use room_booking.Bookings.Events.{BookingActor, EventInput, record_event}
use room_booking.Bookings.Transition.{booking_by_id, without_qr_token_hash}
use room_booking.Bookings.Cancelling.{update_booking, cancel_bookings, cancelled_event}
use room_booking.Subscription.Entitlement.{is_upcoming}

pub record BookingSeriesActor : Type 0 where
  pub user_id : ℕ
  pub role : Role
  pub correlation_id : Option ℕ

abbrev pub actor_type : Role → ActorType
actor_type role = if role_eq role admin_role then ActorType.admin else ActorType.user

-- the actor of an event and of an audit row
abbrev pub event_actor : BookingSeriesActor → BookingActor
event_actor actor = record {
  actor_type = actor_type actor.role;
  id = some actor.user_id;
  correlation_id = actor.correlation_id;
  metadata = absent;
}

abbrev pub series_by_id : ℕ → Db → Option BookingSeries
series_by_id id db = find_first (λ s. s.id == id) db.series

unfoldable pub assert_owner : BookingSeries → BookingSeriesActor → Tx (Unit {0})
assert_owner s actor =
    throw_if (not (role_eq actor.role admin_role) && not (s.user_id == actor.user_id))
      (series series_unauthorized)

unfoldable pub find_owned_series : ℕ → BookingSeriesActor → Tx BookingSeries
find_owned_series series_id actor = do
  found ← reads (series_by_id series_id)
  s ← require found (series series_not_found)
  assert_owner s actor
  pure s

abbrev is_of : ℕ → Option ℕ → Bool
is_of series_id none = false
is_of series_id (some id) = id == series_id

-- `findFirst({ where: { id, seriesId } })`
abbrev pub occurrence : ℕ → ℕ → Db → Option Booking
occurrence series_id id db =
    find_first (λ b. (b.id == id) && is_of series_id b.series_id) db.bookings

-- the `data` of the cancellation of one occurrence
abbrev pub cancels_occurrence : ℕ → Text → Booking → Booking
cancels_occurrence now reason b = record b {
  status = cancelled;
  cancelled_at = some now;
  cancel_reason = some reason;
  is_series_exception = true;
  qr_token_hash = none;
  qr_expires_at = none;
}

abbrev pub occurrence_metadata : ℕ → Text → Booking → Metadata
occurrence_metadata series_id reason b = present (
    field (codes "seriesId") (num series_id)
      (field (codes "reason") (str reason) (field (codes "scope") (str (codes "ONLY_THIS")) end)))

-- the writes of a cancellation
unfoldable pub cancel_single : ℕ → ℕ → Text → BookingSeriesActor → Booking → Tx (Unit {0})
cancel_single now series_id reason actor b = do
  update_booking b.id (cancels_occurrence now reason)
  record_event
      (cancelled_event now reason (event_actor actor) (occurrence_metadata series_id reason) b)

-- `findUniqueOrThrow`
unfoldable pub read_back : ℕ → Tx Booking
read_back id = do
  result ← reads (booking_by_id id)
  updated ← require result (database_error p2025)
  pure (without_qr_token_hash updated)

-- what is left to do with the occurrence that was looked up
unfoldable pub cancel_found : ℕ → BookingSeriesActor → Text → Option Booking → Tx Booking
cancel_found series_id actor reason none = throw (series occurrence_not_found)
cancel_found series_id actor reason (some b) = do
  throw_if (not (is_upcoming b.status)) (series invalid_series_scope)
  now ← new_date
  cancel_single now series_id reason actor b
  read_back b.id

unfoldable pub cancel_occurrence_tx : ℕ → ℕ → BookingSeriesActor → Text → Tx Booking
cancel_occurrence_tx series_id booking_id actor reason = do
  s ← find_owned_series series_id actor
  found ← reads (occurrence series_id booking_id)
  cancel_found series_id actor reason found

unfoldable pub cancel_occurrence : ℕ → ℕ → BookingSeriesActor → Option Text → Api Booking
cancel_occurrence series_id booking_id actor reason = with_serializable_retry (
    cancel_occurrence_tx series_id booking_id actor
      (or_else reason (codes "Recurring occurrence cancelled")))

pub data Scope : Type 0 where
  future entire : Scope

abbrev pub scope_reason : Scope → Text
scope_reason future = codes "Recurring series future cancellation"
scope_reason entire = codes "Recurring series entire cancellation"

abbrev scope_text : Scope → Text
scope_text future = codes "FUTURE"
scope_text entire = codes "ENTIRE"

abbrev pub scope_metadata : ℕ → Scope → Booking → Metadata
scope_metadata series_id scope b =
    present (
      field (codes "seriesId") (num series_id) (field (codes "scope") (str (scope_text scope)) end))

-- the date from which occurrences are cancelled, if not all are
unfoldable pub pivot_date : ℕ → Scope → Option ℕ → Tx (Option ℕ)
pivot_date series_id entire from_booking = pure none
pivot_date series_id future none = throw (series invalid_series_scope)
pivot_date series_id future (some id) = do
  pivot ← reads (occurrence series_id id)
  b ← require pivot (series occurrence_not_found)
  date ← require b.occurrence_date (series occurrence_not_found)
  pure (some date)

abbrev is_from : Option ℕ → Option ℕ → Bool
is_from none date = true
is_from (some pivot) none = false
is_from (some pivot) (some date) = leb pivot date

-- the occurrences that are cancelled
abbrev pub is_cancellable : ℕ → Option ℕ → Booking → Bool
is_cancellable series_id pivot b =
    is_of series_id b.series_id && is_upcoming b.status && is_from pivot b.occurrence_date

abbrev pub is_undated : Booking → ℕ
is_undated b = if is_some b.occurrence_date then 0 else 1

-- in the order of their dates, those without one last
abbrev pub cancellable : ℕ → Option ℕ → Db → List Booking
cancellable series_id pivot db = sort_by is_undated (
    sort_by (λ b. or_else b.occurrence_date 0)
      (where_rows (is_cancellable series_id pivot) db.bookings))

-- the `data` of the series: it is cancelled, or ends on the day before the pivot
abbrev pub closes : ℕ → Option ℕ → BookingSeries → BookingSeries → BookingSeries
closes now none s row = record row { status = SeriesStatus.cancelled; cancelled_at = some now }
closes now (some pivot) s row =
    if leb pivot s.start_date
    then record row { status = SeriesStatus.cancelled; cancelled_at = some now }
    else record row { end_date = (pivot / 86400000 - 1) * 86400000 }

abbrev date_json : Option ℕ → Json
date_json none = null
date_json (some date) = num (date / 86400000)

pub record CancelledSeries : Type 0 where
  pub series : BookingSeries
  pub cancelled_occurrences : ℕ

-- what follows the cancellation of the occurrences
unfoldable pub close_series :
    ℕ → Scope → BookingSeriesActor → BookingSeries → Option ℕ → ℕ → ℕ → Tx CancelledSeries
close_series series_id scope actor s pivot now cancelled_occurrences = do
  count ← update_series (λ row. row.id == series_id) (closes now pivot s)
  found ← reads (series_by_id series_id)
  updated ← require found (database_error p2025)
  record_audit (record {
    actor_type = actor_type actor.role;
    actor_id = some actor.user_id;
    correlation_id = actor.correlation_id;
    target_type = TargetType.booking_series;
    target_id = series_id;
    event_type = elim scope [
      | entire ↦ booking_series_cancelled
      | future ↦ booking_series_future_cancelled
    ];
    source_event_id = none;
    booking_id = none;
    room_id = some s.room_id;
    previous_status = some (AuditStatus.series s.status);
    new_status = some (AuditStatus.series updated.status);
    metadata = present (
        field (codes "cancelledOccurrences") (num cancelled_occurrences)
          (field (codes "fromDate") (date_json pivot) end));
    created_at = none;
  })
  pure (record { series = updated; cancelled_occurrences = cancelled_occurrences })

-- the writes of the cancellation of a series
unfoldable pub cancel_from :
    ℕ → Scope → BookingSeriesActor → BookingSeries → Option ℕ → Tx CancelledSeries
cancel_from series_id scope actor s pivot = do
  bookings ← reads (cancellable series_id pivot)
  now ← new_date
  cancel_bookings now (scope_reason scope) (event_actor actor) (scope_metadata series_id scope)
      bookings
  close_series series_id scope actor s pivot now (length bookings)

unfoldable pub cancel_series_tx : ℕ → Scope → BookingSeriesActor → Option ℕ → Tx CancelledSeries
cancel_series_tx series_id scope actor from_booking = do
  s ← find_owned_series series_id actor
  pivot ← pivot_date series_id scope from_booking
  cancel_from series_id scope actor s pivot

unfoldable pub cancel_series : ℕ → Scope → BookingSeriesActor → Option ℕ → Api CancelledSeries
cancel_series series_id scope actor from_booking =
    with_serializable_retry (cancel_series_tx series_id scope actor from_booking)
