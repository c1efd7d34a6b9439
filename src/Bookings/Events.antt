-- ===== src/Bookings/Events.antt =====
-- `TRANSITIONS`, `EVENT_FOR_STATUS`, `recordEvent` and `userActor` of
-- api/src/booking/booking.service.ts.
use room_booking.Base.{ℕ, ◌||◌, Bool, false, Option, none, some, List, [], ◌∷◌, if◌then◌else◌}
use room_booking.Json.{Metadata, absent, fields_of, non_empty, spread}
use room_booking.Store.Rows.{
  BookingStatus, pending, confirmed, checked_in, completed, cancelled, rejected, expired, status_eq,
  Role, role_eq, admin_role, ActorType, EventType, BookingEvent, of_booking, TargetType,
  AuditStatus,
}
use room_booking.Store.Tx.{Tx, fresh_id, new_date, ◌>>=◌, ◌>>◌}
use room_booking.Store.Tables.{record_audit}
use room_booking.Errors.{ok}

-- a status that a booking can be moved to: all but `PENDING`
pub data NextStatus : Type 0 where
  to_confirmed to_checked_in to_completed to_cancelled to_rejected to_expired : NextStatus

abbrev pub status_of : NextStatus → BookingStatus
status_of to_confirmed = confirmed
status_of to_checked_in = checked_in
status_of to_completed = completed
status_of to_cancelled = cancelled
status_of to_rejected = rejected
status_of to_expired = expired

abbrev pub transitions : BookingStatus → List BookingStatus
transitions pending = confirmed ∷ rejected ∷ cancelled ∷ []
transitions confirmed = checked_in ∷ cancelled ∷ expired ∷ []
transitions checked_in = completed ∷ []
transitions completed = []
transitions cancelled = []
transitions rejected = []
transitions expired = []

abbrev pub includes_status : List BookingStatus → BookingStatus → Bool
includes_status [] s = false
includes_status (t ∷ ts) s = status_eq t s || includes_status ts s

abbrev pub event_for_status : NextStatus → EventType
event_for_status to_confirmed = EventType.approved
event_for_status to_checked_in = EventType.checked_in
event_for_status to_completed = EventType.completed
event_for_status to_cancelled = EventType.cancelled
event_for_status to_rejected = EventType.rejected
event_for_status to_expired = EventType.expired

pub record BookingActor : Type 0 where
  pub actor_type : ActorType
  pub id : Option ℕ
  pub correlation_id : Option ℕ
  pub metadata : Metadata

-- the argument of `recordEvent`
pub record EventInput : Type 0 where
  pub booking_id : ℕ
  pub room_id : ℕ
  pub actor : BookingActor
  pub event_type : EventType
  pub previous_status : Option BookingStatus
  pub new_status : BookingStatus
  pub metadata : Metadata

abbrev booking_status : Option BookingStatus → Option AuditStatus
booking_status none = none
booking_status (some s) = some (AuditStatus.booking s)

-- `{ ...(event.actor.metadata ?? {}), ...(event.metadata ?? {}) }`, undefined if it has no key
abbrev merged_metadata : EventInput → Metadata
merged_metadata event =
    non_empty (spread (fields_of event.actor.metadata) (fields_of event.metadata))

abbrev pub event_row : EventInput → ℕ → ℕ → BookingEvent
event_row event id now = record {
  id = id;
  booking_id = event.booking_id;
  room_id = event.room_id;
  actor_type = event.actor.actor_type;
  actor_id = event.actor.id;
  event_type = event.event_type;
  previous_status = event.previous_status;
  new_status = event.new_status;
  metadata = merged_metadata event;
  correlation_id = event.actor.correlation_id;
  created_at = now;
}

-- `tx.bookingEvent.create`
insert_event : BookingEvent → Tx (Unit {0})
insert_event e db = ok (tt, record db { booking_events = e ∷ db.booking_events })

unfoldable pub record_event : EventInput → Tx (Unit {0})
unfolding insert_event record_audit
record_event event = do
  id ← fresh_id
  now ← new_date
  insert_event (event_row event id now)
  record_audit (record {
    actor_type = event.actor.actor_type;
    actor_id = event.actor.id;
    correlation_id = event.actor.correlation_id;
    target_type = TargetType.booking;
    target_id = event.booking_id;
    event_type = of_booking event.event_type;
    source_event_id = some id;
    booking_id = some event.booking_id;
    room_id = some event.room_id;
    previous_status = booking_status event.previous_status;
    new_status = some (AuditStatus.booking event.new_status);
    metadata = merged_metadata event;
    created_at = some now;
  })

-- `role === "adminRole"`
abbrev pub is_admin : Option Role → Bool
is_admin none = false
is_admin (some r) = role_eq r admin_role

abbrev pub user_actor : ℕ → Option Role → Option ℕ → BookingActor
user_actor user_id role correlation_id = record {
  actor_type = if is_admin role then ActorType.admin else ActorType.user;
  id = some user_id;
  correlation_id = correlation_id;
  metadata = absent;
}
