-- ===== src/Store/Tables.antt =====
-- Operations on the tables: what the queries of the services come to, and the constraints that
-- api/prisma/migrations/20260819000000_booking_correctness_phase1 puts on `bookings`.
use room_booking.Base.{
  ◌≡◌, ◌<◌, ◌≤◌, arith, ℕ, ◌==◌, ltb, Bool, true, false, ◌&&◌, ◌||◌, Option, none, some, ◌∷◌, leb,
  or_else, find_first, count_rows, update_rows, if◌then◌else◌,
}
use room_booking.Errors.{ok, err, database_error, c23p01, other_code}
use room_booking.Json.{Metadata}
use room_booking.Audit.{sanitize_audit_metadata}
use room_booking.Store.Rows.{
  Db, Booking, BookingStatus, pending, confirmed, checked_in, ActorType, AuditEventType,
  AuditStatus, TargetType, WaitlistEntry, User, BookingSeries, BackgroundJob,
}
use room_booking.Store.Tx.{Tx, fresh_id, new_date, ◌>>=◌}

-- `ACTIVE_BOOKING_STATUSES`, also the `WHERE` of both exclusion constraints
abbrev pub is_active : BookingStatus → Bool
is_active pending = true
is_active confirmed = true
is_active checked_in = true
is_active _ = false

-- Two rows that an exclusion constraint keeps apart: active, of one room or of one user, and with
-- half-open time ranges that meet.
abbrev pub clash : Booking → Booking → Bool
clash b c =
    is_active b.status
    && is_active c.status
    && (b.room_id == c.room_id || b.user_id == c.user_id)
    && ltb b.start_time c.end_time
    && ltb c.start_time b.end_time

-- `tx.booking.create`: the checks and the exclusion constraints of the table, then the row
unfoldable pub insert_booking : Booking → Tx (Unit {0})
insert_booking b db =
    if not_valid
    then err (database_error (other_code 23514))
    else elim (find_first (clash b) db.bookings) [
      | some c ↦ err (database_error c23p01)
      | none ↦ ok (tt, record db { bookings = b ∷ db.bookings })
    ]
  where
    not_valid : Bool
    not_valid = leb b.end_time b.start_time || b.attendees == 0

pub insert_booking-effect :
    (b : Booking) (db db' : Db) (u : Unit {0})
    → insert_booking b db ≡ ok (u, db')
    → (find_first (clash b) db.bookings ≡ none)
      × ((b.start_time < b.end_time) × (1 ≤ b.attendees))
      × (db' ≡ record db { bookings = b ∷ db.bookings })
unfolding insert_booking
insert_booking-effect b db db' u h = ground arith

-- `tx.booking.updateMany`: the number of rows that the condition picks
unfoldable pub update_bookings : (Booking → Bool) → (Booking → Booking) → Tx ℕ
update_bookings p f db =
    ok (count_rows p db.bookings, record db { bookings = update_rows p f db.bookings })

-- `tx.waitlistEntry.updateMany`
unfoldable pub update_waitlist : (WaitlistEntry → Bool) → (WaitlistEntry → WaitlistEntry) → Tx ℕ
update_waitlist p f db =
    ok (count_rows p db.waitlist, record db { waitlist = update_rows p f db.waitlist })

-- `tx.user.updateMany`
unfoldable pub update_users : (User → Bool) → (User → User) → Tx ℕ
update_users p f db = ok (count_rows p db.users, record db { users = update_rows p f db.users })

-- `tx.bookingSeries.updateMany`
unfoldable pub update_series : (BookingSeries → Bool) → (BookingSeries → BookingSeries) → Tx ℕ
update_series p f db = ok (count_rows p db.series, record db { series = update_rows p f db.series })

-- an update of `background_jobs`: the number of rows that the condition picks
unfoldable pub update_jobs : (BackgroundJob → Bool) → (BackgroundJob → BackgroundJob) → Tx ℕ
update_jobs p f db = ok (count_rows p db.jobs, record db { jobs = update_rows p f db.jobs })

-- an argument of `AuditService.record`
pub record AuditRecord : Type 0 where
  pub actor_type : ActorType
  pub actor_id : Option ℕ
  pub correlation_id : Option ℕ
  pub target_type : TargetType
  pub target_id : ℕ
  pub event_type : AuditEventType
  pub source_event_id : Option ℕ
  pub booking_id : Option ℕ
  pub room_id : Option ℕ
  pub previous_status : Option AuditStatus
  pub new_status : Option AuditStatus
  pub metadata : Metadata
  pub created_at : Option ℕ

-- `AuditService.record`
unfoldable pub record_audit : AuditRecord → Tx (Unit {0})
record_audit event = do
  id ← fresh_id
  now ← new_date
  λ db. ok (
    tt,
    record db {
      audit_logs =
          record {
            id = id;
            source_event_id = event.source_event_id;
            actor_type = event.actor_type;
            actor_id = event.actor_id;
            target_type = event.target_type;
            target_id = event.target_id;
            booking_id = event.booking_id;
            room_id = event.room_id;
            event_type = event.event_type;
            previous_status = event.previous_status;
            new_status = event.new_status;
            metadata = sanitize_audit_metadata event.metadata;
            correlation_id = event.correlation_id;
            created_at = or_else event.created_at now;
          }
          ∷ db.audit_logs;
    },
  )
