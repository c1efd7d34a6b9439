-- ===== src/Bookings/Cancelling.antt =====
-- The loop that cancels the bookings of a list one by one, each with its event, as
-- `cancelForUsers` of api/src/subscription/recurring-entitlement.service.ts has it.
pub mod Batch
use room_booking.Base.{ℕ, ◌==◌, ◌∷◌, List, [], Option, none, some, Text}
use room_booking.Json.{Metadata, absent}
use room_booking.Errors.{database_error, p2025}
use room_booking.Store.Rows.{Booking, cancelled, ActorType, EventType}
use room_booking.Store.Tx.{Tx, pure, throw_if, ◌>>=◌, ◌>>◌}
use room_booking.Store.Tables.{update_bookings}
use room_booking.Bookings.Events.{BookingActor, EventInput, record_event}

-- `tx.booking.update`: a row that is not there is an error
unfoldable pub update_booking : ℕ → (Booking → Booking) → Tx (Unit {0})
update_booking id f = do
  count ← update_bookings (λ b. b.id == id) f
  throw_if (count == 0) (database_error p2025)

-- the actor `{ type: "SYSTEM" }`
abbrev pub system : BookingActor
system = record {
  actor_type = ActorType.system;
  id = none;
  correlation_id = none;
  metadata = absent;
}

-- the `data` of a cancellation
abbrev pub cancels : ℕ → Text → Booking → Booking
cancels now reason b = record b {
  status = cancelled;
  cancelled_at = some now;
  cancel_reason = some reason;
  qr_token_hash = none;
  qr_expires_at = none;
}

module _ (now : ℕ) (reason : Text) (actor : BookingActor) (metadata : Booking → Metadata) where
  abbrev pub cancelled_event : Booking → EventInput
  cancelled_event b = record {
    booking_id = b.id;
    room_id = b.room_id;
    actor = actor;
    event_type = EventType.cancelled;
    previous_status = some b.status;
    new_status = cancelled;
    metadata = metadata b;
  }

  unfoldable pub cancel_bookings : List Booking → Tx (Unit {0})
  cancel_bookings [] = pure tt
  cancel_bookings (b ∷ bs) = do
    update_booking b.id (cancels now reason)
    record_event (cancelled_event b)
    cancel_bookings bs
