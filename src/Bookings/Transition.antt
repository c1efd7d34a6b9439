-- ===== src/Bookings/Transition.antt =====
-- `transitionBooking` of api/src/booking/booking.service.ts.
use room_booking.Base.{ℕ, ◌==◌, not, ◌&&◌, Option, none, some, find_first, Text}
use room_booking.Json.{Metadata}
use room_booking.Errors.{
  plain, policy, booking_not_found, invalid_state_transition, database_error, p2025,
}
use room_booking.Store.Rows.{Db, Booking, status_eq}
use room_booking.Store.Tx.{Tx, pure, reads, require, throw_if, ◌>>=◌, ◌>>◌}
use room_booking.Store.Tables.{update_bookings}
use room_booking.Store.World.{Api}
use room_booking.Retry.{with_serializable_retry}
use room_booking.Bookings.Events.{
  NextStatus, status_of, transitions, includes_status, event_for_status, BookingActor, record_event,
}

-- the `data` of a transition; `none` leaves the column as it is
pub record Patch : Type 0 where
  pub approved_at : Option ℕ
  pub approved_by : Option ℕ
  pub rejected_reason : Option Text
  pub cancelled_at : Option ℕ
  pub cancel_reason : Option Text
  pub checked_out_at : Option ℕ

abbrev pub no_patch : Patch
no_patch = record {
  approved_at = none;
  approved_by = none;
  rejected_reason = none;
  cancelled_at = none;
  cancel_reason = none;
  checked_out_at = none;
}

abbrev pub or_keep : {A : Type 0} → Option A → Option A → Option A
or_keep none old = old
or_keep (some new) old = some new

-- `{ ...data, status: newStatus }`
abbrev pub moved : Patch → NextStatus → Booking → Booking
moved patch new b = record b {
  status = status_of new;
  approved_at = or_keep patch.approved_at b.approved_at;
  approved_by = or_keep patch.approved_by b.approved_by;
  rejected_reason = or_keep patch.rejected_reason b.rejected_reason;
  cancelled_at = or_keep patch.cancelled_at b.cancelled_at;
  cancel_reason = or_keep patch.cancel_reason b.cancel_reason;
  checked_out_at = or_keep patch.checked_out_at b.checked_out_at;
}

abbrev pub booking_by_id : ℕ → Db → Option Booking
booking_by_id id db = find_first (λ b. b.id == id) db.bookings

-- the result has no `qrTokenHash`
abbrev pub without_qr_token_hash : Booking → Booking
without_qr_token_hash b = record b { qr_token_hash = none }

unfoldable pub transition_tx : ℕ → NextStatus → BookingActor → Patch → Metadata → Tx Booking
transition_tx id new actor patch metadata = do
  found ← reads (booking_by_id id)
  booking ← require found (plain booking_not_found)
  throw_if (not (includes_status (transitions booking.status) (status_of new)))
      (policy invalid_state_transition)
  count ← update_bookings (λ b. (b.id == id) && status_eq b.status booking.status) (moved patch new)
  throw_if (not (count == 1)) (policy invalid_state_transition)
  record_event (record {
    booking_id = id;
    room_id = booking.room_id;
    actor = actor;
    event_type = event_for_status new;
    previous_status = some booking.status;
    new_status = status_of new;
    metadata = metadata;
  })
  result ← reads (booking_by_id id)
  updated ← require result (database_error p2025)
  pure (without_qr_token_hash updated)

unfoldable pub transition_booking : ℕ → NextStatus → BookingActor → Patch → Metadata → Api Booking
transition_booking id new actor patch metadata =
    with_serializable_retry (transition_tx id new actor patch metadata)
