-- ===== src/Bookings/Calls.antt =====
-- The calls of `BookingService` of api/src/booking/booking.service.ts that write, the end of Pro
-- access of api/src/subscription/recurring-entitlement.service.ts, and the cancellations of
-- api/src/booking/booking-series.service.ts, in any order. Their transactions are serializable, only
-- read, start with their one conditional update, or are cut where others may commit in between. The
-- events of the payment provider are not among them: their transaction is none of these.
--
-- `call` runs one operation; a reply, an error also, goes back to the client, and what stays is
-- the world.
use room_booking.Base.{ℕ, Option, List, [], ◌∷◌, Text}
use room_booking.Store.Rows.{Room, Role}
use room_booking.Store.World.{World}
use room_booking.Policy.{BookingPolicyConfig}
use room_booking.Bookings.Events.{BookingActor}
use room_booking.Bookings.Create.{CreateBookingData, create_booking}
use room_booking.Bookings.Visits.{
  DeviceSession, WalkInData, generate_qr, check_in_by_device, create_walk_in,
}
use room_booking.Bookings.Waitlist.{join_waitlist, leave_waitlist, promote_due_waitlist}
use room_booking.Bookings.Waitlist.Entries.{WaitlistData}
use room_booking.Bookings.Service.{
  cancel_booking, approve_booking, reject_booking, force_delete_booking, check_out,
  expire_due_bookings, complete_due_bookings,
}
use room_booking.Subscription.Access.{expire_due_pro_access}
use room_booking.Series.Cancelling.{BookingSeriesActor, Scope, cancel_occurrence, cancel_series}

pub data Call : Type 0 where
  create : CreateBookingData → Call
  approve : ℕ → ℕ → Option ℕ → Call
  reject : ℕ → ℕ → Text → Option ℕ → Call
  cancel : ℕ → ℕ → Role → Option Text → Option ℕ → Call
  force_delete : ℕ → ℕ → Option ℕ → Call
  issue_qr : ℕ → ℕ → ℕ → Role → ℕ → Option ℕ → Call
  visit : ℕ → DeviceSession → Option ℕ → ℕ → Call
  walk_in : WalkInData → ℕ → Call
  leave_room : ℕ → BookingActor → Call
  join : WaitlistData → Call
  leave : ℕ → ℕ → Option ℕ → Call
  promote_due expire_due complete_due : ℕ → BookingActor → Call
  expire_pro : ℕ → Call
  drop_occurrence : ℕ → ℕ → BookingSeriesActor → Option Text → Call
  drop_series : ℕ → Scope → BookingSeriesActor → Option ℕ → Call

module _ (config : BookingPolicyConfig) (by_name : List Room → List Room) (hash : ℕ → ℕ) where
  unfoldable pub call : Call → World → World
  call (create data_in) w = (create_booking config by_name data_in w).1
  call (approve id admin_id correlation_id) w = (approve_booking id admin_id correlation_id w).1
  call (reject id admin_id reason correlation_id) w =
      (reject_booking config id admin_id reason correlation_id w).1
  call (cancel id user_id role reason correlation_id) w =
      (cancel_booking config id user_id role reason correlation_id w).1
  call (force_delete id admin_id correlation_id) w =
      (force_delete_booking config id admin_id correlation_id w).1
  call (issue_qr qr_token id user_id role now correlation_id) w =
      (generate_qr hash qr_token id user_id role now correlation_id w).1
  call (visit qr_token device correlation_id now) w =
      (check_in_by_device hash qr_token device correlation_id now w).1
  call (walk_in data_in now) w = (create_walk_in config data_in now w).1
  call (leave_room id actor) w = (check_out id actor w).1
  call (join data_in) w = (join_waitlist config data_in w).1
  call (leave id user_id correlation_id) w = (leave_waitlist id user_id correlation_id w).1
  call (promote_due now actor) w = (promote_due_waitlist config now actor w).1
  call (expire_due now actor) w = (expire_due_bookings now actor w).1
  call (complete_due now actor) w = (complete_due_bookings now actor w).1
  call (expire_pro now) w = (expire_due_pro_access now w).1
  call (drop_occurrence series_id booking_id actor reason) w =
      (cancel_occurrence series_id booking_id actor reason w).1
  call (drop_series series_id scope actor from_booking) w =
      (cancel_series series_id scope actor from_booking w).1

  -- a history of calls, the first one first
  unfoldable pub serve : List Call → World → World
  unfolding call
  serve [] w = w
  serve (c ∷ cs) w = serve cs (call c w)
