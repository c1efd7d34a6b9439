-- ===== src/Bookings/Service.antt =====
-- The operations of api/src/booking/booking.service.ts that move a booking through
-- `transitionBooking`.
use room_booking.Base.{
  ℕ, suc, ◌-◌, ◌*◌, ltb, not, ◌&&◌, ◌==◌, Bool, true, false, Option, none, some, List, [], ◌∷◌,
  take, where_rows, Text, codes, if◌then◌else◌,
}
use room_booking.Json.{Metadata, absent, present, field, end, str, num}
use room_booking.Errors.{
  Result, ok, err, Error, plain, policy, policy_with, booking_not_found, unauthorized,
  invalid_state_transition,
}
use room_booking.Store.Rows.{
  Booking, confirmed, cancelled, checked_in, status_eq, ActorType, Role, admin_role, role_eq,
}
use room_booking.Store.World.{
  World, Api, pure, throw, queries, require, notify, NotificationType, ◌>>=◌, ◌>>◌,
}
use room_booking.CheckIn.{check_in_late_minutes}
use room_booking.Policy.{BookingPolicyConfig}
use room_booking.Bookings.Events.{
  BookingActor, to_cancelled, to_confirmed, to_rejected, to_completed, to_expired, transitions,
  includes_status, user_actor,
}
use room_booking.Bookings.Transition.{no_patch, booking_by_id, transition_booking}
use room_booking.Bookings.Waitlist.{promote_waitlist}

abbrev pub system_actor : BookingActor
system_actor = record {
  actor_type = ActorType.system;
  id = none;
  correlation_id = none;
  metadata = absent;
}

-- the actor of the promotion that a release of `id` triggers
abbrev release_actor : ℕ → Option ℕ → BookingActor
release_actor id correlation_id = record {
  actor_type = ActorType.system;
  id = none;
  correlation_id = correlation_id;
  metadata = present (
      field (codes "source") (str (codes "booking-release"))
        (field (codes "triggerBookingId") (num id) end));
}

abbrev admin_actor : ℕ → Option ℕ → BookingActor
admin_actor admin_id correlation_id = record {
  actor_type = ActorType.admin;
  id = some admin_id;
  correlation_id = correlation_id;
  metadata = absent;
}

-- `cancelReason ? { reason: cancelReason } : undefined`: an empty text counts as none
abbrev reason_metadata : Option Text → Metadata
reason_metadata none = absent
reason_metadata (some []) = absent
reason_metadata (some (c ∷ cs)) = present (field (codes "reason") (str (c ∷ cs)) end)

-- `if (bad) throw e`
abbrev pub throw_if : Bool → Error → Api (Unit {0})
throw_if true e = throw e
throw_if false e = pure tt

-- `new Date()` outside a transaction
abbrev now_of : Api ℕ
now_of = queries (λ db. db.clock)

module _ (config : BookingPolicyConfig) where
  unfoldable pub cancel_booking : ℕ → ℕ → Role → Option Text → Option ℕ → Api Booking
  cancel_booking id user_id role cancel_reason correlation_id = do
    found ← queries (booking_by_id id)
    booking ← require found (plain booking_not_found)
    throw_if (not (role_eq role admin_role) && not (booking.user_id == user_id))
        (plain unauthorized)
    now ← now_of
    updated ←
        transition_booking id to_cancelled (user_actor user_id (some role) correlation_id)
          (record no_patch { cancelled_at = some now; cancel_reason = cancel_reason })
          (reason_metadata cancel_reason)
    promote_waitlist config booking.room_id booking.start_time booking.end_time
          (release_actor booking.id correlation_id)
        >>= λ _. pure updated

  unfoldable pub reject_booking : ℕ → ℕ → Text → Option ℕ → Api Booking
  reject_booking id admin_id reason correlation_id = do
    updated ←
        transition_booking id to_rejected (admin_actor admin_id correlation_id)
          (record no_patch { rejected_reason = some reason })
          (present (field (codes "reason") (str reason) end))
    notify NotificationType.booking_rejected updated.id
    promote_waitlist config updated.room_id updated.start_time updated.end_time
          (release_actor updated.id correlation_id)
        >>= λ _. pure updated

  unfoldable pub force_delete_booking : ℕ → ℕ → Option ℕ → Api (Unit {0})
  unfolding cancel_booking
  force_delete_booking id admin_id correlation_id = do
    found ← queries (booking_by_id id)
    booking ← require found (plain booking_not_found)
    throw_if (not (includes_status (transitions booking.status) cancelled))
        (policy invalid_state_transition)
    cancel_booking id admin_id admin_role (some (codes "Cancelled by administrator")) correlation_id
        >>= λ _. pure tt

unfoldable pub approve_booking : ℕ → ℕ → Option ℕ → Api Booking
approve_booking id admin_id correlation_id = do
  now ← now_of
  updated ←
      transition_booking id to_confirmed (admin_actor admin_id correlation_id)
        (record no_patch { approved_at = some now; approved_by = some admin_id }) absent
  notify NotificationType.booking_approved updated.id
  pure updated

unfoldable pub check_out : ℕ → BookingActor → Api Booking
check_out id actor = do
  now ← now_of
  transition_booking id to_completed actor (record no_patch { checked_out_at = some now }) absent

-- the `catch` of the loops below: a booking that has moved on meanwhile is passed over
abbrev pub is_stale_move : Error → Bool
is_stale_move (policy_with invalid_state_transition alternatives) = true
is_stale_move _ = false

abbrev pub count_move : Result Booking × World → Api ℕ → Result ℕ × World
count_move (ok b, w) rest = (rest >>= λ n. pure (suc n)) w
count_move (err e, w) rest = if is_stale_move e then rest w else (err e, w)

-- the loop of `expireDueBookings` and of `completeDueBookings`
unfoldable pub move_all : (ℕ → Api Booking) → List Booking → Api ℕ
move_all move [] w = (ok 0, w)
move_all move (b ∷ bs) w = count_move (move b.id w) (move_all move bs)

-- The clock stands later than twelve minutes after 1970-01-01T00:00Z.
unfoldable pub expire_due_bookings : ℕ → BookingActor → Api ℕ
unfolding move_all
expire_due_bookings now actor = do
  due ← queries (λ db. take 200 (
      where_rows
        (λ b.
          status_eq b.status confirmed && ltb b.start_time (now - check_in_late_minutes * 60000))
        db.bookings))
  move_all (λ id. transition_booking id to_expired actor no_patch absent) due

unfoldable pub complete_due_bookings : ℕ → BookingActor → Api ℕ
unfolding move_all check_out
complete_due_bookings now actor = do
  due ← queries (λ db.
      take 200 (where_rows (λ b. status_eq b.status checked_in && ltb b.end_time now) db.bookings))
  move_all (λ id. check_out id actor) due
