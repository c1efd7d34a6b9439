-- ===== src/Bookings/Create.antt =====
-- `createBooking` and `createWalkIn` of api/src/booking/booking.service.ts.
use room_booking.Base.{
  ℕ, ◌||◌, Bool, true, false, Option, none, some, List, Text, codes, or_else, if◌then◌else◌,
}
use room_booking.Json.{Metadata, absent, present, end, field, bool}
use room_booking.Errors.{
  Result, ok, err, Error, policy, policy_with, concurrent_booking_conflict, room_overlap,
  user_overlap, PolicyCode, Alternative,
}
use room_booking.Store.Rows.{
  Room, Booking, BookingStatus, pending, confirmed, EventType, Role, teacher_role, admin_role,
  role_eq, status_eq,
}
use room_booking.Store.Tx.{Tx, pure, checks, fresh_id, new_date, ◌>>=◌, ◌>>◌}
use room_booking.Store.Tables.{insert_booking}
use room_booking.Store.World
use room_booking.Store.World.{World, Api, transaction, NotificationType}
use room_booking.Retry.{with_serializable_retry, is_exclusion_constraint_error}
use room_booking.Policy.{BookingPolicyConfig, BookingPolicyInput, Request, Context, validate_create}
use room_booking.Alternatives.{suggest}
use room_booking.Bookings.Events.{BookingActor, EventInput, record_event, user_actor}
use room_booking.Bookings.Transition.{without_qr_token_hash}

pub record CreateBookingData : Type 0 where
  pub user_id : ℕ
  pub room_id : ℕ
  pub start_time : Option ℕ
  pub end_time : Option ℕ
  pub attendees : Option ℕ
  pub purpose : Option Text
  pub auto_confirm : Option Bool
  pub approved_by : Option ℕ
  pub user_role : Option Role
  pub actor : Option BookingActor

-- `data` as the argument of `validateCreate`
abbrev pub policy_input : CreateBookingData → BookingPolicyInput
policy_input data_in = record {
  user_id = data_in.user_id;
  room_id = data_in.room_id;
  start_time = data_in.start_time;
  end_time = data_in.end_time;
  attendees = data_in.attendees;
  user_role = data_in.user_role;
  exclude_booking_id = none;
  allow_room_conflict = false;
}

-- `data.autoConfirm ?? (room.autoApprove || ["teacherRole", "adminRole"].includes(userRole))`
abbrev pub auto_confirms : Option Bool → Context → Bool
auto_confirms choice context = or_else choice (
    context.room.auto_approve
    || role_eq teacher_role context.user_role
    || role_eq admin_role context.user_role)

abbrev pub when : {A : Type 0} → Bool → A → Option A
when true a = some a
when false a = none

-- a row with the columns that a booking of any kind is created with
abbrev pub new_row : Request → ℕ → ℕ → Option Text → BookingStatus → Booking
new_row r id now purpose status = record {
  id = id;
  user_id = r.user_id;
  room_id = r.room_id;
  series_id = none;
  occurrence_date = none;
  is_series_exception = false;
  start_time = r.start_time;
  end_time = r.end_time;
  attendees = r.attendees;
  purpose = purpose;
  status = status;
  rejected_reason = none;
  approved_at = none;
  approved_by = none;
  qr_token_hash = none;
  qr_expires_at = none;
  walk_in_requester_name = none;
  walk_in_requester_reference = none;
  checked_in_at = none;
  checked_out_at = none;
  cancelled_at = none;
  cancel_reason = none;
  reminder_30_sent_at = none;
  reminder_checkin_sent_at = none;
  created_at = now;
}

abbrev pub auto_confirmed_metadata : Metadata
auto_confirmed_metadata = present (field (codes "autoConfirmed") (bool true) end)

abbrev pub created_row : CreateBookingData → Request → Bool → ℕ → ℕ → Booking
created_row data_in r auto_confirm id now =
    record (new_row r id now data_in.purpose (if auto_confirm then confirmed else pending)) {
      approved_at = when auto_confirm now;
      approved_by = when auto_confirm (or_else data_in.approved_by data_in.user_id);
    }

abbrev pub created_event : CreateBookingData → Bool → Booking → EventInput
created_event data_in auto_confirm created = record {
  booking_id = created.id;
  room_id = created.room_id;
  actor = or_else data_in.actor (user_actor data_in.user_id data_in.user_role none);
  event_type = EventType.created;
  previous_status = none;
  new_status = created.status;
  metadata = if auto_confirm then auto_confirmed_metadata else absent;
}

module _ (config : BookingPolicyConfig) where
  -- the body of the transaction
  unfoldable pub create_booking_tx : CreateBookingData → Tx Booking
  create_booking_tx data_in = do
    now ← new_date
    context ← checks (validate_create config now (policy_input data_in))
    let auto_confirm = auto_confirms data_in.auto_confirm context
    id ← fresh_id
    let created = created_row data_in context.input auto_confirm id now
    insert_booking created
    record_event (created_event data_in auto_confirm created)
    pure created

  -- `conflict` of the `catch`
  unfoldable pub conflict_of : Error → Error
  conflict_of e = if is_exclusion_constraint_error e then policy concurrent_booking_conflict else e

  abbrev pub is_overlap_code : PolicyCode → Bool
  is_overlap_code room_overlap = true
  is_overlap_code user_overlap = true
  is_overlap_code concurrent_booking_conflict = true
  is_overlap_code _ = false

  module _ (by_name : List Room → List Room) where
    -- an error of the inner `try` leaves the alternatives empty
    abbrev pub rethrow_with :
        PolicyCode → List Alternative → Result (List Alternative) × World → Result Booking × World
    rethrow_with code before (ok alternatives, w) = (err (policy_with code alternatives), w)
    rethrow_with code before (err e, w) = (err (policy_with code before), w)

    unfoldable pub suggest_tx : CreateBookingData → Tx (List Alternative)
    suggest_tx data_in = do
      now ← new_date
      checks (suggest by_name config now (policy_input data_in) 5)

    -- the `catch`, on the conflict that it has made of the error
    unfoldable pub with_alternatives : CreateBookingData → Error → Api Booking
    unfolding suggest_tx
    with_alternatives data_in (policy_with code before) w =
        if is_overlap_code code
        then rethrow_with code before (transaction (suggest_tx data_in) w)
        else (err (policy_with code before), w)
    with_alternatives data_in e w = (err e, w)

    unfoldable pub notify_confirmed : Booking → Api Booking
    notify_confirmed booking w =
        if status_eq booking.status confirmed
        then World.◌>>◌ (World.notify NotificationType.booking_approved booking.id)
            (World.pure (without_qr_token_hash booking)) w
        else (ok (without_qr_token_hash booking), w)

    unfoldable pub create_booking : CreateBookingData → Api Booking
    unfolding conflict_of with_alternatives notify_confirmed
    create_booking data_in =
        World.catches
          (World.◌>>=◌ (with_serializable_retry (create_booking_tx data_in)) notify_confirmed)
          (λ e. with_alternatives data_in (conflict_of e))
