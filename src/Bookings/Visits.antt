-- ===== src/Bookings/Visits.antt =====
-- `generateQr`, `checkInByDevice` and `createWalkIn` of api/src/booking/booking.service.ts.
--
-- `hash` is `hashOpaqueToken`, a digest of the crypto library; a fresh token comes as an argument.
use room_booking.Base.{
  ℕ, ◌+◌, ◌*◌, ◌==◌, not, ◌&&◌, Bool, false, Option, none, some, Text, codes, or_else, is_some,
  find_first,
}
use room_booking.Json.{absent, present, end, field, Json, null, str, num}
use room_booking.Errors.{
  plain, check_in, booking_not_found, unauthorized, booking_not_confirmed, device_credential_stale,
  device_not_assigned, invalid_qr, database_error, p2025, p2002,
}
use room_booking.Store.Rows.{
  Db, Booking, confirmed, checked_in, status_eq, ActorType, EventType, Role, user_role, role_eq,
  admin_role, Device, TargetType, AuditStatus, qr_issued,
}
use room_booking.Store.Tx.{
  Tx, pure, checks, reads, require, throw_if, fresh_id, new_date, ◌>>=◌, ◌>>◌,
}
use room_booking.Store.Tables.{insert_booking, update_bookings, record_audit}
use room_booking.Store.World.{Api, continue, transaction}
use room_booking.Retry.{with_serializable_retry}
use room_booking.Policy.{BookingPolicyConfig, BookingPolicyInput, Request, validate_create}
use room_booking.CheckIn.{
  assert_can_generate_qr, qr_expiry, assert_can_check_in, assert_trusted_device,
}
use room_booking.Bookings.Events.{BookingActor, EventInput, record_event, user_actor}
use room_booking.Bookings.Transition.{booking_by_id, without_qr_token_hash}
use room_booking.Bookings.Create.{new_row, auto_confirmed_metadata}

pub record QrCode : Type 0 where
  pub qr_token : ℕ
  pub expires_at : ℕ

abbrev pub is_hash : Option ℕ → ℕ → Bool
is_hash none h = false
is_hash (some g) h = g == h

-- a device as the route has authenticated it
pub record DeviceSession : Type 0 where
  pub id : ℕ
  pub room_id : ℕ
  pub credential_version : ℕ

abbrev pub device_by_id : ℕ → Db → Option Device
device_by_id id db = find_first (λ d. d.id == id) db.devices

-- the device as it is now, if the credential that was presented is still current
unfoldable pub current_device : ℕ → ℕ → Tx Device
current_device id version = do
  found ← reads (device_by_id id)
  device ← require found (check_in device_credential_stale)
  throw_if (not (device.credential_version == version)) (check_in device_credential_stale)
  pure device

abbrev pub checked_in_event : ℕ → Option ℕ → Booking → EventInput
checked_in_event device_id correlation_id booking = record {
  booking_id = booking.id;
  room_id = booking.room_id;
  actor = record {
    actor_type = ActorType.device;
    id = some device_id;
    correlation_id = correlation_id;
    metadata = absent;
  };
  event_type = EventType.checked_in;
  previous_status = some confirmed;
  new_status = checked_in;
  metadata = absent;
}

-- the first statement of `generateQr`, with the checks of what it has read
unfoldable pub find_for_qr : ℕ → ℕ → Role → ℕ → Tx Booking
find_for_qr id user_id role now = do
  found ← reads (booking_by_id id)
  booking ← require found (plain booking_not_found)
  throw_if (not (role_eq role admin_role) && not (booking.user_id == user_id)) (plain unauthorized)
  checks (λ _. assert_can_generate_qr booking now)
  pure booking

module _ (hash : ℕ → ℕ) where
  -- the update that issues a QR code
  abbrev pub issues : ℕ → ℕ → Booking → Booking
  issues qr_token expires_at b = record b {
    qr_token_hash = some (hash qr_token);
    qr_expires_at = some expires_at;
  }

  -- The booking is the one that the statement before has read. The row's unique index refuses a
  -- digest that another booking has.
  unfoldable pub generate_qr_tx : ℕ → ℕ → Role → ℕ → Option ℕ → Booking → Tx QrCode
  generate_qr_tx qr_token user_id role now correlation_id booking = do
    let expires_at = qr_expiry booking.start_time now
    taken ← reads (λ db.
        find_first (λ b. is_hash b.qr_token_hash (hash qr_token) && not (b.id == booking.id))
          db.bookings)
    throw_if (is_some taken) (database_error p2002)
    count ←
        update_bookings (λ b. (b.id == booking.id) && status_eq b.status confirmed)
          (issues qr_token expires_at)
    throw_if (not (count == 1)) (check_in booking_not_confirmed)
    record_audit (record {
      actor_type = (user_actor user_id (some role) correlation_id).actor_type;
      actor_id = some user_id;
      correlation_id = correlation_id;
      target_type = TargetType.booking;
      target_id = booking.id;
      event_type = qr_issued;
      source_event_id = none;
      booking_id = some booking.id;
      room_id = some booking.room_id;
      previous_status = some (AuditStatus.booking booking.status);
      new_status = some (AuditStatus.booking booking.status);
      metadata = present (field (codes "expiresAt") (num expires_at) end);
      created_at = some now;
    })
    pure (record { qr_token = qr_token; expires_at = expires_at })

  -- The transaction is read committed: others may commit between its read and its writes.
  unfoldable pub generate_qr : ℕ → ℕ → ℕ → Role → ℕ → Option ℕ → Api QrCode
  generate_qr qr_token id user_id role now correlation_id w =
      continue (transaction (find_for_qr id user_id role now) w)
        (λ booking. transaction (generate_qr_tx qr_token user_id role now correlation_id booking))

  -- the update of a check-in
  abbrev pub checks_in : ℕ → Booking → Booking
  checks_in now b = record b {
    status = checked_in;
    checked_in_at = some now;
    qr_token_hash = none;
    qr_expires_at = none;
  }

  unfoldable pub check_in_by_device_tx : ℕ → DeviceSession → Option ℕ → ℕ → Tx Booking
  unfolding current_device
  check_in_by_device_tx qr_token device correlation_id now = do
    current ← current_device device.id device.credential_version
    found ← reads (λ db. find_first (λ b. is_hash b.qr_token_hash (hash qr_token)) db.bookings)
    booking ← require found (check_in invalid_qr)
    checks (λ _. assert_can_check_in booking current now)
    count ←
        update_bookings
          (λ b.
            (b.id == booking.id)
            && status_eq b.status confirmed
            && is_hash b.qr_token_hash (hash qr_token))
          (checks_in now)
    throw_if (not (count == 1)) (check_in invalid_qr)
    record_event (checked_in_event device.id correlation_id booking)
    result ← reads (booking_by_id booking.id)
    updated ← require result (database_error p2025)
    pure (without_qr_token_hash updated)

  unfoldable pub check_in_by_device : ℕ → DeviceSession → Option ℕ → ℕ → Api Booking
  check_in_by_device qr_token device correlation_id now =
      with_serializable_retry (check_in_by_device_tx qr_token device correlation_id now)

pub record WalkInData : Type 0 where
  pub device : DeviceSession
  pub duration_minutes : ℕ
  pub attendees : Option ℕ
  pub purpose : Option Text
  pub requester_name : Text
  pub requester_reference : Option Text
  pub correlation_id : Option ℕ

abbrev reference_json : Option Text → Json
reference_json none = null
reference_json (some t) = str t

abbrev walk_in_actor : WalkInData → BookingActor
walk_in_actor data_in = record {
  actor_type = ActorType.device;
  id = some data_in.device.id;
  correlation_id = data_in.correlation_id;
  metadata = present (
      field (codes "source") (str (codes "walk-in")) (
        field (codes "requesterName") (str data_in.requester_name)
          (field (codes "requesterReference") (reference_json data_in.requester_reference) end)));
}

abbrev pub walk_in_created : WalkInData → ℕ → ℕ → EventInput
walk_in_created data_in id room_id = record {
  booking_id = id;
  room_id = room_id;
  actor = walk_in_actor data_in;
  event_type = EventType.created;
  previous_status = none;
  new_status = confirmed;
  metadata = auto_confirmed_metadata;
}

abbrev pub walk_in_checked_in : WalkInData → ℕ → ℕ → EventInput
walk_in_checked_in data_in id room_id = record {
  booking_id = id;
  room_id = room_id;
  actor = walk_in_actor data_in;
  event_type = EventType.checked_in;
  previous_status = some confirmed;
  new_status = checked_in;
  metadata = absent;
}

abbrev pub walk_in_row : WalkInData → ℕ → Request → ℕ → ℕ → Booking
walk_in_row data_in now r id created_at =
    record (new_row r id created_at (some (or_else data_in.purpose (codes "Walk-in Booking")))
      confirmed) {
        approved_at = some now;
        walk_in_requester_name = some data_in.requester_name;
        walk_in_requester_reference = data_in.requester_reference;
      }

-- the update of a walk-in, right after its creation
abbrev pub walks_in : ℕ → Booking → Booking
walks_in now b = record b { status = checked_in; checked_in_at = some now }

abbrev pub walk_in_input : WalkInData → ℕ → ℕ → ℕ → BookingPolicyInput
walk_in_input data_in now principal room_id = record {
  user_id = principal;
  room_id = room_id;
  start_time = some (now + 1000);
  end_time = some (now + 1000 + data_in.duration_minutes * 60000);
  attendees = data_in.attendees;
  user_role = some user_role;
  exclude_booking_id = none;
  allow_room_conflict = false;
}

-- what follows the creation of the row
unfoldable pub finish_walk_in : WalkInData → ℕ → ℕ → ℕ → Tx Booking
finish_walk_in data_in now id room_id = do
  record_event (walk_in_created data_in id room_id)
  count ← update_bookings (λ b. b.id == id) (walks_in now)
  throw_if (count == 0) (database_error p2025)
  record_event (walk_in_checked_in data_in id room_id)
  result ← reads (booking_by_id id)
  updated ← require result (database_error p2025)
  pure (without_qr_token_hash updated)

-- the part of the transaction that writes
unfoldable pub book_walk_in : WalkInData → ℕ → Request → Tx Booking
book_walk_in data_in now r = do
  id ← fresh_id
  created_at ← new_date
  insert_booking (walk_in_row data_in now r id created_at)
  finish_walk_in data_in now id r.room_id

module _ (config : BookingPolicyConfig) where
  -- `policy_now` is what the policy's clock reads, `now` the time of the request.
  unfoldable pub create_walk_in_tx : WalkInData → ℕ → Tx Booking
  create_walk_in_tx data_in now = do
    device ← current_device data_in.device.id data_in.device.credential_version
    checks (λ _. assert_trusted_device device data_in.device.room_id)
    room_id ← require device.room_id (check_in device_not_assigned)
    policy_now ← new_date
    context ← checks (
        validate_create config policy_now
          (walk_in_input data_in now device.walk_in_principal_id room_id))
    book_walk_in data_in now context.input

  unfoldable pub create_walk_in : WalkInData → ℕ → Api Booking
  create_walk_in data_in now = with_serializable_retry (create_walk_in_tx data_in now)
