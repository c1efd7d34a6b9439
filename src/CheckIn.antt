-- ===== src/CheckIn.antt =====
-- api/src/check-in/check-in-policy.service.ts
pub mod Window
use room_booking.Base.{
  ℕ, ◌+◌, ◌-◌, ◌*◌, ltb, ◌==◌, not, Bool, true, false, Option, none, some, min, is_some,
  if◌then◌else◌,
}
use room_booking.Errors.{
  Result, ok, err, ◌>>◌, throw_if, check_in, booking_not_confirmed, check_in_too_early,
  check_in_too_late, device_inactive, device_revoked, device_not_assigned, wrong_room, qr_expired,
}
use room_booking.Store.Rows.{Booking, BookingStatus, confirmed, status_eq, Device}

abbrev pub check_in_early_minutes : ℕ
check_in_early_minutes = 10

abbrev pub check_in_late_minutes : ℕ
check_in_late_minutes = 12

abbrev pub qr_token_ttl_ms : ℕ
qr_token_ttl_ms = 2 * 60000

pub record CheckInWindow : Type 0 where
  pub opens_at : ℕ
  pub closes_at : ℕ

-- A booking starts later than ten minutes after 1970-01-01T00:00Z.
unfoldable pub get_window : ℕ → CheckInWindow
get_window start_time = record {
  opens_at = start_time - check_in_early_minutes * 60000;
  closes_at = start_time + check_in_late_minutes * 60000;
}

unfoldable pub assert_time_window : ℕ → ℕ → Result (Unit {0})
unfolding get_window
assert_time_window start_time now = do
  throw_if (ltb now (get_window start_time).opens_at) (check_in check_in_too_early)
  throw_if (ltb (get_window start_time).closes_at now) (check_in check_in_too_late)

unfoldable pub assert_can_generate_qr : Booking → ℕ → Result (Unit {0})
unfolding assert_time_window
assert_can_generate_qr booking now = do
  throw_if (not (status_eq booking.status confirmed)) (check_in booking_not_confirmed)
  assert_time_window booking.start_time now

room_matches : Option ℕ → ℕ → Result (Unit {0})
room_matches none room_id = err (check_in device_not_assigned)
room_matches (some r) room_id = throw_if (not (room_id == r)) (check_in wrong_room)

unfoldable pub assert_trusted_device : Device → ℕ → Result (Unit {0})
unfolding room_matches
assert_trusted_device device room_id = do
  throw_if (not device.is_active) (check_in device_inactive)
  throw_if (is_some device.revoked_at) (check_in device_revoked)
  room_matches device.room_id room_id

abbrev qr_is_stale : Option ℕ → ℕ → Bool
qr_is_stale none now = true
qr_is_stale (some expires_at) now = ltb expires_at now

unfoldable pub assert_can_check_in : Booking → Device → ℕ → Result (Unit {0})
unfolding assert_time_window assert_trusted_device
assert_can_check_in booking device now = do
  assert_trusted_device device booking.room_id
  throw_if (not (status_eq booking.status confirmed)) (check_in booking_not_confirmed)
  assert_time_window booking.start_time now
  throw_if (qr_is_stale booking.qr_expires_at now) (check_in qr_expired)

unfoldable pub qr_expiry : ℕ → ℕ → ℕ
unfolding get_window
qr_expiry start_time now = min (now + qr_token_ttl_ms) (get_window start_time).closes_at
