-- ===== src/CheckIn/Window.antt =====
-- When a check-in or a QR code is allowed by api/src/check-in/check-in-policy.service.ts.
use room_booking.Base.{ℕ, ◌+◌, ◌≤◌, ◌≡◌, ◌↔◌, true, none, some, arith}
use room_booking.Errors.{ok}
use room_booking.Store.Rows.{Booking, confirmed, Device}
use room_booking.CheckIn.{assert_can_generate_qr, assert_can_check_in, qr_expiry}

-- `now` lies in the window around a start, its ends included
pub record InWindow (start_time now : ℕ) : Type 0 where
  pub opened : start_time ≤ now + 600000
  pub not_closed : now ≤ start_time + 720000

-- what a check-in needs
pub record CanCheckIn (booking : Booking) (device : Device) (now : ℕ) : Type 0 where
  pub device_active : device.is_active ≡ true
  pub not_revoked : device.revoked_at ≡ none
  pub same_room : device.room_id ≡ some booking.room_id
  pub status : booking.status ≡ confirmed
  pub window : InWindow booking.start_time now
  pub fresh_qr : (t : ℕ) × (booking.qr_expires_at ≡ some t) × (now ≤ t)

-- A check-in is let through exactly when the device is active, not revoked and stands in the
-- booking's room, the booking is confirmed, the time is in the window, and its QR code is valid.
pub assert_can_check_in_iff :
    (b : Booking) (d : Device) (now : ℕ)
    → (assert_can_check_in b d now ≡ ok tt) ↔ CanCheckIn b d now
unfolding assert_can_check_in
assert_can_check_in_iff b d now = (λ h. ground arith, λ c. ground arith)

-- A QR code that may be issued is valid when it is issued and for two minutes at most, and never
-- past the end of the check-in window.
pub qr_expiry_bounds :
    (b : Booking) (now : ℕ)
    → assert_can_generate_qr b now ≡ ok tt
    → (b.status ≡ confirmed)
      × (now ≤ qr_expiry b.start_time now)
      × (qr_expiry b.start_time now ≤ now + 120000)
      × (qr_expiry b.start_time now ≤ b.start_time + 720000)
unfolding assert_can_generate_qr qr_expiry
qr_expiry_bounds b now h = ground arith
