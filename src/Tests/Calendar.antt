-- ===== src/Tests/Calendar.antt =====
-- Runs of the theorems about clock times, days, check-in windows and audit metadata.
use room_booking.Base.{ℕ, ◌+◌, ◌-◌, ◌*◌, ◌≤◌, ◌<◌, ◌≡◌, ◌↔◌, ◌⊎◌, refl, true, false, codes, arith}
use room_booking.Errors.{ok}
use room_booking.Json.{Metadata, present, field, end, str, num}
use room_booking.Audit.{sanitize_audit_metadata}
use room_booking.Audit.Sanitized.{CleanMetadata, sanitize_audit_metadata-CleanMetadata}
use room_booking.BangkokTime.{
  DayBounds, bangkok_day_bounds, bangkok_local_date_time_to_instant, get_bangkok_date_time,
}
use room_booking.BangkokTime.Clock.{
  parse_clock_minutes, print_clock, parse_clock_minutes-print_clock,
  print_clock-parse_clock_minutes, parse_clock_minutes_bounds,
}
use room_booking.BangkokTime.Days.{get_bangkok_date_time-local, bangkok_day_bounds_exact}
use room_booking.CheckIn.{assert_can_check_in, assert_can_generate_qr, qr_expiry}
use room_booking.CheckIn.Window.{CanCheckIn, assert_can_check_in_iff, qr_expiry_bounds}
use room_booking.Store.Rows.{confirmed}
use room_booking.Tests.{ten, hour, meeting, panel}

print_clock-parse_clock_minutes_example : print_clock 510 ≡ codes "08:30"
unfolding parse_clock_minutes
print_clock-parse_clock_minutes_example =
    print_clock-parse_clock_minutes (codes "08:30") false 510 refl

parse_clock_minutes-print_clock_example : parse_clock_minutes (print_clock 510) false ≡ ok 510
parse_clock_minutes-print_clock_example = parse_clock_minutes-print_clock 510 false (omega arith)

abbrev day_end : ℕ
day_end = 1440

parse_clock_minutes_bounds_example : (day_end < 1440) ⊎ ((true ≡ true) × (day_end ≡ 1440))
unfolding parse_clock_minutes
parse_clock_minutes_bounds_example = parse_clock_minutes_bounds (codes "24:00") true 1440 refl

get_bangkok_date_time-local_example :
    ((get_bangkok_date_time ten).date ≡ 20000)
    × (parse_clock_minutes (codes "10:00") false
        ≡ ok (get_bangkok_date_time ten).minutes_since_midnight)
    × ((get_bangkok_date_time ten).second ≡ 0)
unfolding bangkok_local_date_time_to_instant
get_bangkok_date_time-local_example =
    get_bangkok_date_time-local 20000 (codes "10:00") ten (omega arith) refl

abbrev friday_bounds : DayBounds
friday_bounds = record { start = ten - 10 * hour; end = ten + 14 * hour }

bangkok_day_bounds_exact_example :
    ((friday_bounds.start ≤ ten) × (ten < friday_bounds.end))
    ↔ ((get_bangkok_date_time ten).date ≡ 20000)
unfolding bangkok_day_bounds
bangkok_day_bounds_exact_example =
    bangkok_day_bounds_exact 20000 friday_bounds ten (omega arith) refl

assert_can_check_in_iff_example : CanCheckIn meeting panel ten
unfolding assert_can_check_in
assert_can_check_in_iff_example = (assert_can_check_in_iff meeting panel ten).0 refl

qr_expiry_bounds_example :
    (meeting.status ≡ confirmed)
    × (ten ≤ qr_expiry meeting.start_time ten)
    × (qr_expiry meeting.start_time ten ≤ ten + 120000)
    × (qr_expiry meeting.start_time ten ≤ meeting.start_time + 720000)
unfolding assert_can_generate_qr
qr_expiry_bounds_example = qr_expiry_bounds meeting ten refl

abbrev leaky : Metadata
leaky = present (field (codes "reason") (str (codes "late")) (field (codes "QR-Token") (num 5) end))

sanitize_audit_metadata-CleanMetadata_example : CleanMetadata (sanitize_audit_metadata leaky)
sanitize_audit_metadata-CleanMetadata_example = sanitize_audit_metadata-CleanMetadata leaky

abbrev tidy : Metadata
tidy = present (field (codes "reason") (str (codes "late")) end)
