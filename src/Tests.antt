-- ===== src/Tests.antt =====
-- Sample data for the services of api/src, and runs of the theorems on it.
pub mod Services
pub mod Calendar
pub mod Limits
pub mod Recurring
pub mod Queue
pub mod Queries
use room_booking.Base.{
  ℕ, ◌+◌, ◌-◌, ◌*◌, Option, none, some, List, [], ◌∷◌, Text, codes, true, false,
}
use room_booking.Errors.{Result, ok, err, Error, database_error, p2034}
use room_booking.Json.{absent}
use room_booking.BangkokTime.{friday}
use room_booking.Store.Rows.{
  Db, User, Room, TimeSlot, RoomClosure, Booking, BookingStatus, pending, confirmed, Role,
  user_role, Plan, free, Device,
}
use room_booking.Store.Tx.{Tx}
use room_booking.Store.World.{World, Attempt}
use room_booking.Policy.{BookingPolicyConfig, booking_policy_config_from_env}
use room_booking.Bookings.Create.{CreateBookingData}
use room_booking.Bookings.Visits.{DeviceSession, WalkInData}

abbrev pub config : BookingPolicyConfig
config = record {
  max_duration_minutes = 240;
  free_advance_days = 3;
  pro_advance_days = 30;
  user_active_limit = 3;
  teacher_active_limit = 5;
  pro_active_limit = 10;
}

-- 10:00 in Bangkok on 2024-10-04, a Friday
abbrev pub ten : ℕ
ten = 20000 * 86400000 + 3 * 3600000

abbrev pub hour : ℕ
hour = 3600000

-- a digest function
abbrev pub digest : ℕ → ℕ
digest t = t + 1000

abbrev pub by_id : List Room → List Room
by_id rooms = rooms

abbrev pub lab : Room
lab = record {
  id = 1;
  name = codes "Lab";
  is_active = true;
  capacity = 8;
  allowed_roles = [];
  auto_approve = true;
  amenities = [];
}

abbrev pub alice : User
alice = record {
  id = 2;
  name = codes "Alice";
  email = codes "a@example.org";
  role = some user_role;
  plan = free;
  plan_expires_at = none;
  stripe_customer_id = none;
}

abbrev pub bob : User
bob = record alice { id = 3; name = codes "Bob" }

abbrev pub fridays : TimeSlot
fridays = record {
  room_id = 1;
  day_of_week = friday;
  open_time = codes "08:00";
  close_time = codes "20:00";
  is_active = true;
}

-- closed over lunch
abbrev pub lunch : RoomClosure
lunch = record {
  room_id = 1;
  date = 20000 * 86400000;
  reason = none;
  all_day = false;
  start_time = some (codes "12:00");
  end_time = some (codes "13:00");
}

abbrev pub panel : Device
panel = record {
  id = 4;
  room_id = some 1;
  is_active = true;
  revoked_at = none;
  credential_version = 1;
  walk_in_principal_id = 3;
}

abbrev pub session : DeviceSession
session = record { id = 4; room_id = 1; credential_version = 1 }

abbrev pub empty_db : Db
empty_db = record {
  users = alice ∷ bob ∷ [];
  rooms = lab ∷ [];
  time_slots = fridays ∷ [];
  room_closures = lunch ∷ [];
  bookings = [];
  booking_events = [];
  audit_logs = [];
  devices = panel ∷ [];
  waitlist = [];
  series = [];
  stripe_events = [];
  jobs = [];
  next_id = 10;
  clock = ten - hour;
}

-- Alice's booking from ten to eleven, with a QR code
abbrev pub meeting : Booking
meeting = record {
  id = 7;
  user_id = 2;
  room_id = 1;
  series_id = none;
  occurrence_date = none;
  is_series_exception = false;
  start_time = ten;
  end_time = ten + hour;
  attendees = 2;
  purpose = none;
  status = confirmed;
  rejected_reason = none;
  approved_at = none;
  approved_by = none;
  qr_token_hash = some 1005;
  qr_expires_at = some (ten + 60000);
  walk_in_requester_name = none;
  walk_in_requester_reference = none;
  checked_in_at = none;
  checked_out_at = none;
  cancelled_at = none;
  cancel_reason = none;
  reminder_30_sent_at = none;
  reminder_checkin_sent_at = none;
  created_at = ten - hour;
}

abbrev pub busy_db : Db
busy_db = record empty_db { bookings = meeting ∷ [] }

abbrev pub wish : CreateBookingData
wish = record {
  user_id = 2;
  room_id = 1;
  start_time = some ten;
  end_time = some (ten + hour);
  attendees = some 2;
  purpose = none;
  auto_confirm = none;
  approved_by = none;
  user_role = none;
  actor = none;
}

abbrev pub conflict_attempt : Attempt
conflict_attempt = record { others = λ db. db; fault = some (database_error p2034) }

-- a world whose first transactions fail with serialization faults
abbrev pub world : List Attempt → Db → World
world schedule db = record { db = db; schedule = schedule; outbox = [] }

-- the database after a transaction
abbrev pub after : {A : Type 0} → Db → Result (A × Db) → Db
after db (ok (a, done)) = done
after db (err e) = db

-- the value of a result
abbrev pub value : {A : Type 0} → A → Result A → A
value a (ok b) = b
value a (err e) = a
