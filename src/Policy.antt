-- ===== src/Policy.antt =====
-- api/src/booking/booking-policy.service.ts: the checks that a booking passes before it is created.
--
-- A number that comes from a request is an `Option`: `none` is what `Number.isFinite` or
-- `Number.isInteger` refuses (an Invalid Date, a fraction, a value below 0). `validateTimeRange`
-- hands on the numbers that it has found.
pub mod OpeningHours
pub mod Spec
pub mod Sound
use room_booking.Base.{
  ℕ, ◌+◌, ◌-◌, ◌*◌, ◌/◌, ltb, leb, ◌==◌, Bool, true, false, not, ◌&&◌, ◌||◌, Option, none, some,
  List, [], ◌∷◌, or_else, is_some, find_first, count_rows, where_rows, Text, if◌then◌else◌,
}
use room_booking.Errors.{
  Result, ok, err, ◌>>=◌, ◌>>◌, throw_if, policy, invalid_time_range, start_time_in_past,
  duration_limit_exceeded, room_not_found, room_inactive, capacity_exceeded, role_not_allowed,
  outside_opening_hours, room_closed, user_overlap, room_overlap, advance_limit_exceeded,
  active_limit_exceeded, user_not_found,
}
use room_booking.BangkokTime.{
  DayOfWeek, day_eq, BangkokDateTime, get_bangkok_date_time, bangkok_date_as_utc_date,
  millis_per_day,
}
use room_booking.BangkokTime.Clock.{parse_clock_minutes}
use room_booking.Store.Rows.{
  Db, User, Room, TimeSlot, RoomClosure, Booking, Role, user_role, teacher_role, admin_role,
  role_eq, Plan, is_pro,
}
use room_booking.Store.Tables.{is_active}

pub record BookingPolicyInput : Type 0 where
  pub user_id : ℕ
  pub room_id : ℕ
  pub start_time : Option ℕ
  pub end_time : Option ℕ
  pub attendees : Option ℕ
  pub user_role : Option Role
  pub exclude_booking_id : Option ℕ
  pub allow_room_conflict : Bool

-- the input whose numbers have been checked
pub record Request : Type 0 where
  pub user_id : ℕ
  pub room_id : ℕ
  pub start_time : ℕ
  pub end_time : ℕ
  pub attendees : ℕ
  pub user_role : Option Role
  pub exclude_booking_id : Option ℕ
  pub allow_room_conflict : Bool

pub record BookingPolicyConfig : Type 0 where
  pub max_duration_minutes : ℕ
  pub free_advance_days : ℕ
  pub pro_advance_days : ℕ
  pub user_active_limit : ℕ
  pub teacher_active_limit : ℕ
  pub pro_active_limit : ℕ

-- `value` is `Number(process.env[…])`, `none` if that is no natural number
unfoldable pub positive_integer : Option ℕ → ℕ → ℕ
positive_integer none fallback = fallback
positive_integer (some parsed) fallback = if ltb 0 parsed then parsed else fallback

pub record PolicyEnv : Type 0 where
  pub max_duration_minutes : Option ℕ
  pub free_advance_days : Option ℕ
  pub pro_advance_days : Option ℕ
  pub user_active_limit : Option ℕ
  pub teacher_active_limit : Option ℕ
  pub pro_active_limit : Option ℕ

unfoldable pub booking_policy_config_from_env : PolicyEnv → BookingPolicyConfig
unfolding positive_integer
booking_policy_config_from_env env = record {
  max_duration_minutes = positive_integer env.max_duration_minutes 240;
  free_advance_days = positive_integer env.free_advance_days 3;
  pro_advance_days = positive_integer env.pro_advance_days 30;
  user_active_limit = positive_integer env.user_active_limit 3;
  teacher_active_limit = positive_integer env.teacher_active_limit 5;
  pro_active_limit = positive_integer env.pro_active_limit 10;
}

request : BookingPolicyInput → ℕ → ℕ → ℕ → Request
request input start end attendees = record {
  user_id = input.user_id;
  room_id = input.room_id;
  start_time = start;
  end_time = end;
  attendees = attendees;
  user_role = input.user_role;
  exclude_booking_id = input.exclude_booking_id;
  allow_room_conflict = input.allow_room_conflict;
}

-- the first test of `validateTimeRange`
numbers_of : BookingPolicyInput → Option ℕ → Option ℕ → Option ℕ → Result Request
unfolding request
numbers_of input (some start) (some end) (some attendees) =
    if leb end start || ltb attendees 1
    then err (policy invalid_time_range)
    else ok (request input start end attendees)
numbers_of input _ _ _ = err (policy invalid_time_range)

-- `durationMinutes > maxDurationMinutes` compares quotients by 60000: here both sides times 60000
unfoldable pub validate_time_range : BookingPolicyConfig → ℕ → BookingPolicyInput → Result Request
unfolding numbers_of
validate_time_range config now input = do
  r ← numbers_of input input.start_time input.end_time input.attendees
  throw_if (ltb r.start_time now) (policy start_time_in_past)
  throw_if (ltb (config.max_duration_minutes * 60000) (r.end_time - r.start_time))
      (policy duration_limit_exceeded)
  ok r

-- `client.timeSlot.findFirst`
abbrev pub slot_of : Db → ℕ → DayOfWeek → Option TimeSlot
slot_of db room_id day =
    find_first (λ s. (s.room_id == room_id) && day_eq s.day_of_week day && s.is_active)
      db.time_slots

-- `client.roomClosure.findMany`
abbrev pub closures_of : Db → ℕ → ℕ → List RoomClosure
closures_of db room_id date =
    where_rows (λ c. (c.room_id == room_id) && (c.date == date)) db.room_closures

-- One round of the loop over the closures. An empty text counts as missing.
unfoldable pub check_closure : ℕ → ℕ → Bool → Option Text → Option Text → Result (Unit {0})
unfolding parse_clock_minutes
check_closure start end true closure_start closure_end = err (policy room_closed)
check_closure start end false (some (c ∷ cs)) (some (d ∷ ds)) = do
  from ← parse_clock_minutes (c ∷ cs) false
  to ← parse_clock_minutes (d ∷ ds) true
  throw_if (ltb start to && ltb from end) (policy room_closed)
check_closure start end false _ _ = err (policy room_closed)

unfoldable pub check_closures : ℕ → ℕ → List RoomClosure → Result (Unit {0})
check_closures start end [] = ok tt
check_closures start end (c ∷ cs) =
    check_closure start end c.all_day c.start_time c.end_time >> check_closures start end cs

-- `end.minutesSinceMidnight`, counting a begun minute
abbrev pub end_minute : BangkokDateTime → ℕ
end_minute end = end.minutes_since_midnight + (if ltb 0 end.second then 1 else 0)

unfoldable pub check_opening_hours : ℕ → ℕ → Option TimeSlot → Result (Unit {0})
check_opening_hours start end none = err (policy outside_opening_hours)
check_opening_hours start end (some slot) = do
  opens_at ← parse_clock_minutes slot.open_time false
  closes_at ← parse_clock_minutes slot.close_time true
  throw_if (ltb start opens_at || ltb closes_at end) (policy outside_opening_hours)

unfoldable pub validate_opening_hours_and_closures : Db → Request → Result (Unit {0})
unfolding check_opening_hours check_closures
validate_opening_hours_and_closures db input = do
  let start = get_bangkok_date_time input.start_time
  let end = get_bangkok_date_time input.end_time
  throw_if (not (start.date == end.date)) (policy outside_opening_hours)
  check_opening_hours start.minutes_since_midnight (end_minute end)
      (slot_of db input.room_id start.day_of_week)
  check_closures start.minutes_since_midnight (end_minute end)
      (closures_of db input.room_id (bangkok_date_as_utc_date start.date))

-- `...exclusion` of a query
abbrev pub not_excluded : Option ℕ → Booking → Bool
not_excluded none b = true
not_excluded (some id) b = not (b.id == id)

-- an active booking that meets the requested range
abbrev pub overlaps : Request → Booking → Bool
overlaps input b =
    is_active b.status
    && ltb b.start_time input.end_time
    && ltb input.start_time b.end_time
    && not_excluded input.exclude_booking_id b

abbrev pub user_conflict_of : Db → Request → Option Booking
user_conflict_of db input =
    find_first (λ b. (b.user_id == input.user_id) && overlaps input b) db.bookings

abbrev pub room_conflict_of : Db → Request → Option Booking
room_conflict_of db input =
    find_first (λ b. (b.room_id == input.room_id) && overlaps input b) db.bookings

abbrev pub active_count_of : Db → Request → ℕ
active_count_of db input =
    count_rows
      (λ b.
        (b.user_id == input.user_id)
        && is_active b.status
        && not_excluded input.exclude_booking_id b)
      db.bookings

abbrev pub advance_days : BookingPolicyConfig → Bool → ℕ
advance_days config pro = if pro then config.pro_advance_days else config.free_advance_days

abbrev pub active_limit : BookingPolicyConfig → Bool → Role → ℕ
active_limit config pro role =
    if pro
    then config.pro_active_limit
    else if role_eq role teacher_role
    then config.teacher_active_limit
    else config.user_active_limit

unfoldable pub validate_limits_and_conflicts :
    BookingPolicyConfig → ℕ → Db → Request → Role → Plan → Result (Option Booking)
validate_limits_and_conflicts config now db input role plan = do
  let is_admin = role_eq role admin_role
  let room_conflict = room_conflict_of db input
  throw_if
      (not is_admin
        && ltb (now + advance_days config (is_pro plan) * millis_per_day) input.start_time)
      (policy advance_limit_exceeded)
  throw_if (is_some (user_conflict_of db input)) (policy user_overlap)
  throw_if (is_some room_conflict && not input.allow_room_conflict) (policy room_overlap)
  throw_if (not is_admin && leb (active_limit config (is_pro plan) role) (active_count_of db input))
      (policy active_limit_exceeded)
  ok room_conflict

-- what `validateCreate` returns
pub record Context : Type 0 where
  pub room : Room
  pub user : User
  pub user_role : Role
  pub room_conflict : Option Booking
  pub input : Request

-- `Array.includes`
abbrev pub includes_role : Role → List Role → Bool
includes_role r [] = false
includes_role r (s ∷ ss) = role_eq s r || includes_role r ss

abbrev pub role_allowed : List Role → Role → Bool
role_allowed [] r = true
role_allowed (s ∷ ss) r = includes_role r (s ∷ ss)

abbrev pub room_by_id : Db → ℕ → Option Room
room_by_id db id = find_first (λ r. r.id == id) db.rooms

abbrev pub user_by_id : Db → ℕ → Option User
user_by_id db id = find_first (λ u. u.id == id) db.users

-- `user.role ?? input.userRole ?? "userRole"`
abbrev pub effective_role : User → Option Role → Role
effective_role user fallback = or_else user.role (or_else fallback user_role)

abbrev require : {A : Type 0} → Option A → Result A → Result A
require none e = e
require (some a) e = ok a

unfoldable pub validate_create : BookingPolicyConfig → ℕ → BookingPolicyInput → Db → Result Context
validate_create config now data_in db = do
  input ← validate_time_range config now data_in
  room ← require (room_by_id db input.room_id) (err (policy room_not_found))
  throw_if (not room.is_active) (policy room_inactive)
  user ← require (user_by_id db input.user_id) (err (policy user_not_found))
  throw_if (ltb room.capacity input.attendees) (policy capacity_exceeded)
  let role = effective_role user input.user_role
  throw_if (not (role_allowed room.allowed_roles role)) (policy role_not_allowed)
  validate_opening_hours_and_closures db input
  room_conflict ← validate_limits_and_conflicts config now db input role user.plan
  ok (record {
    room = room;
    user = user;
    user_role = role;
    room_conflict = room_conflict;
    input = input;
  })
