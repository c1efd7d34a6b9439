-- ===== src/Tests/Services.antt =====
-- Runs of the theorems about the policy, bookings, check-ins, alternatives and retries.
use room_booking.Base.{
  ◌+◌, ◌*◌, ◌-◌, ◌≤◌, ◌≡◌, refl, true, false, none, some, List, [], ◌∷◌, All, length, find_first,
  arith,
}
use room_booking.Errors.{Result, err, Alternative, check_in, invalid_qr, database_error, p2034}
use room_booking.Json.{absent}
use room_booking.Store.Rows.{Db, Booking, checked_in, Role}
use room_booking.Store.Tables.{clash, update_bookings}
use room_booking.Store.World.{World, Holds, transaction}
use room_booking.Retry.{with_serializable_retry, is_retryable_transaction_error}
use room_booking.Retry.Bounds.{with_serializable_retry-third}
use room_booking.BangkokTime.{get_bangkok_date_time, bangkok_date_as_utc_date}
use room_booking.BangkokTime.Clock.{parse_clock_minutes}
use room_booking.CheckIn.{assert_can_check_in}
use room_booking.Policy.{
  Context, Request, validate_create, validate_time_range, validate_opening_hours_and_closures,
  check_closure, validate_limits_and_conflicts,
}
use room_booking.Policy.Spec.{Admissible, validate_create_iff}
use room_booking.Alternatives.{suggest}
use room_booking.Alternatives.Valid.{IsBookable, suggest_sound}
use room_booking.Bookings.Events.{to_cancelled, record_event}
use room_booking.Bookings.Transition.{no_patch}
use room_booking.Bookings.Create.{create_booking_tx, policy_input, created_row}
use room_booking.Bookings.Creates.NoConflict.{validate_create-no_clash}
use room_booking.Bookings.Visits.{check_in_by_device_tx}
use room_booking.Bookings.VisitMoves.SingleUse.{check_in_by_device_tx-once}
use room_booking.Bookings.Moves.Total.{Returns, transition_tx-Returns}
use room_booking.Bookings.Service.{system_actor}
use room_booking.Bookings.Invariant.{Inv}
use room_booking.Bookings.Calls.{Call, create, issue_qr, visit, leave_room, cancel, serve}
use room_booking.Bookings.Safe.{serve-Inv}
use room_booking.Tests.{
  config, ten, hour, digest, by_id, lab, alice, panel, session, empty_db, busy_db, meeting, wish,
  conflict_attempt, world, after, value,
}

abbrev request : Request
request = record {
  user_id = 2;
  room_id = 1;
  start_time = ten;
  end_time = ten + hour;
  attendees = 2;
  user_role = none;
  exclude_booking_id = none;
  allow_room_conflict = false;
}

abbrev context : Context
context = record {
  room = lab;
  user = alice;
  user_role = Role.user_role;
  room_conflict = none;
  input = request;
}

validate_create_iff_example : Admissible config (ten - hour) empty_db (policy_input wish) context
unfolding validate_create validate_time_range validate_opening_hours_and_closures
    get_bangkok_date_time parse_clock_minutes bangkok_date_as_utc_date check_closure
    validate_limits_and_conflicts
validate_create_iff_example =
    (validate_create_iff config (ten - hour) empty_db (policy_input wish) context).0 refl

validate_create-no_clash_example :
    find_first (clash (created_row wish request true 10 (ten - hour))) empty_db.bookings ≡ none
unfolding validate_create validate_time_range validate_opening_hours_and_closures
    get_bangkok_date_time parse_clock_minutes bangkok_date_as_utc_date check_closure
    validate_limits_and_conflicts
validate_create-no_clash_example =
    validate_create-no_clash config (ten - hour) empty_db wish context true 10 (ten - hour) refl

-- a day of the room: a booking with a QR code, a visit, and a second booking that is cancelled
abbrev day : List Call
day =
    create wish
    ∷ issue_qr 5 10 2 Role.user_role ten none
    ∷ visit 5 session none ten
    ∷ leave_room 10 system_actor
    ∷ cancel 10 2 Role.user_role none none
    ∷ []

-- The first attempt meets a serialization fault.
abbrev morning : World
morning = world (conflict_attempt ∷ []) empty_db

morning-Holds : Holds Inv morning
morning-Holds = record {
  now = record { apart = tt; distinct = tt; proper = tt; current = tt; trace = tt; fresh = tt };
  others = (λ db v. v, tt);
}

serve-Inv_example : Holds Inv (serve config by_id digest day morning)
serve-Inv_example = serve-Inv config by_id digest day morning morning-Holds

transition_tx-Returns_example :
    (r : Booking) × (db : Db) × Returns 7 to_cancelled system_actor no_patch absent busy_db meeting
      r db
transition_tx-Returns_example =
    transition_tx-Returns 7 to_cancelled system_actor no_patch absent busy_db meeting (tt, tt) refl
      refl

abbrev visited : Result (Booking × Db)
visited = check_in_by_device_tx digest 5 session none ten busy_db

abbrev visited_db : Db
visited_db = after busy_db visited

-- another booking has come in between, without a QR code
abbrev next_day_db : Db
next_day_db = record visited_db {
  bookings =
      record meeting {
        id = 8;
        start_time = ten + 24 * hour;
        end_time = ten + 25 * hour;
        qr_token_hash = none;
        qr_expires_at = none;
      }
      ∷ visited_db.bookings;
}

check_in_by_device_tx-once_example :
    check_in_by_device_tx digest 5 session none (ten + 60000) next_day_db
    ≡ err (check_in invalid_qr)
unfolding check_in_by_device_tx assert_can_check_in update_bookings record_event
check_in_by_device_tx-once_example =
    check_in_by_device_tx-once digest 5 session session none ten (ten + 60000) busy_db visited_db
      next_day_db
      (record meeting {
        status = checked_in;
        checked_in_at = some ten;
        qr_token_hash = none;
        qr_expires_at = none;
      })
      (omega arith) refl (λ none_there. refl) panel refl refl

abbrev found : List Alternative
found = value [] (suggest by_id config (ten - hour) (policy_input wish) 2 busy_db)

suggest_sound_example :
    All (IsBookable config (ten - hour) busy_db (policy_input wish)) found × (length found ≤ 2)
unfolding suggest validate_create validate_time_range validate_opening_hours_and_closures
    get_bangkok_date_time parse_clock_minutes bangkok_date_as_utc_date check_closure
    validate_limits_and_conflicts
suggest_sound_example =
    suggest_sound config (ten - hour) busy_db (policy_input wish) by_id 2 found refl

with_serializable_retry-third_example :
    with_serializable_retry
      (create_booking_tx config wish)
      (world (conflict_attempt ∷ conflict_attempt ∷ []) empty_db)
    ≡ transaction (create_booking_tx config wish) (world [] empty_db)
unfolding transaction is_retryable_transaction_error
with_serializable_retry-third_example =
    with_serializable_retry-third (create_booking_tx config wish)
      (world (conflict_attempt ∷ conflict_attempt ∷ []) empty_db)
      (world (conflict_attempt ∷ []) empty_db) (world [] empty_db) (database_error p2034)
      (database_error p2034) refl refl refl refl
