-- ===== src/Policy/Sound.antt =====
-- What a booking that `validateCreate` lets through is known to satisfy.
use room_booking.Base.{ℕ, ◌+◌, ◌*◌, ◌≤◌, ◌<◌, ◌≡◌, true, ◌⊎◌, none, some, arith}
use room_booking.Errors.{ok}
use room_booking.Store.Rows.{Db}
use room_booking.Policy.{
  BookingPolicyInput, BookingPolicyConfig, Request, Context, validate_create, validate_time_range,
  validate_opening_hours_and_closures, validate_limits_and_conflicts, user_conflict_of,
  room_conflict_of, room_by_id, user_by_id, effective_role, role_allowed,
}

validate_time_range_sound :
    (config : BookingPolicyConfig) (now : ℕ) (i : BookingPolicyInput) (r : Request)
    → validate_time_range config now i ≡ ok r
    → (i.start_time ≡ some r.start_time)
      × (i.end_time ≡ some r.end_time)
      × (i.attendees ≡ some r.attendees)
      × (i.user_id ≡ r.user_id)
      × (i.room_id ≡ r.room_id)
      × (i.exclude_booking_id ≡ r.exclude_booking_id)
      × (i.allow_room_conflict ≡ r.allow_room_conflict)
      × (r.start_time < r.end_time)
      × (1 ≤ r.attendees)
      × (now ≤ r.start_time)
      × (r.end_time ≤ r.start_time + config.max_duration_minutes * 60000)
unfolding validate_time_range
validate_time_range_sound config now i r h = ground arith

pub validate_limits_and_conflicts_sound :
    (config : BookingPolicyConfig) (now : ℕ) (db : Db) (r : Request) (role : _) (plan : _) (c : _)
    → validate_limits_and_conflicts config now db r role plan ≡ ok c
    → (user_conflict_of db r ≡ none)
      × (room_conflict_of db r ≡ c)
      × ((c ≡ none) ⊎ (r.allow_room_conflict ≡ true))
unfolding validate_limits_and_conflicts
validate_limits_and_conflicts_sound config now db r role plan c h = ground arith

pub validate_create-stages :
    (config : BookingPolicyConfig) (now : ℕ) (i : BookingPolicyInput) (db : Db) (c : Context)
    → validate_create config now i db ≡ ok c
    → (validate_time_range config now i ≡ ok c.input)
      × (validate_opening_hours_and_closures db c.input ≡ ok tt)
      × (validate_limits_and_conflicts config now db c.input c.user_role c.user.plan
          ≡ ok c.room_conflict)
      × (room_by_id db c.input.room_id ≡ some c.room)
      × (user_by_id db c.input.user_id ≡ some c.user)
      × (c.room.is_active ≡ true)
      × (c.input.attendees ≤ c.room.capacity)
      × (c.user_role ≡ effective_role c.user c.input.user_role)
      × (role_allowed c.room.allowed_roles c.user_role ≡ true)
unfolding validate_create
validate_create-stages config now i db c h = ground arith
