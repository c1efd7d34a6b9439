-- ===== src/Policy/Spec.antt =====
-- The policy of api/src/booking/booking-policy.service.ts as rules, apart from the order of its
-- checks.
use room_booking.Base.{
  ◌∙◌, ap, sym, ltb, ℕ, refl, ◌+◌, ◌-◌, ◌*◌, ◌≤◌, ◌<◌, ◌≡◌, ◌↔◌, ◌⊎◌, true, false, none, some,
  arith,
}
use room_booking.Errors.{ok}
use room_booking.BangkokTime.{millis_per_day}
use room_booking.Store.Rows.{Db, Role, admin_role, role_eq, Plan, is_pro}
use room_booking.Policy.Sound.{validate_create-stages, validate_limits_and_conflicts_sound}
use room_booking.Policy.{
  BookingPolicyInput, BookingPolicyConfig, Request, Context, validate_create, validate_time_range,
  validate_opening_hours_and_closures, validate_limits_and_conflicts, user_conflict_of,
  active_limit, advance_days, active_count_of, room_conflict_of, room_by_id, user_by_id,
  effective_role, role_allowed,
}
use room_booking.Policy.OpeningHours.{IsOpen, IsOpen-sound, IsOpen-complete}

-- The limits of the user's plan and role, and the other active bookings.
pub record WithinLimits (config : BookingPolicyConfig) (now : ℕ) (db : Db) (r : Request)
    (role : Role) (plan : Plan) : Type 0 where
  pub soon :
      (role_eq role admin_role ≡ true)
      ⊎ (r.start_time ≤ now + advance_days config (is_pro plan) * millis_per_day)
  pub user_free : user_conflict_of db r ≡ none
  pub room_free : (room_conflict_of db r ≡ none) ⊎ (r.allow_room_conflict ≡ true)
  pub few :
      (role_eq role admin_role ≡ true)
      ⊎ (active_count_of db r < active_limit config (is_pro plan) role)

limits_iff :
    (config : BookingPolicyConfig) (now : ℕ) (db : Db) (r : Request) (role : Role) (plan : Plan)
    → (validate_limits_and_conflicts config now db r role plan ≡ ok (room_conflict_of db r))
      ↔ WithinLimits config now db r role plan
unfolding validate_limits_and_conflicts
limits_iff config now db r role plan = (
  λ h. record {
    soon = ground arith;
    user_free = ground arith;
    room_free = ground arith;
    few = ground arith;
  },
  λ w. ground arith,
)

-- The rules for a new booking.
pub record Admissible (config : BookingPolicyConfig) (now : ℕ) (db : Db) (i : BookingPolicyInput)
    (c : Context) : Type 0 where
  pub start_given : i.start_time ≡ some c.input.start_time
  pub end_given : i.end_time ≡ some c.input.end_time
  pub attendees_given : i.attendees ≡ some c.input.attendees
  pub same_user : c.input.user_id ≡ i.user_id
  pub same_room : c.input.room_id ≡ i.room_id
  pub same_role : c.input.user_role ≡ i.user_role
  pub same_exclusion : c.input.exclude_booking_id ≡ i.exclude_booking_id
  pub same_choice : c.input.allow_room_conflict ≡ i.allow_room_conflict
  pub positive : c.input.start_time < c.input.end_time
  pub someone : 1 ≤ c.input.attendees
  pub not_past : now ≤ c.input.start_time
  pub not_long : c.input.end_time - c.input.start_time ≤ config.max_duration_minutes * 60000
  pub room_exists : room_by_id db c.input.room_id ≡ some c.room
  pub room_active : c.room.is_active ≡ true
  pub user_exists : user_by_id db c.input.user_id ≡ some c.user
  pub fits : c.input.attendees ≤ c.room.capacity
  pub role : c.user_role ≡ effective_role c.user c.input.user_role
  pub role_admitted : role_allowed c.room.allowed_roles c.user_role ≡ true
  pub is_open : IsOpen db c.input
  pub limits : WithinLimits config now db c.input c.user_role c.user.plan
  pub conflict : c.room_conflict ≡ room_conflict_of db c.input

module _ (config : BookingPolicyConfig) (now : ℕ) (db : Db) (i : BookingPolicyInput)
    (c : Context) where
  time_iff : (validate_time_range config now i ≡ ok c.input) ↔ (
      (i.start_time ≡ some c.input.start_time)
      × (i.end_time ≡ some c.input.end_time)
      × (i.attendees ≡ some c.input.attendees)
      × (c.input.user_id ≡ i.user_id)
      × (c.input.room_id ≡ i.room_id)
      × (c.input.user_role ≡ i.user_role)
      × (c.input.exclude_booking_id ≡ i.exclude_booking_id)
      × (c.input.allow_room_conflict ≡ i.allow_room_conflict)
      × (c.input.start_time < c.input.end_time)
      × (1 ≤ c.input.attendees)
      × (now ≤ c.input.start_time)
      × (c.input.end_time - c.input.start_time ≤ config.max_duration_minutes * 60000))
  unfolding validate_time_range
  time_iff =
      (λ h. ground arith, λ (a, b, d, e, f, g, j, k, l, m, n, o). rw (a, b, d) (ground arith))

  validate_create-Admissible : validate_create config now i db ≡ ok c → Admissible config now db i c
  validate_create-Admissible h =
      let (time, hours, limits, room, user, active, fits, role, admitted) =
        validate_create-stages config now i db c h in
      let t = time_iff.0 time in
      let (
        start, end, attendees, by, room_id, role_id, exclusion, choice, positive, someone, past,
        long,
      ) =
        time_iff.0 time in
      let (free, conflict, kind) =
        validate_limits_and_conflicts_sound config now db c.input c.user_role c.user.plan
          c.room_conflict limits in
      record {
        start_given = start;
        end_given = end;
        attendees_given = attendees;
        same_user = by;
        same_room = room_id;
        same_role = role_id;
        same_exclusion = exclusion;
        same_choice = choice;
        positive = positive;
        someone = someone;
        not_past = past;
        not_long = long;
        room_exists = room;
        room_active = active;
        user_exists = user;
        fits = fits;
        role = role;
        role_admitted = admitted;
        is_open = IsOpen-sound db c.input hours;
        limits =
            (limits_iff config now db c.input c.user_role c.user.plan).0
              (limits ∙ ap ok (sym conflict));
        conflict = sym conflict;
      }

  -- the rest of the checks, once the times are valid
  joined :
      validate_time_range config now i ≡ ok c.input
      → room_by_id db c.input.room_id ≡ some c.room
      → c.room.is_active ≡ true
      → user_by_id db c.input.user_id ≡ some c.user
      → c.input.attendees ≤ c.room.capacity
      → c.user_role ≡ effective_role c.user c.input.user_role
      → role_allowed c.room.allowed_roles c.user_role ≡ true
      → validate_opening_hours_and_closures db c.input ≡ ok tt
      → validate_limits_and_conflicts config now db c.input c.user_role c.user.plan
        ≡ ok (room_conflict_of db c.input)
      → c.room_conflict ≡ room_conflict_of db c.input
      → validate_create config now i db ≡ ok c
  unfolding validate_create
  joined t r a u f role admitted hours limits conflict =
      let small : ltb c.room.capacity c.input.attendees ≡ false = ground arith in
      rw (t, r, u, a, small, sym role, admitted, hours, limits, sym conflict) refl

  validate_create_complete : Admissible config now db i c → validate_create config now i db ≡ ok c
  unfolding validate_create
  validate_create_complete v =
      let time : validate_time_range config now i ≡ ok c.input = time_iff.1 (
        v.start_given, v.end_given, v.attendees_given, v.same_user, v.same_room, v.same_role,
        v.same_exclusion, v.same_choice, v.positive, v.someone, v.not_past, v.not_long,
      ) in
      let hours = IsOpen-complete db c.input v.is_open in
      let limits = (limits_iff config now db c.input c.user_role c.user.plan).1 v.limits in
      joined time v.room_exists v.room_active v.user_exists v.fits v.role v.role_admitted hours
        limits v.conflict

  -- `validateCreate` returns a context exactly when the booking is admissible with it: every rule
  -- is enforced, and nothing else is refused.
  pub validate_create_iff : (validate_create config now i db ≡ ok c) ↔ Admissible config now db i c
  validate_create_iff = (validate_create-Admissible, validate_create_complete)
