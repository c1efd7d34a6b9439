-- ===== src/Bookings/Queries.antt =====
-- `getBookings`, `getBookingById`, `getBookingTimeline` and `getStats` of
-- api/src/booking/booking.service.ts.
--
-- `contains` is the database's search for a text that ignores case, `rank` the order of the ids of
-- a timeline as texts, `in_db_order` the order in which the database comes upon the bookings that it
-- finds: a list of bookings is sorted by the time of their creation alone, so it is this order that
-- places bookings of the same time. A page is at least 1 and a limit is positive; the route lets
-- other numbers through, which are left to the database and are not modelled.
pub mod Visible
use room_booking.Base.{
  ℕ, ◌+◌, ◌-◌, ◌*◌, ◌/◌, ltb, leb, not, ◌&&◌, ◌||◌, ◌==◌, Bool, true, false, Option, none, some,
  is_some, or_else, List, [], ◌∷◌, ◌++◌, map, length, take, drop, where_rows, count_rows, any_row,
  find_first, Text, if◌then◌else◌,
}
use mathlib.Core.List.{reverse}
use room_booking.Base.Sort.{sort_by}
use room_booking.Json.{Metadata}
use room_booking.Errors.{
  Result, ok, err, plain, unauthorized, booking_not_found, throw_if, ◌>>=◌, ◌>>◌,
}
use room_booking.BangkokTime.{DayBounds, bangkok_day_bounds, get_bangkok_date_time}
use room_booking.Store.Rows.{
  Db, Booking, BookingStatus, pending, confirmed, status_eq, Room, User, Role, role_eq, admin_role,
  AuditLog, BookingEvent, ActorType, AuditEventType, of_booking, AuditStatus,
}
use room_booking.CheckIn.{CheckInWindow, get_window}
use room_booking.Bookings.Events.{includes_status}
use room_booking.Bookings.Transition.{booking_by_id, without_qr_token_hash}

-- the parameters of `getBookings`; the statuses are those that the text names
pub record BookingQuery : Type 0 where
  pub status : Option (List BookingStatus)
  pub room_id : Option ℕ
  pub user_id : Option ℕ
  pub date : Option ℕ
  pub page : Option ℕ
  pub limit : Option ℕ
  pub for_self : Bool
  pub search : Option Text

pub record BookingView : Type 0 where
  pub booking : Booking
  pub check_in_window : CheckInWindow

abbrev pub view_of : Booking → BookingView
view_of b = record { booking = without_qr_token_hash b; check_in_window = get_window b.start_time }

pub record BookingPage : Type 0 where
  pub bookings : List BookingView
  pub total : ℕ
  pub page : ℕ
  pub limit : ℕ
  pub total_pages : ℕ

-- `where.userId`
abbrev pub wanted_user : ℕ → Role → BookingQuery → Option ℕ
wanted_user user_id role params =
    let everyone = if role_eq role admin_role && not params.for_self then none else some user_id in
    if role_eq role admin_role && is_some params.user_id then params.user_id else everyone

abbrev pub is_wanted : Option ℕ → ℕ → Bool
is_wanted none id = true
is_wanted (some wanted) id = id == wanted

abbrev has_status : Option (List BookingStatus) → BookingStatus → Bool
has_status none s = true
has_status (some statuses) s = includes_status statuses s

-- the bounds of the day, if there is one
unfoldable pub range_of : Option ℕ → Result (Option DayBounds)
range_of none = ok none
range_of (some date) = do bounds ← bangkok_day_bounds date; ok (some bounds)

abbrev is_in : Option DayBounds → ℕ → Bool
is_in none start = true
is_in (some bounds) start = leb bounds.start start && ltb start bounds.end

module _ (contains : Text → Text → Bool) (in_db_order : List Booking → List Booking) where
  abbrev purpose_contains : Option Text → Text → Bool
  purpose_contains none q = false
  purpose_contains (some purpose) q = contains purpose q

  abbrev is_found : Db → Option Text → Booking → Bool
  is_found db none b = true
  is_found db (some q) b =
      any_row (λ (r : Room). (r.id == b.room_id) && contains r.name q) db.rooms
      || any_row (λ (u : User). (u.id == b.user_id) && (contains u.name q || contains u.email q))
          db.users
      || purpose_contains b.purpose q

  -- the `where` of `getBookings`
  abbrev pub is_asked : Db → ℕ → Role → BookingQuery → Option DayBounds → Booking → Bool
  is_asked db user_id role params range b =
      is_wanted (wanted_user user_id role params) b.user_id
      && has_status params.status b.status
      && is_wanted params.room_id b.room_id
      && is_in range b.start_time
      && is_found db params.search b

  abbrev pub asked_rows : Db → ℕ → Role → BookingQuery → Option DayBounds → List Booking
  asked_rows db user_id role params range = reverse (
      sort_by (λ b. b.created_at)
        (in_db_order (where_rows (is_asked db user_id role params range) db.bookings)))

  abbrev pub page_of : ℕ → Role → BookingQuery → Db → Option DayBounds → BookingPage
  page_of user_id role params db range =
      let page = or_else params.page 1 in
      let limit = or_else params.limit 20 in
      let total = count_rows (is_asked db user_id role params range) db.bookings in
      record {
        bookings =
            map view_of
              (take limit (drop ((page - 1) * limit) (asked_rows db user_id role params range)));
        total = total;
        page = page;
        limit = limit;
        total_pages = (total + limit - 1) / limit;
      }

  unfoldable pub get_bookings : ℕ → Role → BookingQuery → Db → Result BookingPage
  unfolding range_of
  get_bookings user_id role params db = do
    range ← range_of params.date
    ok (page_of user_id role params db range)

unfoldable pub get_booking_by_id : ℕ → ℕ → Role → Db → Result BookingView
get_booking_by_id id user_id role db = elim (booking_by_id id db) [
  | none ↦ err (plain booking_not_found)
  | some b ↦
      if not (role_eq role admin_role) && not (b.user_id == user_id)
      then err (plain unauthorized)
      else ok (view_of b)
]

pub data TimelineId : Type 0 where
  audit_id event_id : ℕ → TimelineId

pub record TimelineEntry : Type 0 where
  pub id : TimelineId
  pub actor_type : ActorType
  pub actor_id : Option ℕ
  pub event_type : AuditEventType
  pub previous_status : Option AuditStatus
  pub new_status : Option AuditStatus
  pub metadata : Metadata
  pub correlation_id : Option ℕ
  pub created_at : ℕ

abbrev pub audit_entry : AuditLog → TimelineEntry
audit_entry a = record {
  id = audit_id a.id;
  actor_type = a.actor_type;
  actor_id = a.actor_id;
  event_type = a.event_type;
  previous_status = a.previous_status;
  new_status = a.new_status;
  metadata = a.metadata;
  correlation_id = a.correlation_id;
  created_at = a.created_at;
}

abbrev pub booking_status : Option BookingStatus → Option AuditStatus
booking_status none = none
booking_status (some s) = some (AuditStatus.booking s)

abbrev pub legacy_entry : BookingEvent → TimelineEntry
legacy_entry e = record {
  id = event_id e.id;
  actor_type = e.actor_type;
  actor_id = e.actor_id;
  event_type = of_booking e.event_type;
  previous_status = booking_status e.previous_status;
  new_status = some (AuditStatus.booking e.new_status);
  metadata = e.metadata;
  correlation_id = e.correlation_id;
  created_at = e.created_at;
}

abbrev is_about : ℕ → Option ℕ → Bool
is_about id none = false
is_about id (some i) = i == id

abbrev pub audits_of : ℕ → Db → List AuditLog
audits_of id db = take 200 (
    sort_by (λ a. a.created_at)
      (sort_by (λ a. a.id) (where_rows (λ (a : AuditLog). is_about id a.booking_id) db.audit_logs)))

abbrev pub events_of : ℕ → Db → List BookingEvent
events_of id db = take 200 (
    sort_by (λ e. e.created_at)
      (sort_by (λ e. e.id)
        (where_rows (λ (e : BookingEvent). e.booking_id == id) db.booking_events)))

-- `auditedEventIds.has`
abbrev pub is_audited : List AuditLog → BookingEvent → Bool
is_audited audits e = any_row (λ (a : AuditLog). is_about e.id a.source_event_id) audits

abbrev pub entries : List AuditLog → List BookingEvent → List TimelineEntry
entries audits events =
    map audit_entry audits ++ map legacy_entry (where_rows (λ e. not (is_audited audits e)) events)

module _ (rank : TimelineId → ℕ) where
  unfoldable pub get_booking_timeline : ℕ → Role → Db → Result (List TimelineEntry)
  get_booking_timeline id role db = do
    throw_if (not (role_eq role admin_role)) (plain unauthorized)
    throw_if (not (is_some (booking_by_id id db))) (plain booking_not_found)
    ok (
        take 200 (
          sort_by (λ t. t.created_at)
            (sort_by (λ t. rank t.id) (entries (audits_of id db) (events_of id db)))))

pub record Stats : Type 0 where
  pub total_rooms : ℕ
  pub pending_bookings : ℕ
  pub total_users : ℕ
  pub confirmed_today : ℕ

abbrev pub stats_on : Db → DayBounds → Stats
stats_on db today = record {
  total_rooms = count_rows (λ (r : Room). r.is_active) db.rooms;
  pending_bookings = count_rows (λ (b : Booking). status_eq b.status pending) db.bookings;
  total_users = length db.users;
  confirmed_today =
      count_rows
        (λ (b : Booking).
          status_eq b.status confirmed
          && leb today.start b.start_time
          && ltb b.start_time today.end)
        db.bookings;
}

unfoldable pub get_stats : Db → Result Stats
get_stats db = do
  today ← bangkok_day_bounds (get_bangkok_date_time db.clock).date
  ok (stats_on db today)
