-- ===== src/Tests/Queries.antt =====
-- Runs of the theorems about the queries of bookings.
use room_booking.Base.{
  ℕ, ◌+◌, ◌*◌, ◌≤◌, ◌≡◌, ◌↔◌, refl, Bool, true, false, none, some, [], ◌∷◌, All, length, codes,
  Text,
}
use room_booking.Base.Sort.{sort_by, IsSorted}
use room_booking.Errors.{ok}
use room_booking.Json.{absent}
use room_booking.Store.Rows.{Db, Role, BookingEvent, ActorType, EventType, confirmed}
use room_booking.Bookings.Queries.{
  BookingQuery, BookingPage, TimelineId, audit_id, event_id, TimelineEntry, view_of, page_of,
  get_bookings, range_of, get_booking_by_id, get_booking_timeline, legacy_entry,
}
use room_booking.Bookings.Queries.Visible.{
  IsOwn, get_bookings-IsOwn, get_booking_by_id_iff, get_booking_timeline-IsSorted,
}
use room_booking.Tests.{ten, hour, busy_db, meeting}

abbrev equal_text : Text → Text → Bool
equal_text t q = true

abbrev asked : BookingQuery
asked = record {
  status = some (confirmed ∷ []);
  room_id = none;
  user_id = some 3;
  date = none;
  page = none;
  limit = some 1;
  for_self = false;
  search = some (codes "lab");
}

-- Alice's meeting, a later one of hers, and one of Bob's
abbrev three_db : Db
three_db = record busy_db {
  bookings =
      meeting
      ∷ record meeting {
        id = 8;
        start_time = ten + hour;
        end_time = ten + 2 * hour;
        created_at = ten;
      }
      ∷ record meeting { id = 9; user_id = 3; room_id = 2 }
      ∷ [];
}

abbrev first_page : BookingPage
first_page = page_of equal_text (λ bs. bs) 2 Role.user_role asked three_db none

get_bookings-IsOwn_example :
    All (IsOwn 2) first_page.bookings × (length first_page.bookings ≤ first_page.limit)
unfolding get_bookings range_of
get_bookings-IsOwn_example =
    get_bookings-IsOwn equal_text (λ bs. bs) (λ P bs a. a) 2 Role.user_role asked three_db
      first_page refl refl

get_booking_by_id_iff_example :
    (get_booking_by_id 7 3 Role.user_role three_db ≡ ok (view_of meeting)) ↔ (meeting.user_id ≡ 3)
get_booking_by_id_iff_example = get_booking_by_id_iff 7 3 Role.user_role three_db meeting refl refl

abbrev made_event : BookingEvent
made_event = record {
  id = 11;
  booking_id = 7;
  room_id = 1;
  actor_type = ActorType.user;
  actor_id = some 2;
  event_type = EventType.created;
  previous_status = none;
  new_status = confirmed;
  metadata = absent;
  correlation_id = none;
  created_at = ten;
}

abbrev by_number : TimelineId → ℕ
by_number (audit_id n) = n
by_number (event_id n) = n

get_booking_timeline-IsSorted_example :
    (true ≡ true)
    × IsSorted (λ (t : TimelineEntry). t.created_at) (legacy_entry made_event ∷ [])
    × (1 ≤ 200)
unfolding get_booking_timeline sort_by
get_booking_timeline-IsSorted_example =
    get_booking_timeline-IsSorted by_number 7 Role.admin_role
      (record busy_db { booking_events = made_event ∷ [] }) (legacy_entry made_event ∷ []) refl
