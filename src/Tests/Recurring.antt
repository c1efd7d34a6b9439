-- ===== src/Tests/Recurring.antt =====
-- Runs of the theorems about series and Pro access.
use room_booking.Base.{
  ℕ, ◌≡◌, refl, ◌*◌, ◌+◌, true, none, some, [], ◌∷◌, codes, ◌-◌, inr, arith, length,
}
use room_booking.Errors.{Result, ok, err}
use room_booking.BangkokTime.{
  monday, friday, get_bangkok_date_time, bangkok_date_as_utc_date,
  bangkok_local_date_time_to_instant, add_calendar_days,
}
use room_booking.BangkokTime.Clock.{parse_clock_minutes}
use room_booking.Store.Rows.{
  Db, BookingSeries, SeriesStatus, pro, BookingEvent, ActorType, EventType, confirmed, Role,
}
use room_booking.Json.{absent}
use room_booking.Store.World.{World, transaction}
use room_booking.Base.Sort.{sort_by}
use room_booking.Store.Tables.{update_users, update_bookings, update_series, insert_booking}
use room_booking.Bookings.Events.{record_event}
use room_booking.Bookings.Cancelling.{cancel_bookings, update_booking}
use room_booking.Bookings.Invariant.{Inv}
use room_booking.Series.Recurrence.{
  BookingSeriesTemplateInput, BookingSeriesOccurrence, Limits, CalendarText,
  generate_weekly_occurrences, occurrence_on, weekday_of,
}
use room_booking.Series.Recurrence.Weekly.{IsWeekly, generate_weekly_occurrences_iff}
use room_booking.Subscription.Entitlement.{
  Cancelled, cancel_for_stripe_customer, cancel_for_users, cancel_found_series, audit_series,
}
use room_booking.Subscription.Entitlement.Ends.{Ended, cancel_for_users-Ended}
use room_booking.Subscription.Webhook.{
  StripeEvent, id_text, subscription_deleted, process, process_tx, create_stripe_event,
  insert_stripe_event, handle, delete_subscription, duplicate_event,
}
use room_booking.Subscription.Webhook.Once.{process_once}
use room_booking.Series.Cancelling.{BookingSeriesActor}
use room_booking.Series.Creation.{
  CreatedSeries, create_tx, create_series, create_occurrences, create_occurrence, book_occurrence,
  refuse_occurrence, finish_create, insert_series, assert_pro_entitlement,
}
use room_booking.Policy.{
  validate_create, validate_time_range, validate_opening_hours_and_closures, check_closure,
  validate_limits_and_conflicts,
}
use room_booking.Series.Creation.Whole.{create_tx_whole}
use room_booking.Tests.{config, by_id, after, ten, hour, alice, empty_db, meeting, world}

-- the Friday and the Monday from 2024-10-04 to 2024-10-07
abbrev plan : BookingSeriesTemplateInput
plan = record {
  room_id = 1;
  start_date = CalendarText.day 20000;
  end_date = CalendarText.day 20003;
  weekdays = some friday ∷ some monday ∷ [];
  start_time = codes "10:00";
  end_time = codes "11:00";
  attendees = some 2;
  purpose = none;
}

abbrev alice_actor : BookingSeriesActor
alice_actor = record { user_id = 2; role = Role.user_role; correlation_id = none }

abbrev limits : Limits
limits = record { max_occurrences = 26; max_span_days = 366 }

abbrev occurrence_after : ℕ → BookingSeriesOccurrence
occurrence_after days = record {
  date = 20000 + days;
  occurrence_date = (20000 + days) * 86400000;
  start_time = ten + days * 86400000;
  end_time = ten + hour + days * 86400000;
}

generate_weekly_occurrences_iff_example :
    IsWeekly plan limits (occurrence_after 0 ∷ occurrence_after 3 ∷ [])
unfolding generate_weekly_occurrences occurrence_on weekday_of parse_clock_minutes
    get_bangkok_date_time bangkok_date_as_utc_date bangkok_local_date_time_to_instant
    add_calendar_days
generate_weekly_occurrences_iff_example =
    (generate_weekly_occurrences_iff plan limits (occurrence_after 0 ∷ occurrence_after 3 ∷ [])
        (omega arith)).0
      refl

-- Alice's series, with its booking of the day
abbrev weekly : BookingSeries
weekly = record {
  id = 20;
  user_id = 2;
  room_id = 1;
  start_date = 20000;
  end_date = 20003;
  weekdays = some friday ∷ some monday ∷ [];
  start_time = codes "10:00";
  end_time = codes "11:00";
  attendees = 2;
  purpose = none;
  status = SeriesStatus.active;
  cancelled_at = none;
}

abbrev first_event : BookingEvent
first_event = record {
  id = 8;
  booking_id = 7;
  room_id = 1;
  actor_type = ActorType.user;
  actor_id = some 2;
  event_type = EventType.created;
  previous_status = none;
  new_status = confirmed;
  metadata = absent;
  correlation_id = none;
  created_at = ten - hour;
}

abbrev pro_db : Db
pro_db = record empty_db {
  users = record alice { plan = pro; stripe_customer_id = some 9 } ∷ [];
  bookings = record meeting { series_id = some 20 } ∷ [];
  booking_events = first_event ∷ [];
  series = weekly ∷ [];
}

pro_db-Inv : Inv pro_db
pro_db-Inv = record {
  apart = (tt, tt);
  distinct = (tt, tt);
  proper = ((omega arith, omega arith), tt);
  current = (refl, tt);
  trace = (refl, inr refl, tt);
  fresh = (omega arith, tt);
}

cancel_for_users-Ended_example :
    (db : Db) × (done : Cancelled) × Ended
      (2 ∷ [])
      (ten - hour)
      (codes "pro-expired")
      pro_db
      db
      done
cancel_for_users-Ended_example =
    cancel_for_users-Ended (2 ∷ []) (ten - hour) (codes "pro-expired") pro_db pro_db-Inv

-- the end of Alice's subscription, at 08:00
abbrev ended : StripeEvent
ended = record {
  id = 3;
  event_type = 0;
  created = 1728003600;
  payload = subscription_deleted (id_text 9);
}

abbrev once_processed : World
once_processed = (process ended (world [] pro_db)).1

process_once_example : process ended once_processed ≡ (ok duplicate_event, once_processed)
unfolding process process_tx transaction create_stripe_event insert_stripe_event handle
    delete_subscription cancel_for_stripe_customer cancel_for_users cancel_found_series update_users
    cancel_bookings sort_by update_booking update_bookings record_event update_series audit_series
process_once_example =
    process_once ended (world [] pro_db) once_processed once_processed true refl refl refl (λ h. h)

-- the series of the Friday only
abbrev friday_series : Result (CreatedSeries × Db)
friday_series =
    create_tx config by_id (record plan { weekdays = some friday ∷ [] }) alice_actor
      (occurrence_after 0 ∷ []) (record pro_db { bookings = []; booking_events = [] })

abbrev nothing_created : CreatedSeries
nothing_created = record { series_id = 0; booking_ids = []; confirmed_booking_ids = [] }

abbrev created_series : CreatedSeries
created_series = elim friday_series [ ok (c, db) ↦ c | err e ↦ nothing_created ]

create_tx_whole_example :
    (length created_series.booking_ids ≡ 1)
    × (length (after pro_db friday_series).bookings ≡ 1)
    × Inv (after pro_db friday_series)
unfolding create_tx create_series create_occurrences create_occurrence book_occurrence
    refuse_occurrence finish_create insert_series assert_pro_entitlement validate_create
    validate_time_range validate_opening_hours_and_closures get_bangkok_date_time
    parse_clock_minutes bangkok_date_as_utc_date check_closure validate_limits_and_conflicts
    record_event insert_booking
create_tx_whole_example =
    create_tx_whole config by_id (record plan { weekdays = some friday ∷ [] }) alice_actor
      (occurrence_after 0 ∷ []) (record pro_db { bookings = []; booking_events = [] })
      (after pro_db friday_series) created_series
      (record { apart = tt; distinct = tt; proper = tt; current = tt; trace = tt; fresh = tt }) refl
