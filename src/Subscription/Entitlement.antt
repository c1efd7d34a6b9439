-- ===== src/Subscription/Entitlement.antt =====
-- The transactions of api/src/subscription/recurring-entitlement.service.ts.
pub mod Ends
use room_booking.Base.{
  includes_id, ℕ, ◌+◌, ◌==◌, leb, ◌&&◌, ◌||◌, not, Bool, true, false, List, [], ◌∷◌, map, Option,
  none, some, Text, codes, where_rows, length, is_empty, if◌then◌else◌,
}
use room_booking.Base.Sort.{sort_by}
use room_booking.Json.{Json, null, num, str, Metadata, present, field, end}
use room_booking.Store.Rows.{
  Db, User, is_pro, free, Booking, BookingStatus, pending, confirmed, BookingSeries, SeriesStatus,
  is_active_series, ActorType, TargetType, AuditStatus, booking_series_cancelled_pro_expired,
}
use room_booking.Store.Tx.{Tx, pure, reads, ◌>>=◌, ◌>>◌}
use room_booking.Store.Tables.{update_users, update_series, record_audit}
use room_booking.Bookings.Cancelling.{cancel_bookings, system}

abbrev pub in_series : List ℕ → Option ℕ → Bool
in_series ids none = false
in_series ids (some id) = includes_id ids id

abbrev pub is_upcoming : BookingStatus → Bool
is_upcoming pending = true
is_upcoming confirmed = true
is_upcoming _ = false

pub record Cancelled : Type 0 where
  pub series : ℕ
  pub bookings : ℕ

abbrev pub none_cancelled : Cancelled
none_cancelled = record { series = 0; bookings = 0 }

abbrev pub reason : Text
reason = codes "Recurring booking cancelled because Pro access expired"

abbrev id_json : Option ℕ → Json
id_json none = null
id_json (some id) = num id

abbrev pub cancel_metadata : Text → Booking → Metadata
cancel_metadata source b =
    present
      (field (codes "source") (str source) (field (codes "seriesId") (id_json b.series_id) end))

-- the series that the users have running
abbrev pub running : List ℕ → BookingSeries → Bool
running user_ids s = includes_id user_ids s.user_id && is_active_series s.status

-- the bookings of the series that are still to come
abbrev pub due : List ℕ → ℕ → Booking → Bool
due series_ids now b =
    in_series series_ids b.series_id && is_upcoming b.status && leb now b.start_time

abbrev pub due_bookings : List ℕ → ℕ → Db → List Booking
due_bookings series_ids now db =
    sort_by (λ b. b.start_time) (sort_by (λ b. b.id) (where_rows (due series_ids now) db.bookings))

abbrev pub ends : ℕ → BookingSeries → BookingSeries
ends now s = record s { status = SeriesStatus.cancelled; cancelled_at = some now }

-- the audit rows of the series
unfoldable pub audit_series : ℕ → Text → List BookingSeries → Tx (Unit {0})
audit_series now source [] = pure tt
audit_series now source (s ∷ rest) = do
  record_audit (record {
    actor_type = ActorType.system;
    actor_id = none;
    correlation_id = none;
    target_type = TargetType.booking_series;
    target_id = s.id;
    event_type = booking_series_cancelled_pro_expired;
    source_event_id = none;
    booking_id = none;
    room_id = some s.room_id;
    previous_status = some (AuditStatus.series s.status);
    new_status = some (AuditStatus.series SeriesStatus.cancelled);
    metadata = present (field (codes "source") (str source) end);
    created_at = some now;
  })
  audit_series now source rest

abbrev pub series_ids_of : List BookingSeries → List ℕ
series_ids_of series = map (λ s. s.id) series

-- what is done for the series that were found
unfoldable pub cancel_found_series : ℕ → Text → List BookingSeries → Tx Cancelled
cancel_found_series now source series = do
  bookings ← reads (due_bookings (series_ids_of series) now)
  cancel_bookings now reason system (cancel_metadata source) bookings
  updated ←
      update_series (λ s. includes_id (series_ids_of series) s.id && is_active_series s.status)
        (ends now)
  audit_series now source series
  pure (record { series = length series; bookings = length bookings })

unfoldable pub cancel_for_users : List ℕ → ℕ → Text → Tx Cancelled
cancel_for_users user_ids now source =
    if is_empty user_ids
    then pure none_cancelled
    else (reads (λ db. where_rows (running user_ids) db.series) >>= λ series.
        if is_empty series then pure none_cancelled else cancel_found_series now source series)

abbrev pub has_customer : ℕ → User → Bool
has_customer customer u = in_series (customer ∷ []) u.stripe_customer_id

unfoldable pub cancel_for_stripe_customer : ℕ → ℕ → Text → Tx Cancelled
cancel_for_stripe_customer customer now source = do
  users ← reads (λ db. where_rows (has_customer customer) db.users)
  cancel_for_users (map (λ u. u.id) users) now source

abbrev is_past : Option ℕ → ℕ → Bool
is_past none now = false
is_past (some at) now = leb at now

-- `plan: "PRO", planExpiresAt: { lte: now }`
abbrev pub is_expired : ℕ → User → Bool
is_expired now u = is_pro u.plan && is_past u.plan_expires_at now

abbrev pub expires_at : User → ℕ
expires_at u = elim u.plan_expires_at [ none ↦ 0 | some at ↦ at ]

abbrev pub downgrades : User → User
downgrades u = record u { plan = free; plan_expires_at = none }

-- the numbers of users, series and bookings
pub record Expired : Type 0 where
  pub users : ℕ
  pub series : ℕ
  pub bookings : ℕ

unfoldable pub expire_user_tx : ℕ → ℕ → Tx Expired
expire_user_tx now id = do
  count ← update_users (λ u. (u.id == id) && is_expired now u) downgrades
  let nobody : Expired = record { users = 0; series = 0; bookings = 0 }
  let expire = cancel_for_users (id ∷ []) now (codes "pro-expired") >>= λ done.
      pure (record { users = 1; series = done.series; bookings = done.bookings })
  if not (count == 1) then pure nobody else expire
