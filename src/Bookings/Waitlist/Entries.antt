-- ===== src/Bookings/Waitlist/Entries.antt =====
-- The transactions of the waitlist in api/src/booking/booking.service.ts.
use room_booking.Base.{
  ℕ, leb, ◌==◌, not, ◌&&◌, true, false, Option, none, some, ◌∷◌, Text, codes, or_else, is_some,
  find_first, if◌then◌else◌,
}
use room_booking.Json.{absent, present, end, field, str, num, bool, fields_of, spread}
use room_booking.Errors.{
  ok, plain, waitlist_requires_pro, waitlist_room_free, already_on_waitlist,
  waitlist_entry_not_found, unauthorized, entry_not_waiting, waitlist_changed_concurrently,
  database_error, p2025,
}
use room_booking.Store.Rows.{
  Db, User, Booking, Role, user_role, is_pro, confirmed, ActorType, EventType, TargetType,
  AuditStatus, WaitlistEntry, WaitlistStatus, is_waiting, waitlist_joined, waitlist_cancelled,
  waitlist_promoted, waitlist_expired,
}
use room_booking.Store.Tx.{
  Tx, pure, checks, reads, require, throw_if, fresh_id, new_date, ◌>>=◌, ◌>>◌,
}
use room_booking.Store.Tables.{insert_booking, update_waitlist, record_audit}
use room_booking.Policy.{
  BookingPolicyConfig, BookingPolicyInput, Request, validate_create, user_by_id,
}
use room_booking.Bookings.Events.{BookingActor, EventInput, record_event, user_actor}
use room_booking.Bookings.Create.{new_row}

pub record WaitlistData : Type 0 where
  pub user_id : ℕ
  pub room_id : ℕ
  pub start_time : Option ℕ
  pub end_time : Option ℕ
  pub attendees : Option ℕ
  pub purpose : Option Text
  pub user_role : Option Role
  pub correlation_id : Option ℕ

abbrev pub entry_by_id : ℕ → Db → Option WaitlistEntry
entry_by_id id db = find_first (λ e. e.id == id) db.waitlist

abbrev join_input : WaitlistData → BookingPolicyInput
join_input data_in = record {
  user_id = data_in.user_id;
  room_id = data_in.room_id;
  start_time = data_in.start_time;
  end_time = data_in.end_time;
  attendees = data_in.attendees;
  user_role = data_in.user_role;
  exclude_booking_id = none;
  allow_room_conflict = true;
}

-- `tx.waitlistEntry.create`
unfoldable pub insert_entry : WaitlistEntry → Tx (Unit {0})
insert_entry e db = ok (tt, record db { waitlist = e ∷ db.waitlist })

abbrev pub promoted_event : ℕ → BookingActor → WaitlistEntry → ℕ → EventInput
promoted_event room_id actor entry id = record {
  booking_id = id;
  room_id = room_id;
  actor = record actor {
    metadata =
        present
          (spread (fields_of actor.metadata) (field (codes "source") (str (codes "waitlist")) end));
  };
  event_type = EventType.created;
  previous_status = none;
  new_status = confirmed;
  metadata = present (
      field (codes "waitlistEntryId") (num entry.id)
        (field (codes "autoConfirmed") (bool true) end));
}

abbrev pub promoted_row : Request → WaitlistEntry → ℕ → ℕ → Booking
promoted_row r entry id now = record (new_row r id now entry.purpose confirmed) {
  approved_at = some now;
}

-- the audit row of a promotion, and the event of its booking
unfoldable pub record_promotion : ℕ → BookingActor → WaitlistEntry → ℕ → Tx (Option ℕ)
record_promotion room_id actor entry id = do
  record_audit (record {
    actor_type = actor.actor_type;
    actor_id = actor.id;
    correlation_id = actor.correlation_id;
    target_type = TargetType.waitlist;
    target_id = entry.id;
    event_type = waitlist_promoted;
    source_event_id = none;
    booking_id = some id;
    room_id = some room_id;
    previous_status = some (AuditStatus.waitlist WaitlistStatus.waiting);
    new_status = some (AuditStatus.waitlist WaitlistStatus.promoted);
    metadata = absent;
    created_at = none;
  })
  record_event (promoted_event room_id actor entry id)
  pure (some id)

-- what follows the claim of the entry
unfoldable pub book_entry : ℕ → BookingActor → WaitlistEntry → Request → Tx (Option ℕ)
book_entry room_id actor entry r = do
  now ← new_date
  id ← fresh_id
  insert_booking (promoted_row r entry id now)
  record_promotion room_id actor entry id

module _ (config : BookingPolicyConfig) where
  unfoldable pub join_waitlist_tx : WaitlistData → Tx WaitlistEntry
  unfolding insert_entry
  join_waitlist_tx data_in = do
    now ← new_date
    context ← checks (validate_create config now (join_input data_in))
    throw_if (not (is_pro context.user.plan)) (plain waitlist_requires_pro)
    throw_if (not (is_some context.room_conflict)) (plain waitlist_room_free)
    let r = context.input
    existing ← reads (λ db.
        find_first
          (λ e.
            (e.user_id == r.user_id)
            && (e.room_id == r.room_id)
            && (e.start_time == r.start_time)
            && (e.end_time == r.end_time)
            && is_waiting e.status)
          db.waitlist)
    throw_if (is_some existing) (plain already_on_waitlist)
    id ← fresh_id
    let entry : WaitlistEntry = record {
      id = id;
      user_id = r.user_id;
      room_id = r.room_id;
      start_time = r.start_time;
      end_time = r.end_time;
      attendees = r.attendees;
      purpose = data_in.purpose;
      status = WaitlistStatus.waiting;
      notified_at = none;
      created_at = now;
    }
    insert_entry entry
    record_audit (record {
      actor_type = (user_actor data_in.user_id data_in.user_role data_in.correlation_id).actor_type;
      actor_id = some data_in.user_id;
      correlation_id = data_in.correlation_id;
      target_type = TargetType.waitlist;
      target_id = id;
      event_type = waitlist_joined;
      source_event_id = none;
      booking_id = none;
      room_id = some r.room_id;
      previous_status = none;
      new_status = some (AuditStatus.waitlist WaitlistStatus.waiting);
      metadata = present (
          field (codes "startTime") (num r.start_time) (
            field (codes "endTime") (num r.end_time)
              (field (codes "attendees") (num r.attendees) end)));
      created_at = none;
    })
    pure entry

  abbrev promotion_input : ℕ → ℕ → ℕ → WaitlistEntry → Option Role → BookingPolicyInput
  promotion_input room_id start end_time entry role = record {
    user_id = entry.user_id;
    room_id = room_id;
    start_time = some start;
    end_time = some end_time;
    attendees = some entry.attendees;
    user_role = some (or_else role user_role);
    exclude_booking_id = none;
    allow_room_conflict = false;
  }

  -- `entry.user.role`
  abbrev role_of : Option User → Option Role
  role_of none = none
  role_of (some u) = u.role

  unfoldable pub promote_found : ℕ → ℕ → ℕ → BookingActor → WaitlistEntry → Tx (Option ℕ)
  promote_found room_id start end_time actor entry = do
    user ← reads (λ db. user_by_id db entry.user_id)
    policy_now ← new_date
    context ← checks (
        validate_create config policy_now
          (promotion_input room_id start end_time entry (role_of user)))
    now ← new_date
    claimed ←
        update_waitlist (λ e. (e.id == entry.id) && is_waiting e.status)
          (λ e. record e { status = WaitlistStatus.promoted; notified_at = some now })
    if not (claimed == 1) then pure none else book_entry room_id actor entry context.input

  -- `none`: the entry is gone or no longer waits
  unfoldable pub promote_waiting : ℕ → ℕ → ℕ → BookingActor → Option WaitlistEntry → Tx (Option ℕ)
  promote_waiting room_id start end_time actor none = pure none
  promote_waiting room_id start end_time actor (some entry) =
      if is_waiting entry.status
      then promote_found room_id start end_time actor entry
      else pure none

  unfoldable pub promote_tx : ℕ → ℕ → ℕ → BookingActor → ℕ → Tx (Option ℕ)
  promote_tx room_id start end_time actor id = do
    found ← reads (entry_by_id id)
    promote_waiting room_id start end_time actor found

-- the first statement of `leaveWaitlist`, with the checks of what it has read
unfoldable pub find_waiting : ℕ → ℕ → Tx WaitlistEntry
find_waiting id user_id = do
  found ← reads (entry_by_id id)
  entry ← require found (plain waitlist_entry_not_found)
  throw_if (not (entry.user_id == user_id)) (plain unauthorized)
  throw_if (not (is_waiting entry.status)) (plain entry_not_waiting)
  pure entry

-- the rest, for the entry that was read
unfoldable pub leave_waitlist_tx : ℕ → Option ℕ → WaitlistEntry → Tx WaitlistEntry
leave_waitlist_tx user_id correlation_id entry = do
  count ←
      update_waitlist (λ e. (e.id == entry.id) && is_waiting e.status)
        (λ e. record e { status = WaitlistStatus.cancelled })
  throw_if (not (count == 1)) (plain waitlist_changed_concurrently)
  record_audit (record {
    actor_type = ActorType.user;
    actor_id = some user_id;
    correlation_id = correlation_id;
    target_type = TargetType.waitlist;
    target_id = entry.id;
    event_type = waitlist_cancelled;
    source_event_id = none;
    booking_id = none;
    room_id = some entry.room_id;
    previous_status = some (AuditStatus.waitlist WaitlistStatus.waiting);
    new_status = some (AuditStatus.waitlist WaitlistStatus.cancelled);
    metadata = absent;
    created_at = none;
  })
  result ← reads (entry_by_id entry.id)
  updated ← require result (database_error p2025)
  pure updated

-- the audit row of an expiry
unfoldable pub audit_expiry : ℕ → ℕ → BookingActor → ℕ → Tx ℕ
audit_expiry id room_id actor now = do
  record_audit (record {
    actor_type = actor.actor_type;
    actor_id = actor.id;
    correlation_id = actor.correlation_id;
    target_type = TargetType.waitlist;
    target_id = id;
    event_type = waitlist_expired;
    source_event_id = none;
    booking_id = none;
    room_id = some room_id;
    previous_status = some (AuditStatus.waitlist WaitlistStatus.waiting);
    new_status = some (AuditStatus.waitlist WaitlistStatus.expired);
    metadata = absent;
    created_at = some now;
  })
  pure 1

unfoldable pub expire_waitlist_entry_tx : ℕ → ℕ → BookingActor → ℕ → Tx ℕ
expire_waitlist_entry_tx id room_id actor now = do
  count ←
      update_waitlist (λ e. (e.id == id) && is_waiting e.status && leb e.start_time now)
        (λ e. record e { status = WaitlistStatus.expired })
  if not (count == 1) then pure 0 else audit_expiry id room_id actor now
