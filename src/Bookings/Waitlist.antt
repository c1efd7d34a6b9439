-- ===== src/Bookings/Waitlist.antt =====
-- The waitlist of api/src/booking/booking.service.ts, past its transactions: `joinWaitlist`,
-- `leaveWaitlist`, `promoteWaitlist`, `promoteDueWaitlist`.
pub mod Entries
use room_booking.Base.{
  ℕ, ◌+◌, ltb, leb, ◌==◌, not, ◌&&◌, ◌||◌, Bool, true, false, Option, none, some, List, [], ◌∷◌,
  map, length, take, where_rows, if◌then◌else◌,
}
use room_booking.Base.Sort.{sort_by}
use room_booking.Errors.{
  Result, ok, err, Error, policy_with, PolicyCode, room_overlap, room_inactive, room_closed,
  outside_opening_hours,
}
use room_booking.Store.Rows.{Db, WaitlistEntry, is_waiting}
use room_booking.Store.World.{
  World, Api, pure, continue, queries, notify, transaction, NotificationType, ◌>>=◌, ◌>>◌,
}
use room_booking.Retry.{with_serializable_retry, is_exclusion_constraint_error}
use room_booking.Policy.{BookingPolicyConfig}
use room_booking.Bookings.Events.{BookingActor}
use Entries.{
  WaitlistData, join_waitlist_tx, find_waiting, leave_waitlist_tx, promote_tx,
  expire_waitlist_entry_tx,
}

-- `orderBy: { createdAt: "asc" }` over the rows that a condition picks
abbrev pub oldest_first : (WaitlistEntry → Bool) → Db → List WaitlistEntry
oldest_first p db = sort_by (λ (e : WaitlistEntry). e.created_at) (where_rows p db.waitlist)

-- the policy codes for which no later candidate can do better
abbrev pub is_room_code : PolicyCode → Bool
is_room_code room_overlap = true
is_room_code room_inactive = true
is_room_code room_closed = true
is_room_code outside_opening_hours = true
is_room_code _ = false

-- the `catch` of the loop: give up on the slot, go on with the rest, or throw
abbrev pub on_error : Error → Api Bool → Api Bool
on_error (policy_with code alternatives) rest w =
    if is_room_code code then (ok false, w) else rest w
on_error e rest w = if is_exclusion_constraint_error e then (ok false, w) else (err e, w)

abbrev pub after_candidate : Result (Option ℕ) × World → Api Bool → Result Bool × World
after_candidate (ok none, w) rest = rest w
after_candidate (ok (some booking_id), w) rest =
    continue (notify NotificationType.waitlist_promoted booking_id w) (λ _. pure true)
after_candidate (err e, w) rest = on_error e rest w

module _ (config : BookingPolicyConfig) where
  unfoldable pub join_waitlist : WaitlistData → Api WaitlistEntry
  join_waitlist data_in = with_serializable_retry (join_waitlist_tx config data_in)

  -- the loop over the candidates
  unfoldable pub promote_first : ℕ → ℕ → ℕ → BookingActor → List WaitlistEntry → Api Bool
  promote_first room_id start end actor [] w = (ok false, w)
  promote_first room_id start end actor (c ∷ cs) w =
      after_candidate (with_serializable_retry (promote_tx config room_id start end actor c.id) w)
        (promote_first room_id start end actor cs)

  unfoldable pub promote_waitlist : ℕ → ℕ → ℕ → BookingActor → Api Bool
  unfolding promote_first
  promote_waitlist room_id start end actor = do
    candidates ← queries (
        oldest_first (λ e.
          (e.room_id == room_id)
          && (e.start_time == start)
          && (e.end_time == end)
          && is_waiting e.status))
    promote_first room_id start end actor (take 20 candidates)

-- The transaction is read committed: others may commit between its read and its writes.
unfoldable pub leave_waitlist : ℕ → ℕ → Option ℕ → Api WaitlistEntry
leave_waitlist id user_id correlation_id = do
  entry ← transaction (find_waiting id user_id)
  transaction (leave_waitlist_tx user_id correlation_id entry)

unfoldable pub expire_waitlist_entry : ℕ → ℕ → BookingActor → ℕ → Api ℕ
expire_waitlist_entry id room_id actor now =
    transaction (expire_waitlist_entry_tx id room_id actor now)

unfoldable pub get_user_waitlist : ℕ → Api (List WaitlistEntry)
get_user_waitlist user_id =
    queries (oldest_first (λ e. (e.user_id == user_id) && is_waiting e.status))

-- `distinct: ["roomId", "startTime", "endTime"]`: the first row of each slot
abbrev same_slot : WaitlistEntry → WaitlistEntry → Bool
same_slot e f =
    (e.room_id == f.room_id) && (e.start_time == f.start_time) && (e.end_time == f.end_time)

abbrev has_slot : WaitlistEntry → List WaitlistEntry → Bool
has_slot e [] = false
has_slot e (f ∷ fs) = same_slot e f || has_slot e fs

unfoldable pub distinct_slots : List WaitlistEntry → List WaitlistEntry → List WaitlistEntry
distinct_slots seen [] = []
distinct_slots seen (e ∷ es) =
    let rest = distinct_slots (e ∷ seen) es in if has_slot e seen then rest else e ∷ rest

pub record Promotions : Type 0 where
  pub expired : ℕ
  pub promoted : ℕ
  pub slots_checked : ℕ

-- the first loop of `promoteDueWaitlist`
unfoldable pub expire_all : BookingActor → ℕ → List WaitlistEntry → Api ℕ
expire_all actor now [] = pure 0
expire_all actor now (e ∷ es) = do
  one ← expire_waitlist_entry e.id e.room_id actor now
  rest ← expire_all actor now es
  pure (one + rest)

module _ (config : BookingPolicyConfig) where
  -- the second
  unfoldable pub promote_all : BookingActor → List WaitlistEntry → Api ℕ
  promote_all actor [] = pure 0
  promote_all actor (e ∷ es) = do
    done ← promote_waitlist config e.room_id e.start_time e.end_time actor
    rest ← promote_all actor es
    pure ((if done then 1 else 0) + rest)

  unfoldable pub promote_due_waitlist : ℕ → BookingActor → Api Promotions
  unfolding distinct_slots expire_all promote_all
  promote_due_waitlist now actor = do
    due ← queries (oldest_first (λ e. is_waiting e.status && leb e.start_time now))
    expired ← expire_all actor now (take 200 due)
    waiting ← queries (oldest_first (λ e. is_waiting e.status && ltb now e.start_time))
    let slots = take 200 (distinct_slots [] waiting)
    promoted ← promote_all actor slots
    pure (record { expired = expired; promoted = promoted; slots_checked = length slots })
