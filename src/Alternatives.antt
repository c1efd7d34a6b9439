-- ===== src/Alternatives.antt =====
-- api/src/booking/booking-alternative.service.ts
--
-- `by_name` is the database's order of rooms, by its collation of names and then by id.
pub mod Valid
use mathlib.Core.List.{reverse}
use room_booking.Base.{
  ℕ, ◌+◌, ◌-◌, ◌*◌, ltb, leb, ◌==◌, not, ◌&&◌, ◌||◌, Bool, true, false, Option, none, some, List,
  [], ◌∷◌, ◌++◌, map, length, take, zero, suc, where_rows, Text, if◌then◌else◌,
}
use room_booking.Errors.{
  Result, ok, err, plain, invalid_date, Rank, same_room_nearby_time, another_room_same_time,
  room_and_time_combination, Alternative,
}
use room_booking.BangkokTime.{get_bangkok_date_time}
use room_booking.Store.Rows.{Db, Room}
use room_booking.Policy.{
  BookingPolicyInput, BookingPolicyConfig, Context, validate_create, room_by_id,
}

-- an entry of `NEARBY_OFFSETS_MINUTES`
pub data Offset : Type 0 where
  minus plus : ℕ → Offset

abbrev nearby_offsets_minutes : List Offset
nearby_offsets_minutes = minus 30 ∷ plus 30 ∷ minus 60 ∷ plus 60 ∷ minus 90 ∷ plus 90 ∷ []

-- An instant lies more than 90 minutes after 1970-01-01T00:00Z.
abbrev shift : Offset → ℕ → ℕ
shift (minus m) t = t - m * 60000
shift (plus m) t = t + m * 60000

-- the arguments of one call of `addIfValid`
pub record Candidate : Type 0 where
  pub reason : Rank
  pub room : Room
  pub start_time : ℕ
  pub end_time : ℕ

-- the variables of `suggest` that `addIfValid` changes
pub record Found : Type 0 where
  pub result : List Alternative
  pub seen : List (ℕ × ℕ × ℕ)

abbrev has_key : ℕ × ℕ × ℕ → List (ℕ × ℕ × ℕ) → Bool
has_key k [] = false
has_key k (j ∷ js) = (j.0 == k.0) && (j.1 == k.1) && (j.2 == k.2) || has_key k js

abbrev key_of : Candidate → ℕ × ℕ × ℕ
key_of c = (c.room.id, c.start_time, c.end_time)

-- `{ ...input, roomId, startTime, endTime }`
abbrev pub input_at : BookingPolicyInput → ℕ → ℕ → ℕ → BookingPolicyInput
input_at input room_id start end = record input {
  room_id = room_id;
  start_time = some start;
  end_time = some end;
}

abbrev alternative_of : Candidate → Alternative
alternative_of c = record {
  reason = c.reason;
  room_id = c.room.id;
  room_name = c.room.name;
  start_time = c.start_time;
  end_time = c.end_time;
}

module _ (config : BookingPolicyConfig) (now : ℕ) (db : Db) (input : BookingPolicyInput)
    (limit : ℕ) where
  -- The new alternative goes to the front: `result` is kept in reverse.
  push_if_ok : Result Context → Candidate → List Alternative → List Alternative
  push_if_ok (ok context) c result = alternative_of c ∷ result
  push_if_ok (err e) c result = result

  add_if_valid : Candidate → Found → Found
  unfolding push_if_ok
  add_if_valid c s =
      if leb limit (length s.result)
      then s
      else if not
          ((get_bangkok_date_time c.start_time).date == (get_bangkok_date_time c.end_time).date)
      then s
      else if has_key (key_of c) s.seen
      then s
      else record {
        result =
            push_if_ok
              (validate_create config now (input_at input c.room.id c.start_time c.end_time) db) c
              s.result;
        seen = key_of c ∷ s.seen;
      }

  add_all : List Candidate → Found → Found
  unfolding add_if_valid
  add_all [] s = s
  add_all (c ∷ cs) s = add_all cs (add_if_valid c s)

abbrev nearby : Rank → ℕ → ℕ → Offset → Room → Candidate
nearby reason start duration offset room = record {
  reason = reason;
  room = room;
  start_time = shift offset start;
  end_time = shift offset start + duration;
}

-- the third pair of loops
combinations : ℕ → ℕ → List Room → List Offset → List Candidate
combinations start duration rooms [] = []
combinations start duration rooms (o ∷ os) =
    map (nearby room_and_time_combination start duration o) rooms
    ++ combinations start duration rooms os

-- the calls of `addIfValid`, in order
candidates : Room → List Room → ℕ → ℕ → List Candidate
unfolding combinations
candidates room others start end =
    map (λ o. nearby same_room_nearby_time start (end - start) o room) nearby_offsets_minutes
    ++ (map
          (λ r. record {
            reason = another_room_same_time;
            room = r;
            start_time = start;
            end_time = end;
          })
          others
        ++ combinations start (end - start) others nearby_offsets_minutes)

abbrev has_amenity : ℕ → List ℕ → Bool
has_amenity a [] = false
has_amenity a (b ∷ bs) = a == b || has_amenity a bs

abbrev has_every : List ℕ → List ℕ → Bool
has_every [] owned = true
has_every (a ∷ wanted) owned = has_amenity a owned && has_every wanted owned

module _ (by_name : List Room → List Room) where
  other_rooms : Db → Room → ℕ → List Room
  other_rooms db requested attendees = take 20 (
      by_name (
        where_rows
          (λ r.
            not (r.id == requested.id)
            && r.is_active
            && leb attendees r.capacity
            && has_every requested.amenities r.amenities)
          db.rooms))

  -- An invalid date makes the first `getBangkokDateTime` throw.
  suggest_for :
      BookingPolicyConfig
      → ℕ
      → Db
      → BookingPolicyInput
      → ℕ
      → Option Room
      → Option ℕ
      → Option ℕ
      → Option ℕ
      → Result (List Alternative)
  unfolding other_rooms candidates add_all
  suggest_for config now db input zero room start end attendees = ok []
  suggest_for config now db input (suc limit) none start end attendees = ok []
  suggest_for config now db input (suc limit) (some room) (some start) (some end) (some attendees) =
      ok (
        reverse
          (add_all config now db input (suc limit)
            (candidates room (other_rooms db room attendees) start end)
            (record { result = []; seen = [] })).result)
  suggest_for config now db input (suc limit) (some room) start end attendees =
      err (plain invalid_date)

  unfoldable pub suggest :
      BookingPolicyConfig → ℕ → BookingPolicyInput → ℕ → Db → Result (List Alternative)
  unfolding suggest_for
  suggest config now input limit db =
      suggest_for config now db input limit (room_by_id db input.room_id) input.start_time
        input.end_time input.attendees
