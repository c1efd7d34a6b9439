-- ===== src/Alternatives/Valid.antt =====
-- What the alternatives of api/src/booking/booking-alternative.service.ts are good for.
use mathlib.Core.List.{reverse}
use room_booking.Base.{
  sym, ℕ, zero, suc, ◌≤◌, ◌≡◌, refl, leb, ◌==◌, not, Bool, false, Bool-cases, inl, inr, Option,
  none, some, List, [], ◌∷◌, All, All-reverse, length, length-reverse, arith,
}
use room_booking.Errors.{Result, ok, err, Alternative}
use room_booking.BangkokTime.{get_bangkok_date_time}
use room_booking.Store.Rows.{Db, Room}
use room_booking.Policy.{
  BookingPolicyInput, BookingPolicyConfig, Context, validate_create, room_by_id,
}
use room_booking.Policy.Spec.{Admissible, validate_create_iff}
use room_booking.Alternatives.{
  Candidate, Found, has_key, key_of, input_at, push_if_ok, add_if_valid, add_all, candidates,
  other_rooms, suggest_for, suggest,
}

module _ (config : BookingPolicyConfig) (now : ℕ) (db : Db) (input : BookingPolicyInput) where
  -- The request, moved to the alternative's room and times, is admissible.
  pub record IsBookable (a : Alternative) : Type 0 where
    pub context : Context
    pub admissible :
        Admissible config now db (input_at input a.room_id a.start_time a.end_time) context

  module _ (limit : ℕ) where
    record IsSound (s : Found) : Type 0 where
      bookable : All IsBookable s.result
      few : length s.result ≤ limit

    push_if_ok-IsSound :
        (c : Candidate) (s : Found) (r : Result Context)
        → validate_create config now (input_at input c.room.id c.start_time c.end_time) db ≡ r
        → leb limit (length s.result) ≡ false
        → IsSound s
        → All IsBookable (push_if_ok config now db input limit r c s.result)
          × (length (push_if_ok config now db input limit r c s.result) ≤ limit)
    unfolding push_if_ok
    push_if_ok-IsSound c s (ok x) h room v = (
      (
        record {
          context = x;
          admissible =
              (validate_create_iff config now db (input_at input c.room.id c.start_time c.end_time)
                  x).0
                h;
        },
        v.bookable,
      ),
      ground arith,
    )
    push_if_ok-IsSound c s (err e) h room v = (v.bookable, v.few)

    abbrev crosses_midnight : Candidate → Bool
    crosses_midnight c =
        not ((get_bangkok_date_time c.start_time).date == (get_bangkok_date_time c.end_time).date)

    add_if_valid-IsSound :
        (c : Candidate) (s : Found)
        → IsSound s
        → IsSound (add_if_valid config now db input limit c s)
    unfolding add_if_valid
    add_if_valid-IsSound c s v = elim (Bool-cases (leb limit (length s.result))) [
      | inl full ↦ rw full v
      | inr room ↦
          let (all, few) = push_if_ok-IsSound c s _ refl room v in
          elim (Bool-cases (crosses_midnight c)) [
            | inl y ↦ rw (room, y) v
            | inr n ↦ elim (Bool-cases (has_key (key_of c) s.seen)) [
              | inl y ↦ rw (room, n, y) v
              | inr unseen ↦ rw (room, n, unseen) (record { bookable = all; few = few })
            ]
          ]
    ]

    add_all-IsSound :
        (cs : List Candidate) (s : Found)
        → IsSound s
        → IsSound (add_all config now db input limit cs s)
    unfolding add_all
    add_all-IsSound [] s v = v
    add_all-IsSound (c ∷ cs) s v =
        add_all-IsSound cs (add_if_valid config now db input limit c s) (add_if_valid-IsSound c s v)

  suggest_for_sound :
      (by_name : List Room → List Room) (limit : ℕ) (room : Option Room)
      (start end attendees : Option ℕ) (found : List Alternative)
      → suggest_for by_name config now db input limit room start end attendees ≡ ok found
      → All IsBookable found × (length found ≤ limit)
  unfolding suggest_for
  suggest_for_sound by_name zero room start end attendees found h =
      let e : [] ≡ found = ground arith in rw (sym e) (tt, omega arith)
  suggest_for_sound by_name (suc limit) none start end attendees found h =
      let e : [] ≡ found = ground arith in rw (sym e) (tt, omega arith)
  suggest_for_sound by_name (suc limit) (some room) none end attendees found h =
      absurd (ground arith)
  suggest_for_sound by_name (suc limit) (some room) (some start) none attendees found h =
      absurd (ground arith)
  suggest_for_sound by_name (suc limit) (some room) (some start) (some end) none found h =
      absurd (ground arith)
  suggest_for_sound by_name (suc limit) (some room) (some start) (some end) (some attendees) found
        h =
      let v =
        add_all-IsSound (suc limit)
          (candidates room (other_rooms by_name db room attendees) start end)
          (record { result = []; seen = [] }) (record { bookable = tt; few = omega arith }) in
      let sound =
        (add_all config now db input (suc limit)
          (candidates room (other_rooms by_name db room attendees) start end)
          (record { result = []; seen = [] })).result in
      let e : reverse sound ≡ found = ground arith in
      rw (sym e)
        (All-reverse IsBookable sound v.bookable, omega (arith, length-reverse sound, v.few))

  -- At most `limit` alternatives are suggested, and the request, moved to the room and the times
  -- of any of them, is admissible.
  pub suggest_sound :
      (by_name : List Room → List Room) (limit : ℕ) (found : List Alternative)
      → suggest by_name config now input limit db ≡ ok found
      → All IsBookable found × (length found ≤ limit)
  unfolding suggest
  suggest_sound by_name limit found h =
      suggest_for_sound by_name limit (room_by_id db input.room_id) input.start_time input.end_time
        input.attendees found h
