-- ===== src/Policy/OpeningHours.antt =====
-- The rules of api/src/booking/booking-policy.service.ts on opening hours and closures, apart from
-- the order of the checks.
use room_booking.Base.{
  ==_refl, ◌==◌, ltb, ◌&&◌, ℕ, refl, ◌≤◌, ◌≡◌, ◌↔◌, ◌⊎◌, Bool, true, false, Option, none, some,
  List, [], ◌∷◌, All, arith, Text,
}
use room_booking.Errors.{Result, ok, err, >>=-eq-ok, ◌>>=◌, throw_if, policy, room_closed}
use room_booking.BangkokTime.{get_bangkok_date_time, bangkok_date_as_utc_date}
use room_booking.BangkokTime.Clock.{parse_clock_minutes}
use room_booking.Store.Rows.{Db, TimeSlot, RoomClosure}
use room_booking.Policy.{
  Request, check_closure, check_closures, check_opening_hours, end_minute, slot_of, closures_of,
  validate_opening_hours_and_closures,
}

-- a closure that leaves the minutes from `start` to `end` open
pub record Leaves (start end : ℕ) (c : RoomClosure) : Type 0 where
  pub not_all_day : c.all_day ≡ false
  pub from : ℕ
  pub to : ℕ
  pub from_text : Text
  pub to_text : Text
  pub from_given : c.start_time ≡ some from_text
  pub to_given : c.end_time ≡ some to_text
  pub from_parsed : parse_clock_minutes from_text false ≡ ok from
  pub to_parsed : parse_clock_minutes to_text true ≡ ok to
  pub apart : (to ≤ start) ⊎ (end ≤ from)

-- The room is open all the time of the booking.
pub record IsOpen (db : Db) (r : Request) : Type 0 where
  pub one_day : (get_bangkok_date_time r.start_time).date ≡ (get_bangkok_date_time r.end_time).date
  pub slot : TimeSlot
  pub opens_at : ℕ
  pub closes_at : ℕ
  pub has_slot : slot_of db r.room_id (get_bangkok_date_time r.start_time).day_of_week ≡ some slot
  pub opens : parse_clock_minutes slot.open_time false ≡ ok opens_at
  pub closes : parse_clock_minutes slot.close_time true ≡ ok closes_at
  pub after_opening : opens_at ≤ (get_bangkok_date_time r.start_time).minutes_since_midnight
  pub before_closing : end_minute (get_bangkok_date_time r.end_time) ≤ closes_at
  pub no_closure :
      All
        (Leaves
          (get_bangkok_date_time r.start_time).minutes_since_midnight
          (end_minute (get_bangkok_date_time r.end_time)))
        (closures_of db r.room_id
          (bangkok_date_as_utc_date (get_bangkok_date_time r.start_time).date))

opening_hours_iff :
    (start end : ℕ) (slot : TimeSlot)
    → (check_opening_hours start end (some slot) ≡ ok tt) ↔ (
        (o : ℕ) × (c : ℕ) × (parse_clock_minutes slot.open_time false ≡ ok o)
        × (parse_clock_minutes slot.close_time true ≡ ok c)
        × (o ≤ start)
        × (end ≤ c))
unfolding check_opening_hours
opening_hours_iff start end slot = (λ h. ground arith, λ (o, c, p, q, l, m). ground arith)

closure_bounds :
    (start end : ℕ) (r s : Result ℕ)
    → (r >>= λ from. s >>= λ to. throw_if (ltb start to && ltb from end) (policy room_closed))
      ≡ ok tt
    → (f : ℕ) × (g : ℕ) × (r ≡ ok f) × (s ≡ ok g) × ((g ≤ start) ⊎ (end ≤ f))
closure_bounds start end (err e) s h = absurd (ground arith)
closure_bounds start end (ok f) (err e) h = absurd (ground arith)
closure_bounds start end (ok f) (ok g) h = (f, g, refl, refl, ground arith)

leaves_parts :
    (start end : ℕ) (all_day : Bool) (from to : Option Text)
    → check_closure start end all_day from to ≡ ok tt
    → (all_day ≡ false)
      × (s : Text) × (t : Text) × (from ≡ some s)
      × (to ≡ some t)
      × (f : ℕ) × (g : ℕ) × (parse_clock_minutes s false ≡ ok f)
      × (parse_clock_minutes t true ≡ ok g)
      × ((g ≤ start) ⊎ (end ≤ f))
unfolding check_closure
leaves_parts start end true from to h = absurd (ground arith)
leaves_parts start end false none to h = absurd (ground arith)
leaves_parts start end false (some []) to h = absurd (ground arith)
leaves_parts start end false (some (c ∷ cs)) none h = absurd (ground arith)
leaves_parts start end false (some (c ∷ cs)) (some []) h = absurd (ground arith)
leaves_parts start end false (some (c ∷ cs)) (some (d ∷ ds)) h =
    let (f, g, p, q, apart) =
      closure_bounds start end (parse_clock_minutes (c ∷ cs) false)
        (parse_clock_minutes (d ∷ ds) true) h in
    (refl, c ∷ cs, d ∷ ds, refl, refl, f, g, p, q, apart)

check_closure_iff :
    (start end : ℕ) (c : RoomClosure)
    → (check_closure start end c.all_day c.start_time c.end_time ≡ ok tt) ↔ Leaves start end c
unfolding check_closure
check_closure_iff start end c = (
  λ h.
      let (n, s, t, a, b, f, g, p, q, d) =
        leaves_parts start end c.all_day c.start_time c.end_time h in
      record {
        not_all_day = n;
        from = f;
        to = g;
        from_text = s;
        to_text = t;
        from_given = a;
        to_given = b;
        from_parsed = p;
        to_parsed = q;
        apart = d;
      },
  λ l. ground arith,
)

closures_iff :
    (start end : ℕ) (cs : List RoomClosure)
    → (check_closures start end cs ≡ ok tt) ↔ All (Leaves start end) cs
unfolding check_closures
closures_iff start end [] = (λ h. tt, λ a. refl)
closures_iff start end (c ∷ cs) = (
  λ h.
      let (u, first, rest) =
        >>=-eq-ok (check_closure start end c.all_day c.start_time c.end_time) _ h in
      ((check_closure_iff start end c).0 first, (closures_iff start end cs).0 rest),
  λ a. rw ((check_closure_iff start end c).1 a.0) ((closures_iff start end cs).1 a.1),
)

module _ (db : Db) (r : Request) where
  abbrev start_minute : ℕ
  start_minute = (get_bangkok_date_time r.start_time).minutes_since_midnight

  abbrev last_minute : ℕ
  last_minute = end_minute (get_bangkok_date_time r.end_time)

  abbrev day_closures : List RoomClosure
  day_closures =
      closures_of db r.room_id (bangkok_date_as_utc_date (get_bangkok_date_time r.start_time).date)

  abbrev day_slot : Option TimeSlot
  day_slot = slot_of db r.room_id (get_bangkok_date_time r.start_time).day_of_week

  open_parts :
      validate_opening_hours_and_closures db r ≡ ok tt
      → ((get_bangkok_date_time r.start_time).date ≡ (get_bangkok_date_time r.end_time).date)
        × (check_opening_hours start_minute last_minute day_slot ≡ ok tt)
        × (check_closures start_minute last_minute day_closures ≡ ok tt)
  unfolding validate_opening_hours_and_closures
  open_parts h = ground arith

  hours_of :
      (o : Option TimeSlot)
      → check_opening_hours start_minute last_minute o ≡ ok tt
      → (slot : TimeSlot) × (o ≡ some slot)
        × (from : ℕ) × (to : ℕ) × (parse_clock_minutes slot.open_time false ≡ ok from)
        × (parse_clock_minutes slot.close_time true ≡ ok to)
        × (from ≤ start_minute)
        × (last_minute ≤ to)
  unfolding check_opening_hours
  hours_of none h = absurd (ground arith)
  hours_of (some slot) h =
      let (from, to, p, q, l, m) = (opening_hours_iff start_minute last_minute slot).0 h in
      (slot, refl, from, to, p, q, l, m)

  pub IsOpen-sound : validate_opening_hours_and_closures db r ≡ ok tt → IsOpen db r
  IsOpen-sound h =
      let (d, o, c) = open_parts h in
      let (slot, at, from, to, p, q, l, m) = hours_of day_slot o in
      record {
        one_day = d;
        slot = slot;
        opens_at = from;
        closes_at = to;
        has_slot = at;
        opens = p;
        closes = q;
        after_opening = l;
        before_closing = m;
        no_closure = (closures_iff start_minute last_minute day_closures).0 c;
      }

  pub IsOpen-complete : IsOpen db r → validate_opening_hours_and_closures db r ≡ ok tt
  unfolding validate_opening_hours_and_closures
  IsOpen-complete v =
      let hours : check_opening_hours start_minute last_minute day_slot ≡ ok tt = rw v.has_slot (
        (opening_hours_iff start_minute last_minute v.slot).1
          (v.opens_at, v.closes_at, v.opens, v.closes, v.after_opening, v.before_closing)) in
      let closures : check_closures start_minute last_minute day_closures ≡ ok tt =
        (closures_iff start_minute last_minute day_closures).1 v.no_closure in
      let day : ((get_bangkok_date_time r.start_time).date
            == (get_bangkok_date_time r.end_time).date)
          ≡ true =
        rw v.one_day (==_refl (get_bangkok_date_time r.end_time).date) in
      rw (day, hours) closures
