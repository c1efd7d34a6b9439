-- ===== src/Bookings/Moves/Total.antt =====
-- When `transitionBooking` returns and when it refuses, over a table with distinct ids.
use room_booking.Base.{
  ℕ, false, ◌∙◌, ◌≡◌, ◌≢◌, refl, sym, ap, ◌==◌, ==_iff, ◌&&◌, Bool, true, none, some, List, [], ◌∷◌,
  All, arith, find_first, find_first_sound, count_rows, update_rows, Bool-cases, inl, inr,
  if◌then◌else◌,
}
use room_booking.Json.{Metadata}
use room_booking.Errors.{ok}
use room_booking.Store.Rows.{Db, Booking, BookingEvent, status_eq}
use room_booking.Store.Tables.{update_bookings, record_audit}
use room_booking.Bookings.Events.{
  NextStatus, status_of, transitions, includes_status, BookingActor, record_event,
}
use room_booking.Bookings.Transition.{Patch, moved, booking_by_id, transition_tx}
use room_booking.Bookings.Invariant.{Distinct}
use room_booking.Bookings.Moves.{status_eq_refl, transition_tx-Moved}

-- no row has the id
none_picked :
    (q : Booking → Bool) (id : ℕ) (bs : List Booking)
    → ((c : Booking) → q c ≡ true → c.id ≡ id)
    → All (λ (c : Booking). c.id ≢ id) bs
    → count_rows q bs ≡ 0
none_picked q id [] only a = refl
none_picked q id (b ∷ bs) only a = elim (Bool-cases (q b)) [
  | inl y ↦ absurd (a.0 (only b y))
  | inr n ↦ rw n (none_picked q id bs only a.1)
]

once :
    (q : Booking → Bool) (id : ℕ) (bs : List Booking) (b : Booking)
    → Distinct bs
    → find_first (λ c. c.id == id) bs ≡ some b
    → q b ≡ true
    → ((c : Booking) → q c ≡ true → c.id ≡ id)
    → count_rows q bs ≡ 1
once q id [] b d f y only = absurd (ground arith)
once q id (x ∷ bs) b d f y only = elim (Bool-cases (x.id == id)) [
  | inl hit ↦
      let same : x ≡ b = ground arith in
      let at : x.id ≡ id = (==_iff x.id id).0 hit in
      let rest : count_rows q bs ≡ 0 = none_picked q id bs only (rw (sym at) d.0) in
      rw (ap q same, y, rest) refl
  | inr miss ↦ elim (Bool-cases (q x)) [
    | inl hit ↦ absurd (ground (arith, only x hit, ==_iff x.id id))
    | inr n ↦ rw n (once q id bs b d.1 (ground arith) y only)
  ]
]

updated_found :
    (p : Booking → Bool) (f : Booking → Booking) (id : ℕ) (bs : List Booking) (b : Booking)
    → ((c : Booking) → (f c).id ≡ c.id)
    → find_first (λ c. c.id == id) bs ≡ some b
    → find_first (λ c. c.id == id) (update_rows p f bs) ≡ some (if p b then f b else b)
updated_found p f id [] b same h = absurd (ground arith)
updated_found p f id (x ∷ bs) b same h = elim (Bool-cases (p x)) [
  | inl y ↦ ground (arith, same x, updated_found p f id bs b same)
  | inr n ↦ ground (arith, updated_found p f id bs b same)
]

-- the other rows are found as before
pub others_found :
    (p : Booking → Bool) (f : Booking → Booking) (id j : ℕ) (bs : List Booking)
    → ((c : Booking) → p c ≡ true → c.id ≡ id)
    → ((c : Booking) → (f c).id ≡ c.id)
    → j ≢ id
    → find_first (λ c. c.id == j) (update_rows p f bs) ≡ find_first (λ c. c.id == j) bs
others_found p f id j [] only same ne = refl
others_found p f id j (x ∷ bs) only same ne =
    let rest = others_found p f id j bs only same ne in
    elim (Bool-cases (p x)) [
      | inl hit ↦
          let miss : x.id == j ≡ false = ground (arith, only x hit) in rw (hit, same x, miss) rest
      | inr n ↦ rw (n, rest) refl
    ]

module _ (id : ℕ) (new : NextStatus) (actor : BookingActor) (patch : Patch)
    (metadata : Metadata) where
  abbrev picks : Booking → Booking → Bool
  picks b c = (c.id == id) && status_eq c.status b.status

  -- What a transition returns and leaves behind.
  pub record Returns (db : Db) (b r : Booking) (db' : Db) : Type 0 where
    pub returned : transition_tx id new actor patch metadata db ≡ ok (r, db')
    pub status : r.status ≡ status_of new
    pub same_id : r.id ≡ b.id
    pub same_room : r.room_id ≡ b.room_id
    pub same_user : r.user_id ≡ b.user_id
    pub same_start : r.start_time ≡ b.start_time
    pub same_end : r.end_time ≡ b.end_time
    pub no_digest : r.qr_token_hash ≡ none
    pub others : (j : ℕ) → j ≢ id → booking_by_id j db' ≡ booking_by_id j db
    pub event : BookingEvent
    pub events : db'.booking_events ≡ event ∷ db.booking_events
    pub event_booking : event.booking_id ≡ id
    pub event_from : event.previous_status ≡ some b.status
    pub event_to : event.new_status ≡ status_of new

  transition_tx-ok :
      (db : Db) (b : Booking)
      → Distinct db.bookings
      → booking_by_id id db ≡ some b
      → includes_status (transitions b.status) (status_of new) ≡ true
      → (db' : Db) × (transition_tx id new actor patch metadata db
          ≡ ok (record (moved patch new b) { qr_token_hash = none }, db'))
  unfolding transition_tx update_bookings record_event record_audit
  transition_tx-ok db b d found edge =
      let p : picks b b ≡ true =
        ground (
          arith,
          status_eq_refl b.status,
          find_first_sound (λ c. c.id == id) db.bookings b found,
        ) in
      let one : count_rows (picks b) db.bookings ≡ 1 =
        once (picks b) id db.bookings b d found p (λ c h. ground arith) in
      let f = updated_found (picks b) (moved patch new) id db.bookings b (λ c. refl) found in
      rw (found, edge, one, f, p) (_, refl)

  -- Where ids are distinct, a transition along an edge of the state machine always returns. It
  -- returns the booking in its new status, of the same room, user and time and with no digest of a
  -- QR token, leaves the bookings with other ids alone, and adds one event, from the old status to
  -- the new one.
  pub transition_tx-Returns :
      (db : Db) (b : Booking)
      → Distinct db.bookings
      → booking_by_id id db ≡ some b
      → includes_status (transitions b.status) (status_of new) ≡ true
      → (r : Booking) × (db' : Db) × Returns db b r db'
  transition_tx-Returns db b d found edge =
      let (db', ran) = transition_tx-ok db b d found edge in
      let (c, m) = transition_tx-Moved id new actor patch metadata db db' _ ran in
      let same : c ≡ b = ground (arith, m.found, found) in
      (
        record (moved patch new b) { qr_token_hash = none },
        db',
        record {
          returned = ran;
          status = refl;
          same_id = refl;
          same_room = refl;
          same_user = refl;
          same_start = refl;
          same_end = refl;
          no_digest = refl;
          others = λ j ne.
              ap (find_first (λ x. x.id == j)) m.bookings
              ∙ others_found (picks c) (moved patch new) id j db.bookings (λ x h. ground arith)
                  (λ x. refl) ne;
          event = _;
          events = m.events;
          event_booking = refl;
          event_from = ap (λ x. some x.status) same;
          event_to = refl;
        },
      )
