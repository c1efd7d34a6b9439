-- ===== src/Bookings/VisitMoves.antt =====
-- QR codes, check-ins and walk-ins keep the database consistent.
pub mod SingleUse
use room_booking.Base.{
  ℕ, suc, ◌+◌, ◌≤◌, ◌<◌, ◌≡◌, refl, sym, ◌∙◌, ◌==◌, ==_iff, ==_refl, ap, find_first_sound, ◌&&◌,
  ◌⊎◌, inl, inr, Bool, true, false, Option, none, some, ◌∷◌, arith, count_rows, find_first,
  find_first-none, update_rows, Option-cases, not,
}
use room_booking.Errors.{Result, ok, err, Error, Result-cases}
use room_booking.Store.Rows.{
  Db, Booking, BookingEvent, BookingStatus, confirmed, checked_in, status_eq, Role, Device,
}
use room_booking.Store.Tx.{Tx, Triple, Ensures-intro, >>=-eq-ok, triple_rules}
use room_booking.Store.Tables.{
  clash, insert_booking, insert_booking-effect, update_bookings, record_audit,
}
use room_booking.Store.Tx.{Unchanged}
use room_booking.Policy.{BookingPolicyConfig, Request, Context, validate_create}
use room_booking.CheckIn.{
  assert_can_generate_qr, assert_can_check_in, assert_trusted_device, qr_expiry,
}
use room_booking.CheckIn.Window.{assert_can_check_in_iff}
use room_booking.Bookings.Events.{event_row, record_event}
use room_booking.Bookings.Transition.{booking_by_id}
use room_booking.Bookings.Visits.{
  device_by_id, QrCode, DeviceSession, WalkInData, is_hash, issues, checks_in, walks_in,
  walk_in_row, walk_in_input, walk_in_created, walk_in_checked_in, checked_in_event, find_for_qr,
  generate_qr_tx, check_in_by_device_tx, create_walk_in_tx, book_walk_in, finish_walk_in,
  current_device,
}
use room_booking.Bookings.Invariant.{Inv, IsProper, create-Consistent}
use room_booking.Bookings.Invariant.OneMove.{Keeps, OneMove-Consistent, keep-Consistent}
use room_booking.Bookings.Invariant.Apart.{Covers-refl}
use room_booking.Bookings.Moves.{status_eq_iff}

pub find_for_qr-Inv :
    (id user_id : ℕ) (role : Role) (now : ℕ)
    → Triple Inv (find_for_qr id user_id role now) (Unchanged Inv)
unfolding find_for_qr
find_for_qr-Inv id user_id role now = search triple_rules depth 20

module _ (hash : ℕ → ℕ) (qr_token : ℕ) where
  abbrev pub by_hash : Booking → Bool
  by_hash b = is_hash b.qr_token_hash (hash qr_token)

  abbrev pub checks_in_row : Booking → Booking → Bool
  checks_in_row b c = (c.id == b.id) && status_eq c.status confirmed && by_hash c

  -- What a check-in that returns has found and written.
  pub record CheckedIn (device : DeviceSession) (correlation_id : Option ℕ) (now : ℕ) (db db' : Db)
      (r b : Booking) : Type 0 where
    pub found : find_first by_hash db.bookings ≡ some b
    pub current : Device
    pub known : device_by_id device.id db ≡ some current
    pub version : current.credential_version ≡ device.credential_version
    pub admitted : assert_can_check_in b current now ≡ ok tt
    pub bookings : db'.bookings ≡ update_rows (checks_in_row b) (checks_in hash now) db.bookings
    pub events :
        db'.booking_events
        ≡ event_row (checked_in_event device.id correlation_id b) db.next_id db.clock
          ∷ db.booking_events
    pub next_id : db'.next_id ≡ db.next_id + 2

  pub check_in_by_device_tx-CheckedIn :
      (device : DeviceSession) (correlation_id : Option ℕ) (now : ℕ) (db db' : Db) (r : Booking)
      → check_in_by_device_tx hash qr_token device correlation_id now db ≡ ok (r, db')
      → (b : Booking) × CheckedIn device correlation_id now db db' r b
  unfolding check_in_by_device_tx update_bookings record_event record_audit
  check_in_by_device_tx-CheckedIn device correlation_id now db db' r h =
      elim (Option-cases (device_by_id device.id db)) [
        | inl e ↦ absurd (ground arith)
        | inr (d, known) ↦ elim (Option-cases (find_first by_hash db.bookings)) [
          | inl e ↦ absurd (ground arith)
          | inr (b, e) ↦ (
            b,
            record {
              found = e;
              current = d;
              known = known;
              version = ground arith;
              admitted = ground arith;
              bookings = ground arith;
              events = ground arith;
              next_id = ground arith;
            },
          )
        ]
      ]

  CheckedIn-Inv :
      (device : DeviceSession) (correlation_id : Option ℕ) (now : ℕ) (db db' : Db) (r b : Booking)
      → CheckedIn device correlation_id now db db' r b
      → Inv db
      → Inv db'
  CheckedIn-Inv device correlation_id now db db' r b m v =
      let status : b.status ≡ confirmed =
        ((assert_can_check_in_iff b m.current now).0 m.admitted).status in
      rw (m.bookings, m.events, m.next_id)
        (OneMove-Consistent (checks_in_row b) (checks_in hash now)
          (event_row (checked_in_event device.id correlation_id b) db.next_id db.clock) b
          db.bookings db.booking_events db.next_id (db.next_id + 2) v
          (record {
            found = (by_hash, m.found);
            picks_it = ground (arith, find_first_sound by_hash db.bookings b m.found);
            picks_only = λ c p. ground arith;
            covers = record {
              room = refl;
              user = refl;
              start = refl;
              end = refl;
              activity = λ a. rw status;
            };
            same_id = refl;
            same_attendees = refl;
            gives = refl;
            target = refl;
            from = ap some (sym status);
            edge = rw status;
          })
          (omega arith))

  pub check_in_by_device_tx-Inv :
      (device : DeviceSession) (correlation_id : Option ℕ) (now : ℕ)
      → Triple Inv (check_in_by_device_tx hash qr_token device correlation_id now) (Unchanged Inv)
  check_in_by_device_tx-Inv device correlation_id now = record {
    at = λ db v. Ensures-intro (Unchanged Inv) _ (λ r db' h.
        let (b, m) = check_in_by_device_tx-CheckedIn device correlation_id now db db' r h in
        CheckedIn-Inv device correlation_id now db db' r b m v);
  }

  qr_Keeps : (expires_at : ℕ) (b : Booking) → Keeps (issues hash qr_token expires_at) b
  qr_Keeps expires_at b = record {
    covers = record { room = refl; user = refl; start = refl; end = refl; activity = λ a. a };
    same_id = refl;
    same_attendees = refl;
    same_status = refl;
  }

  module _ (user_id : ℕ) (role : Role) (now : ℕ) (correlation_id : Option ℕ)
      (booking : Booking) where
    generate_qr_tx-effect :
        (db db' : Db) (q : QrCode)
        → generate_qr_tx hash qr_token user_id role now correlation_id booking db ≡ ok (q, db')
        → (db'.bookings
            ≡ update_rows
                (λ b. (b.id == booking.id) && status_eq b.status confirmed)
                (issues hash qr_token q.expires_at)
                db.bookings)
          × (db'.booking_events ≡ db.booking_events)
          × (db.next_id ≤ db'.next_id)
    unfolding generate_qr_tx update_bookings record_audit
    generate_qr_tx-effect db db' q h = (ground arith, ground arith, ground arith)

    pub generate_qr_tx-Inv :
        Triple Inv
          (generate_qr_tx hash qr_token user_id role now correlation_id booking)
          (Unchanged Inv)
    generate_qr_tx-Inv = record {
      at = λ db v. Ensures-intro (Unchanged Inv) _ (λ q db' h.
          let (bookings, events, le) = generate_qr_tx-effect db db' q h in
          rw (bookings, events)
            (keep-Consistent (λ b. (b.id == booking.id) && status_eq b.status confirmed)
              (issues hash qr_token q.expires_at) (qr_Keeps q.expires_at) db.bookings
              db.booking_events db.next_id db'.next_id v le));
    }

module _ (config : BookingPolicyConfig) (data_in : WalkInData) (now : ℕ) where
  -- What a walk-in that returns has written: a row, its first event, then its check-in.
  record WalkedIn (db db' : Db) (r : Request) (b : Booking) : Type 0 where
    clear : find_first (clash b) db.bookings ≡ none
    proper : IsProper b
    row : b ≡ walk_in_row data_in now r db.next_id db.clock
    bookings : db'.bookings ≡ update_rows (λ c. c.id == b.id) (walks_in now) (b ∷ db.bookings)
    events :
        db'.booking_events
        ≡ event_row (walk_in_checked_in data_in b.id b.room_id) (suc db.next_id + 2) db.clock
          ∷ event_row (walk_in_created data_in b.id b.room_id) (suc db.next_id) db.clock
          ∷ db.booking_events
    next_id : db'.next_id ≡ suc db.next_id + 4

  finish_walk_in-effect :
      (id room_id : ℕ) (db db' : Db) (result : Booking)
      → finish_walk_in data_in now id room_id db ≡ ok (result, db')
      → (db'.bookings ≡ update_rows (λ c. c.id == id) (walks_in now) db.bookings)
        × (db'.booking_events
            ≡ event_row (walk_in_checked_in data_in id room_id) (db.next_id + 2) db.clock
              ∷ event_row (walk_in_created data_in id room_id) db.next_id db.clock
              ∷ db.booking_events)
        × (db'.next_id ≡ db.next_id + 4)
  unfolding finish_walk_in update_bookings record_event record_audit
  finish_walk_in-effect id room_id db db' result h = (ground arith, ground arith, ground arith)

  book_walk_in-WalkedIn :
      (r : Request) (db db' : Db) (result : Booking)
      → book_walk_in data_in now r db ≡ ok (result, db')
      → WalkedIn db db' r (walk_in_row data_in now r db.next_id db.clock)
  unfolding book_walk_in
  book_walk_in-WalkedIn r db db' result h =
      let row = walk_in_row data_in now r db.next_id db.clock in
      let (u, db₁, inserted, rest) =
        >>=-eq-ok (insert_booking row) (λ _. finish_walk_in data_in now db.next_id r.room_id) h in
      let (clear, proper, at) =
        insert_booking-effect row (record db { next_id = suc db.next_id }) db₁ u inserted in
      let (bookings, events, next_id) =
        finish_walk_in-effect db.next_id r.room_id db₁ db' result rest in
      record {
        clear = clear;
        proper = proper;
        row = refl;
        bookings = rw at at bookings;
        events = rw at at events;
        next_id = rw at at next_id;
      }

  WalkedIn-Inv :
      (db db' : Db) (r : Request)
      → WalkedIn db db' r (walk_in_row data_in now r db.next_id db.clock)
      → Inv db
      → Inv db'
  WalkedIn-Inv db db' r m v =
      let b = walk_in_row data_in now r db.next_id db.clock in
      let first = event_row (walk_in_created data_in b.id b.room_id) (suc db.next_id) db.clock in
      let second =
        event_row (walk_in_checked_in data_in b.id b.room_id) (suc db.next_id + 2) db.clock in
      let created =
        create-Consistent b first db.bookings db.booking_events db.next_id (suc db.next_id) v
          (find_first-none (clash b) db.bookings m.clear) m.proper (omega arith) refl refl refl
          (inr refl) (omega arith) in
      rw (m.bookings, m.events, m.next_id)
        (OneMove-Consistent (λ c. c.id == b.id) (walks_in now) second b (b ∷ db.bookings)
          (first ∷ db.booking_events) (suc db.next_id) (suc db.next_id + 4) created
          (record {
            found = (λ c. c.id == b.id, rw (==_refl b.id));
            picks_it = ==_refl b.id;
            picks_only = λ c p. (==_iff c.id b.id).0 p;
            covers = record {
              room = refl;
              user = refl;
              start = refl;
              end = refl;
              activity = λ a. refl;
            };
            same_id = refl;
            same_attendees = refl;
            gives = refl;
            target = refl;
            from = refl;
            edge = refl;
          })
          (omega arith))

  pub book_walk_in-Inv : (r : Request) → Triple Inv (book_walk_in data_in now r) (Unchanged Inv)
  book_walk_in-Inv r = record {
    at = λ db v.
        Ensures-intro (Unchanged Inv) _
          (λ result db' h. WalkedIn-Inv db db' r (book_walk_in-WalkedIn r db db' result h) v);
  }

  current_device-Inv : (id version : ℕ) → Triple Inv (current_device id version) (Unchanged Inv)
  unfolding current_device
  current_device-Inv id version = search triple_rules

  pub create_walk_in_tx-Inv : Triple Inv (create_walk_in_tx config data_in now) (Unchanged Inv)
  unfolding create_walk_in_tx
  create_walk_in_tx-Inv = search (triple_rules, current_device-Inv, book_walk_in-Inv) depth 40
