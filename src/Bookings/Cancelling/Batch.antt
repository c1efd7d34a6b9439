-- ===== src/Bookings/Cancelling/Batch.antt =====
-- The loop of cancellations ends, keeps the database consistent, and is one update of the table.
use room_booking.Base.{
  ℕ, ◌+◌, ◌≡◌, ◌≢◌, refl, sym, ◌∙◌, ap, ◌==◌, ==_iff, ==_refl, ◌||◌, Bool, true, false, some, List,
  [], ◌∷◌, arith, All, where_rows, where_rows-All, All-where_rows, All-zip, find_first, count_rows,
  update_rows, Bool-cases, inl, inr, Text,
}
use room_booking.Base.Keys
use room_booking.Json.{Metadata}
use room_booking.Errors.{ok}
use room_booking.Store.Rows.{Db, Booking, cancelled}
use room_booking.Store.Tx.{>>=-ok}
use room_booking.Store.Tables.{update_bookings, record_audit}
use room_booking.Bookings.Events.{
  BookingActor, transitions, includes_status, event_row, record_event, EventInput,
}
use room_booking.Bookings.Transition.{booking_by_id}
use room_booking.Bookings.Cancelling.{cancels, cancelled_event, cancel_bookings, update_booking}
use room_booking.Bookings.Invariant.{Inv, Distinct}
use room_booking.Bookings.Invariant.Apart.{Covers}
use room_booking.Bookings.Invariant.OneMove.{OneMove-Consistent}
use room_booking.Bookings.Moves.Total.{others_found}

-- a row of the table that may be cancelled
abbrev pub IsOpen : List Booking → Booking → Type 0
IsOpen rows b =
    (find_first (λ c. c.id == b.id) rows ≡ some b)
    × (includes_status (transitions b.status) cancelled ≡ true)

-- whether a row is in the list, by its id
abbrev pub is_listed : List Booking → Booking → Bool
is_listed = Keys.is_listed (λ (b : Booking). b.id)

-- what a query of open rows picks from a table with distinct ids
pub where_rows-IsOpen :
    (p : Booking → Bool) (rows : List Booking)
    → Distinct rows
    → ((b : Booking) → p b ≡ true → includes_status (transitions b.status) cancelled ≡ true)
    → All (IsOpen rows) (where_rows p rows)
where_rows-IsOpen p rows d edge =
    All-zip (λ b. find_first (λ c. c.id == b.id) rows ≡ some b)
      (λ b. includes_status (transitions b.status) cancelled ≡ true) (where_rows p rows)
      (where_rows-All (λ b. find_first (λ c. c.id == b.id) rows ≡ some b) p rows
        (Keys.found_by_key (λ b. b.id) rows d))
      (All-where_rows (λ b. includes_status (transitions b.status) cancelled ≡ true) p rows edge)

counted :
    (id : ℕ) (rows : List Booking) (b : Booking)
    → find_first (λ c. c.id == id) rows ≡ some b
    → count_rows (λ c. c.id == id) rows == 0 ≡ false
counted id [] b h = absurd (ground arith)
counted id (x ∷ rows) b h = elim (Bool-cases (x.id == id)) [
  | inl y ↦ rw y (ground arith)
  | inr n ↦ rw n (counted id rows b (ground arith))
]

-- What recording an event leaves behind.
record Recorded (e : EventInput) (db db' : Db) : Type 0 where
  returned : record_event e db ≡ ok (tt, db')
  bookings : db'.bookings ≡ db.bookings
  events : db'.booking_events ≡ event_row e db.next_id db.clock ∷ db.booking_events
  next_id : db'.next_id ≡ db.next_id + 2
  same_series : db'.series ≡ db.series
  same_users : db'.users ≡ db.users

record_event-Recorded : (e : EventInput) (db : Db) → (db' : Db) × Recorded e db db'
unfolding record_event record_audit
record_event-Recorded e db = (
  _,
  record {
    returned = refl;
    bookings = refl;
    events = refl;
    next_id = omega arith;
    same_series = refl;
    same_users = refl;
  },
)

update_booking-ok :
    (id : ℕ) (f : Booking → Booking) (db : Db) (b : Booking)
    → booking_by_id id db ≡ some b
    → update_booking id f db
      ≡ ok (tt, record db { bookings = update_rows (λ c. c.id == id) f db.bookings })
unfolding update_booking update_bookings
update_booking-ok id f db b h = rw (counted id db.bookings b h) refl

-- The update `f` of the row `b` is the cancellation that `e` records.
pub record IsCancellation (f : Booking → Booking) (e : EventInput) (b : Booking) : Type 0 where
  pub covers : Covers b (f b)
  pub same_id : (f b).id ≡ b.id
  pub same_attendees : (f b).attendees ≡ b.attendees
  pub gives : (f b).status ≡ cancelled
  pub target : e.booking_id ≡ b.id
  pub from : e.previous_status ≡ some b.status
  pub to : e.new_status ≡ cancelled

-- The cancellation of one row, with its event.
pub record RowCancelled (f : Booking → Booking) (e : EventInput) (b : Booking) (db one : Db)
    : Type 0 where
  pub updated :
      update_booking b.id f db
      ≡ ok (tt, record db { bookings = update_rows (λ c. c.id == b.id) f db.bookings })
  pub recorded :
      record_event e (record db { bookings = update_rows (λ c. c.id == b.id) f db.bookings })
      ≡ ok (tt, one)
  pub consistent : Inv one
  pub bookings : one.bookings ≡ update_rows (λ c. c.id == b.id) f db.bookings
  pub same_series : one.series ≡ db.series
  pub same_users : one.users ≡ db.users

pub IsCancellation-RowCancelled :
    (f : Booking → Booking) (e : EventInput) (b : Booking) (db : Db)
    → IsCancellation f e b
    → Inv db
    → IsOpen db.bookings b
    → (one : Db) × RowCancelled f e b db one
IsCancellation-RowCancelled f e b db h v o =
    let rows = update_rows (λ c. c.id == b.id) f db.bookings in
    let (one, m) = record_event-Recorded e (record db { bookings = rows }) in
    let moved =
      OneMove-Consistent (λ c. c.id == b.id) f (event_row e db.next_id db.clock) b db.bookings
        db.booking_events db.next_id (db.next_id + 2) v
        (record {
          found = (λ c. c.id == b.id, o.0);
          picks_it = ==_refl b.id;
          picks_only = λ c p. (==_iff c.id b.id).0 p;
          covers = h.covers;
          same_id = h.same_id;
          same_attendees = h.same_attendees;
          gives = h.gives ∙ sym h.to;
          target = h.target;
          from = h.from;
          edge = rw h.to o.1;
        })
        (omega arith) in
    (
      one,
      record {
        updated = update_booking-ok b.id f db b o.0;
        recorded = m.returned;
        consistent = rw (m.bookings, m.events, m.next_id) moved;
        bookings = m.bookings;
        same_series = m.same_series;
        same_users = m.same_users;
      },
    )

module _ (now : ℕ) (reason : Text) where
  -- an update of one row, and then of others, is one update
  fused :
      (id : ℕ) (q : Booking → Bool) (rows : List Booking)
      → ((c : Booking) → q (cancels now reason c) ≡ q c)
      → update_rows q (cancels now reason) (update_rows (λ c. c.id == id) (cancels now reason) rows)
        ≡ update_rows (λ c. c.id == id || q c) (cancels now reason) rows
  fused id q [] same = refl
  fused id q (x ∷ rows) same =
      let rest = fused id q rows same in
      elim (Bool-cases (x.id == id)) [
        | inl y ↦ elim (Bool-cases (q x)) [
          | inl z ↦ rw (y, same x, z, rest) refl
          | inr z ↦ rw (y, same x, z, rest) refl
        ]
        | inr n ↦ rw (n, rest) refl
      ]

  is_listed-cancels :
      (bs : List Booking) (c : Booking) → is_listed bs (cancels now reason c) ≡ is_listed bs c
  is_listed-cancels [] c = refl
  is_listed-cancels (b ∷ bs) c = rw (is_listed-cancels bs c) refl

  none_listed : (rows : List Booking) → update_rows (is_listed []) (cancels now reason) rows ≡ rows
  none_listed [] = refl
  none_listed (x ∷ rows) = ap (λ xs. x ∷ xs) (none_listed rows)

  module _ (actor : BookingActor) (metadata : Booking → Metadata) where
    -- What the loop leaves behind.
    pub record CancelledRows (bs : List Booking) (db db' : Db) : Type 0 where
      pub returned : cancel_bookings now reason actor metadata bs db ≡ ok (tt, db')
      pub consistent : Inv db'
      pub bookings : db'.bookings ≡ update_rows (is_listed bs) (cancels now reason) db.bookings
      pub same_series : db'.series ≡ db.series
      pub same_users : db'.users ≡ db.users

    cancel_one :
        (b : Booking) (bs : List Booking) (db : Db)
        → Inv db
        → IsOpen db.bookings b
        → (one : Db) × (cancel_bookings now reason actor metadata (b ∷ bs) db
            ≡ cancel_bookings now reason actor metadata bs one)
          × Inv one
          × (one.bookings ≡ update_rows (λ c. c.id == b.id) (cancels now reason) db.bookings)
          × (one.series ≡ db.series)
          × (one.users ≡ db.users)
    unfolding cancel_bookings
    cancel_one b bs db v o =
        let e = cancelled_event now reason actor metadata b in
        let (one, m) =
          IsCancellation-RowCancelled (cancels now reason) e b db
            (record {
              covers = record {
                room = refl;
                user = refl;
                start = refl;
                end = refl;
                activity = λ a. absurd (ground arith);
              };
              same_id = refl;
              same_attendees = refl;
              gives = refl;
              target = refl;
              from = refl;
              to = refl;
            })
            v o in
        (
          one,
          >>=-ok (update_booking b.id (cancels now reason)) _ m.updated
              ∙ >>=-ok (record_event e) (λ _. cancel_bookings now reason actor metadata bs)
                  m.recorded,
          m.consistent,
          m.bookings,
          m.same_series,
          m.same_users,
        )

    cancel_bookings-none : (db : Db) → cancel_bookings now reason actor metadata [] db ≡ ok (tt, db)
    unfolding cancel_bookings
    cancel_bookings-none db = refl

    IsOpen-cancels :
        (b : Booking) (rows : List Booking) (bs : List Booking)
        → All (λ c. c.id ≢ b.id) bs
        → All (IsOpen rows) bs
        → All (IsOpen (update_rows (λ c. c.id == b.id) (cancels now reason) rows)) bs
    IsOpen-cancels b rows [] ne o = tt
    IsOpen-cancels b rows (c ∷ bs) ne o = (
      (
        others_found (λ x. x.id == b.id) (cancels now reason) b.id c.id rows
              (λ x p. (==_iff x.id b.id).0 p) (λ x. refl) ne.0
            ∙ o.0.0,
        o.0.1,
      ),
      IsOpen-cancels b rows bs ne.1 o.1,
    )

    -- Over open rows of the table, each of them once, the loop returns, keeps the invariant, and
    -- comes to one update of the rows that the list names.
    pub cancel_bookings-CancelledRows :
        (bs : List Booking) (db : Db)
        → Inv db
        → Distinct bs
        → All (IsOpen db.bookings) bs
        → (db' : Db) × CancelledRows bs db db'
    cancel_bookings-CancelledRows [] db v d o = (
      db,
      record {
        returned = cancel_bookings-none db;
        consistent = v;
        bookings = sym (none_listed db.bookings);
        same_series = refl;
        same_users = refl;
      },
    )
    cancel_bookings-CancelledRows (b ∷ bs) db v d o =
        let (one, ran, kept, rows, series, users) = cancel_one b bs db v o.0 in
        let (db', rest) =
          cancel_bookings-CancelledRows bs one kept d.1
            (rw rows (IsOpen-cancels b db.bookings bs d.0 o.1)) in
        (
          db',
          record {
            returned = ran ∙ rest.returned;
            consistent = rest.consistent;
            bookings =
                rest.bookings
                ∙ ap (update_rows (is_listed bs) (cancels now reason)) rows
                ∙ fused b.id (is_listed bs) db.bookings (is_listed-cancels bs);
            same_series = rest.same_series ∙ series;
            same_users = rest.same_users ∙ users;
          },
        )
