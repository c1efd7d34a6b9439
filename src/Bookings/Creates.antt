-- ===== src/Bookings/Creates.antt =====
-- New bookings keep the database consistent: `createBooking` and the promotion from the waitlist.
pub mod NoConflict
use room_booking.Base.{
  suc, ◌≤◌, ◌<◌, ◌≡◌, ◌⊎◌, inl, inr, none, ◌∷◌, arith, find_first, find_first-none,
}
use room_booking.Errors.{ok, Result-cases}
use room_booking.Store.Rows.{Db, Booking, BookingEvent, pending, confirmed}
use room_booking.Store.Tx.{Triple, Ensures-intro}
use room_booking.Store.Tables.{clash, insert_booking, record_audit}
use room_booking.Store.Tx.{Unchanged}
use room_booking.Policy.{BookingPolicyConfig, validate_create}
use room_booking.Bookings.Events.{event_row, record_event}
use room_booking.Bookings.Create.{
  CreateBookingData, policy_input, created_event, auto_confirms, create_booking_tx,
}
use room_booking.Bookings.Invariant.{Inv, IsProper, create-Consistent}

-- What an insertion with its first event leaves behind.
record Inserted (db db' : Db) (b : Booking) (e : BookingEvent) : Type 0 where
  clear : find_first (clash b) db.bookings ≡ none
  proper : IsProper b
  bookings : db'.bookings ≡ b ∷ db.bookings
  events : db'.booking_events ≡ e ∷ db.booking_events
  fresh : db.next_id ≤ b.id
  next_id : b.id < db'.next_id
  same : e.booking_id ≡ b.id
  gives : e.new_status ≡ b.status
  first : e.previous_status ≡ none
  enters : (b.status ≡ pending) ⊎ (b.status ≡ confirmed)

Inserted-Inv :
    (db db' : Db) (b : Booking) (e : BookingEvent) → Inserted db db' b e → Inv db → Inv db'
Inserted-Inv db db' b e i v =
    rw (i.bookings, i.events)
      (create-Consistent b e db.bookings db.booking_events db.next_id db'.next_id v
        (find_first-none (clash b) db.bookings i.clear) i.proper i.fresh i.same i.gives i.first
        i.enters i.next_id)

module _ (config : BookingPolicyConfig) (data_in : CreateBookingData) where
  create_booking_tx-Inserted :
      (db db' : Db) (b : Booking)
      → create_booking_tx config data_in db ≡ ok (b, db')
      → (e : BookingEvent) × Inserted db db' b e
  unfolding create_booking_tx insert_booking record_event record_audit
  create_booking_tx-Inserted db db' b h =
      elim (Result-cases (validate_create config db.clock (policy_input data_in) db)) [
        | inr (x, e) ↦ absurd (ground arith)
        | inl (c, e) ↦ (
          event_row (created_event data_in (auto_confirms data_in.auto_confirm c) b)
              (suc db.next_id) db.clock,
          record {
            clear = ground arith;
            proper = ground arith;
            bookings = ground arith;
            events = ground arith;
            fresh = ground arith;
            next_id = ground arith;
            same = ground arith;
            gives = ground arith;
            first = ground arith;
            enters = ground arith;
          },
        )
      ]

  pub create_booking_tx-Inv : Triple Inv (create_booking_tx config data_in) (Unchanged Inv)
  create_booking_tx-Inv = record {
    at = λ db v. Ensures-intro (Unchanged Inv) _ (λ b db' h.
        let (e, i) = create_booking_tx-Inserted db db' b h in Inserted-Inv db db' b e i v);
  }
