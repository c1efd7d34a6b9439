-- ===== src/Bookings/Moves.antt =====
-- The moves of `transitionBooking` keep the database consistent, and follow the state machine.
pub mod Total
use room_booking.Base.{
  ℕ, ◌+◌, ◌≡◌, refl, sym, ◌∙◌, ◌==◌, ◌&&◌, ==_iff, Bool, true, some, ◌∷◌, arith, find_first_sound,
  update_rows, count_rows, inl, inr, Option-cases,
}
use mathlib.Core.Option
use room_booking.Json.{Metadata}
use room_booking.Errors.{ok}
use room_booking.Store.Rows.{Db, Booking, BookingEvent, BookingStatus, status_eq}
use room_booking.Store.Tx.{Triple, Ensures-intro}
use room_booking.Store.Tables.{update_bookings, record_audit, is_active}
use room_booking.Store.World.{Keeps}
use room_booking.Store.Tx.{Unchanged}
use room_booking.Retry.Attempts.{Keeps-with_serializable_retry}
use room_booking.Bookings.Events.{
  NextStatus, status_of, transitions, includes_status, event_for_status, BookingActor, EventInput,
  event_row, record_event,
}
use room_booking.Bookings.Transition.{
  Patch, moved, booking_by_id, without_qr_token_hash, transition_tx, transition_booking,
}
use room_booking.Bookings.Invariant.{Inv}
use room_booking.Bookings.Invariant.OneMove.{OneMove-Consistent}

pub status_eq_iff : (s t : BookingStatus) → status_eq s t ≡ true → s ≡ t
status_eq_iff s t h = ground arith

pub status_eq_refl : (s : BookingStatus) → status_eq s s ≡ true
status_eq_refl s = ground arith

-- the source of an edge into an active status is active
active_source :
    (s t : BookingStatus)
    → includes_status (transitions s) t ≡ true
    → is_active t ≡ true
    → is_active s ≡ true
active_source s t h a = ground arith

module _ (id : ℕ) (new : NextStatus) (actor : BookingActor) (patch : Patch)
    (metadata : Metadata) where
  abbrev event_of : Booking → EventInput
  event_of b = record {
    booking_id = id;
    room_id = b.room_id;
    actor = actor;
    event_type = event_for_status new;
    previous_status = some b.status;
    new_status = status_of new;
    metadata = metadata;
  }

  abbrev picks : Booking → Booking → Bool
  picks b c = (c.id == id) && status_eq c.status b.status

  -- What a transition that returns has found and written.
  record Moved (db db' : Db) (r b : Booking) : Type 0 where
    found : booking_by_id id db ≡ some b
    edge : includes_status (transitions b.status) (status_of new) ≡ true
    once : count_rows (picks b) db.bookings ≡ 1
    bookings : db'.bookings ≡ update_rows (picks b) (moved patch new) db.bookings
    events : db'.booking_events ≡ event_row (event_of b) db.next_id db.clock ∷ db.booking_events
    next_id : db'.next_id ≡ db.next_id + 2
    result : Option.map without_qr_token_hash (booking_by_id id db') ≡ some r

  transition_tx-Moved :
      (db db' : Db) (r : Booking)
      → transition_tx id new actor patch metadata db ≡ ok (r, db')
      → (b : Booking) × Moved db db' r b
  unfolding transition_tx update_bookings record_event record_audit
  transition_tx-Moved db db' r h = elim (Option-cases (booking_by_id id db)) [
    | inl e ↦ absurd (ground arith)
    | inr (b, e) ↦ (
      b,
      record {
        found = e;
        edge = ground arith;
        once = ground arith;
        bookings = ground arith;
        events = ground arith;
        next_id = ground arith;
        result = ground arith;
      },
    )
  ]

  abbrev event_at : Db → Booking → BookingEvent
  event_at db b = event_row (event_of b) db.next_id db.clock

  picked : (b c : Booking) → picks b c ≡ true → (c.id ≡ id) × (c.status ≡ b.status)
  picked b c h = (ground arith, status_eq_iff c.status b.status (ground arith))

  Moved-Inv : (db db' : Db) (r b : Booking) → Moved db db' r b → Inv db → Inv db'
  Moved-Inv db db' r b m v =
      let e : b.id ≡ id =
        (==_iff b.id id).0 (find_first_sound (λ c. c.id == id) db.bookings b m.found) in
      rw (m.bookings, m.events, m.next_id)
        (OneMove-Consistent (picks b) (moved patch new) (event_at db b) b db.bookings
          db.booking_events db.next_id (db.next_id + 2) v
          (record {
            found = (λ c. c.id == id, m.found);
            picks_it = ground (arith, status_eq_refl b.status);
            picks_only = λ c p. (picked b c p).0 ∙ sym e;
            covers = record {
              room = refl;
              user = refl;
              start = refl;
              end = refl;
              activity = active_source b.status (status_of new) m.edge;
            };
            same_id = refl;
            same_attendees = refl;
            gives = refl;
            target = sym e;
            from = refl;
            edge = m.edge;
          })
          (omega arith))

  pub transition_tx-Inv : Triple Inv (transition_tx id new actor patch metadata) (Unchanged Inv)
  transition_tx-Inv = record {
    at = λ db v.
        Ensures-intro (Unchanged Inv) _
          (λ r db' h. let (b, m) = transition_tx-Moved db db' r h in Moved-Inv db db' r b m v);
  }

  -- Whatever other clients do that keep the invariant, `transitionBooking` keeps it too.
  pub transition_booking-Inv : Keeps Inv (transition_booking id new actor patch metadata)
  unfolding transition_booking
  transition_booking-Inv = Keeps-with_serializable_retry _ transition_tx-Inv
