-- ===== src/Bookings/WaitlistMoves.antt =====
-- The transactions of the waitlist keep the bookings and their events consistent.
use room_booking.Base.{
  ℕ, suc, ◌+◌, ◌≡◌, refl, inr, Bool, Option, none, some, ◌∷◌, arith, find_first-none,
}
use room_booking.Errors.{ok}
use room_booking.Store.Rows.{Db, BookingEvent, WaitlistEntry}
use room_booking.Store.Tx.{fresh_id, Triple, Ensures-intro, >>=-eq-ok, Unchanged, triple_rules}
use room_booking.Store.Tables.{
  clash, AuditRecord, insert_booking, insert_booking-effect, update_waitlist, record_audit,
}
use room_booking.Policy.{BookingPolicyConfig, Request}
use room_booking.Bookings.Events.{BookingActor, event_row, record_event}
use room_booking.Bookings.Waitlist.Entries.{
  WaitlistData, insert_entry, join_waitlist_tx, find_waiting, leave_waitlist_tx, promote_tx,
  promote_waiting, promote_found, book_entry, record_promotion, promoted_row, promoted_event,
  expire_waitlist_entry_tx, audit_expiry,
}
use room_booking.Bookings.Invariant.{Inv, create-Consistent, Consistent-mono}

pub record_audit-Inv : (a : AuditRecord) → Triple Inv (record_audit a) (Unchanged Inv)
unfolding record_audit
record_audit-Inv a = record {
  at = λ db v.
      Consistent-mono db.bookings db.booking_events db.next_id (suc db.next_id) (omega arith) v;
}

update_waitlist-Inv :
    (p : WaitlistEntry → Bool) (f : WaitlistEntry → WaitlistEntry)
    → Triple Inv (update_waitlist p f) (Unchanged Inv)
unfolding update_waitlist
update_waitlist-Inv p f = record { at = λ db v. v }

insert_entry-Inv : (e : WaitlistEntry) → Triple Inv (insert_entry e) (Unchanged Inv)
unfolding insert_entry
insert_entry-Inv e = record { at = λ db v. v }

pub fresh_id-Inv : Triple Inv fresh_id (Unchanged Inv)
fresh_id-Inv = record {
  at = λ db v.
      Consistent-mono db.bookings db.booking_events db.next_id (suc db.next_id) (omega arith) v;
}

ruleset waitlist_rules =
    (triple_rules, record_audit-Inv, update_waitlist-Inv, insert_entry-Inv, fresh_id-Inv)

pub find_waiting-Inv : (id user_id : ℕ) → Triple Inv (find_waiting id user_id) (Unchanged Inv)
unfolding find_waiting
find_waiting-Inv id user_id = search waitlist_rules depth 20

pub leave_waitlist_tx-Inv :
    (user_id : ℕ) (correlation_id : Option ℕ) (entry : WaitlistEntry)
    → Triple Inv (leave_waitlist_tx user_id correlation_id entry) (Unchanged Inv)
unfolding leave_waitlist_tx
leave_waitlist_tx-Inv user_id correlation_id entry = search waitlist_rules depth 40

audit_expiry-Inv :
    (id room_id : ℕ) (actor : BookingActor) (now : ℕ)
    → Triple Inv (audit_expiry id room_id actor now) (Unchanged Inv)
unfolding audit_expiry
audit_expiry-Inv id room_id actor now = search waitlist_rules

pub expire_waitlist_entry_tx-Inv :
    (id room_id : ℕ) (actor : BookingActor) (now : ℕ)
    → Triple Inv (expire_waitlist_entry_tx id room_id actor now) (Unchanged Inv)
unfolding expire_waitlist_entry_tx
expire_waitlist_entry_tx-Inv id room_id actor now =
    search (waitlist_rules, audit_expiry-Inv) depth 20

record_promotion-effect :
    (room_id : ℕ) (actor : BookingActor) (entry : WaitlistEntry) (id : ℕ) (db db' : Db)
    (o : Option ℕ)
    → record_promotion room_id actor entry id db ≡ ok (o, db')
    → (db'.bookings ≡ db.bookings)
      × (db'.booking_events
          ≡ event_row (promoted_event room_id actor entry id) (suc db.next_id) db.clock
            ∷ db.booking_events)
      × (db'.next_id ≡ db.next_id + 3)
unfolding record_promotion record_event record_audit
record_promotion-effect room_id actor entry id db db' o h =
    (ground arith, ground arith, ground arith)

module _ (room_id : ℕ) (actor : BookingActor) (entry : WaitlistEntry) (r : Request) where
  -- the row, and then its audit rows and its event
  book_entry-Inv : Triple Inv (book_entry room_id actor entry r) (Unchanged Inv)
  unfolding book_entry
  book_entry-Inv = record {
    at = λ db v. Ensures-intro (Unchanged Inv) _ (λ o db' h.
        let row = promoted_row r entry db.next_id db.clock in
        let (u, db₁, inserted, rest) =
          >>=-eq-ok (insert_booking row) (λ _. record_promotion room_id actor entry db.next_id) h in
        let (clear, proper, at) =
          insert_booking-effect row (record db { next_id = suc db.next_id }) db₁ u inserted in
        let e = record_promotion-effect room_id actor entry db.next_id db₁ db' o rest in
        let bookings : db'.bookings ≡ row ∷ db.bookings = rw at at e.0 in
        let first : BookingEvent =
          event_row (promoted_event room_id actor entry db.next_id) (suc (suc db.next_id))
            db.clock in
        let events : db'.booking_events ≡ first ∷ db.booking_events = rw at at e.1 in
        let next_id : db'.next_id ≡ suc db.next_id + 3 = rw at at e.2 in
        rw (bookings, events, next_id)
          (create-Consistent row first db.bookings db.booking_events db.next_id (suc db.next_id + 3)
            v (find_first-none (clash row) db.bookings clear) proper (omega arith) refl refl refl
            (inr refl) (omega arith)));
  }

module _ (config : BookingPolicyConfig) where
  pub join_waitlist_tx-Inv :
      (data_in : WaitlistData) → Triple Inv (join_waitlist_tx config data_in) (Unchanged Inv)
  unfolding join_waitlist_tx
  join_waitlist_tx-Inv data_in = search waitlist_rules depth 40

  module _ (room_id start end_time : ℕ) (actor : BookingActor) where
    promote_found-Inv :
        (entry : WaitlistEntry)
        → Triple Inv (promote_found config room_id start end_time actor entry) (Unchanged Inv)
    unfolding promote_found
    promote_found-Inv entry = search (waitlist_rules, book_entry-Inv) depth 40

    promote_waiting-Inv :
        (o : Option WaitlistEntry)
        → Triple Inv (promote_waiting config room_id start end_time actor o) (Unchanged Inv)
    unfolding promote_waiting
    promote_waiting-Inv none = search waitlist_rules
    promote_waiting-Inv (some entry) = search (waitlist_rules, promote_found-Inv)

    pub promote_tx-Inv :
        (id : ℕ) → Triple Inv (promote_tx config room_id start end_time actor id) (Unchanged Inv)
    unfolding promote_tx
    promote_tx-Inv id = search (waitlist_rules, promote_waiting-Inv)
