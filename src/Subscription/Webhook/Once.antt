-- ===== src/Subscription/Webhook/Once.antt =====
-- An event of the payment provider takes effect once, however often it is delivered.
use room_booking.Base.{
  ℕ, ◌*◌, Bool-cases, inl, inr, ◌≡◌, refl, sym, ap, ==_refl, Bool, true, false, Option, none, some,
  List, [], ◌∷◌, arith, Text, if◌then◌else◌,
}
use mathlib.Core.Path.{subst}
use room_booking.Errors.{Result-cases, ok, err, Error, database_error, p2002}
use room_booking.Store.Rows.{Db, User, Booking, BookingSeries}
use room_booking.Store.Tx.{
  Tx, Triple, Ensures-elim, Unchanged, Triple-then, triple_rules, Triple-pure, pure, ◌>>=◌,
  >>=-eq-ok,
}
use room_booking.Store.Tables.{
  update_users, update_bookings, update_series, record_audit, AuditRecord,
}
use room_booking.Store.World
use room_booking.Store.World.{World, transaction, throw}
use room_booking.Store.World.Keeping.{transaction-err, transaction-ok}
use room_booking.Json.{Metadata}
use room_booking.Bookings.Events.{EventInput, BookingActor, record_event}
use room_booking.Bookings.Cancelling.{update_booking, cancel_bookings}
use room_booking.Subscription.Entitlement.{
  audit_series, cancel_found_series, cancel_for_users, cancel_for_stripe_customer,
}
use room_booking.Subscription.Webhook.{
  Subscription, Payload, StripeEvent, checkout_session_completed, subscription_updated,
  subscription_deleted, other_event, insert_stripe_event, create_stripe_event, complete_checkout,
  update_subscription, delete_subscription, handle, process_tx, process, stripe_customer_id,
  has_event, Processed, duplicate_event, handled_event, is_duplicate_event,
}

module _ (id : ℕ) where
  abbrev Known : Db → Type 0
  Known db = has_event id db ≡ true

  record_audit-Known : (a : AuditRecord) → Triple Known (record_audit a) (Unchanged Known)
  unfolding record_audit
  record_audit-Known a = record { at = λ db v. v }

  record_event-Known : (e : EventInput) → Triple Known (record_event e) (Unchanged Known)
  unfolding record_event record_audit
  record_event-Known e = record { at = λ db v. v }

  update_users-Known :
      (p : User → Bool) (f : User → User) → Triple Known (update_users p f) (Unchanged Known)
  unfolding update_users
  update_users-Known p f = record { at = λ db v. v }

  update_bookings-Known :
      (p : Booking → Bool) (f : Booking → Booking)
      → Triple Known (update_bookings p f) (Unchanged Known)
  unfolding update_bookings
  update_bookings-Known p f = record { at = λ db v. v }

  update_series-Known :
      (p : BookingSeries → Bool) (f : BookingSeries → BookingSeries)
      → Triple Known (update_series p f) (Unchanged Known)
  unfolding update_series
  update_series-Known p f = record { at = λ db v. v }

  ruleset known_rules = (
    triple_rules, record_audit-Known, record_event-Known, update_users-Known, update_bookings-Known,
    update_series-Known,
  )

  update_booking-Known :
      (b : ℕ) (f : Booking → Booking) → Triple Known (update_booking b f) (Unchanged Known)
  unfolding update_booking
  update_booking-Known b f = search known_rules

  cancel_bookings-Known :
      (now : ℕ) (reason : Text) (actor : BookingActor) (metadata : Booking → Metadata)
      (bs : List Booking)
      → Triple Known (cancel_bookings now reason actor metadata bs) (Unchanged Known)
  unfolding cancel_bookings
  cancel_bookings-Known now reason actor metadata [] = search known_rules
  cancel_bookings-Known now reason actor metadata (b ∷ bs) =
      Triple-then _ _ (update_booking-Known b.id _) (λ _.
        Triple-then _ _ (record_event-Known _)
          (λ _. cancel_bookings-Known now reason actor metadata bs))

  audit_series-Known :
      (now : ℕ) (source : Text) (series : List BookingSeries)
      → Triple Known (audit_series now source series) (Unchanged Known)
  unfolding audit_series
  audit_series-Known now source [] = search known_rules
  audit_series-Known now source (s ∷ series) =
      Triple-then _ _ (record_audit-Known _) (λ _. audit_series-Known now source series)

  cancel_found_series-Known :
      (now : ℕ) (source : Text) (series : List BookingSeries)
      → Triple Known (cancel_found_series now source series) (Unchanged Known)
  unfolding cancel_found_series
  cancel_found_series-Known now source series =
      search (known_rules, cancel_bookings-Known, audit_series-Known) depth 20

  cancel_for_users-Known :
      (user_ids : List ℕ) (now : ℕ) (source : Text)
      → Triple Known (cancel_for_users user_ids now source) (Unchanged Known)
  unfolding cancel_for_users
  cancel_for_users-Known user_ids now source =
      search (known_rules, cancel_found_series-Known) depth 20

  cancel_for_stripe_customer-Known :
      (customer now : ℕ) (source : Text)
      → Triple Known (cancel_for_stripe_customer customer now source) (Unchanged Known)
  unfolding cancel_for_stripe_customer
  cancel_for_stripe_customer-Known customer now source =
      search (known_rules, cancel_for_users-Known)

  ruleset event_rules = (known_rules, cancel_for_stripe_customer-Known)

  complete_checkout-Known :
      (is_subscription : Bool) (customer : Option ℕ)
      → Triple Known (complete_checkout is_subscription customer) (Unchanged Known)
  unfolding complete_checkout
  complete_checkout-Known is_subscription none = search event_rules
  complete_checkout-Known is_subscription (some customer) = search event_rules depth 20

  update_subscription-Known :
      (s : Subscription) (now : ℕ) (customer : Option ℕ)
      → Triple Known (update_subscription s now customer) (Unchanged Known)
  unfolding update_subscription
  update_subscription-Known s now none = search event_rules
  update_subscription-Known s now (some customer) = search event_rules depth 20

  delete_subscription-Known :
      (now : ℕ) (customer : Option ℕ)
      → Triple Known (delete_subscription now customer) (Unchanged Known)
  unfolding delete_subscription
  delete_subscription-Known now none = search event_rules
  delete_subscription-Known now (some customer) = search event_rules depth 20

  handle-Known : (now : ℕ) (payload : Payload) → Triple Known (handle now payload) (Unchanged Known)
  unfolding handle
  handle-Known now (checkout_session_completed is_subscription customer) =
      complete_checkout-Known is_subscription (stripe_customer_id customer)
  handle-Known now (subscription_updated s) =
      update_subscription-Known s now (stripe_customer_id s.customer)
  handle-Known now (subscription_deleted customer) =
      delete_subscription-Known now (stripe_customer_id customer)
  handle-Known now other_event = search event_rules

create_stripe_event-Known :
    (event : StripeEvent) (db db' : Db) (u : Unit {0})
    → create_stripe_event event db ≡ ok (u, db')
    → (has_event event.id db ≡ false) × (has_event event.id db' ≡ true)
unfolding create_stripe_event insert_stripe_event
create_stripe_event-Known event db db' u h = elim (Bool-cases (has_event event.id db)) [
  | inl y ↦ absurd (ground arith)
  | inr n ↦ (n, ground (arith, ==_refl event.id))
]

-- what is processed is known from then on
process_tx-Known :
    (event : StripeEvent) (db db' : Db) (r : Processed)
    → process_tx event db ≡ ok (r, db')
    → (has_event event.id db ≡ false) × (has_event event.id db' ≡ true)
unfolding process_tx
process_tx-Known event db db' r h =
    let finish : Tx Processed =
      handle (event.created * 1000) event.payload >>= λ handled. pure (handled_event handled) in
    let (u, db₁, created, rest) = >>=-eq-ok (create_stripe_event event) (λ _. finish) h in
    let known = create_stripe_event-Known event db db₁ u created in
    (
      known.0,
      Ensures-elim _ finish db₁ r db'
          ((Triple-then _ _ (handle-Known event.id (event.created * 1000) event.payload)
              (λ handled. Triple-pure (handled_event handled))).at
            db₁ known.1)
          rest,
    )

-- a second delivery is refused by the key of the table
process_tx-duplicate :
    (event : StripeEvent) (db : Db)
    → has_event event.id db ≡ true
    → process_tx event db ≡ err (database_error p2002)
unfolding process_tx create_stripe_event
process_tx-duplicate event db y = ground arith

process-duplicate :
    (event : StripeEvent) (w : World)
    → w.schedule ≡ []
    → has_event event.id w.db ≡ true
    → process event w ≡ (ok duplicate_event, w)
unfolding process
process-duplicate event w calm y =
    rw
      (transaction-err (process_tx event) w calm (database_error p2002)
        (process_tx-duplicate event w.db y))
      refl

not_processed :
    (event : StripeEvent) (e : Error) (w w' : World) (handled : Bool)
    → (if is_duplicate_event e then World.pure duplicate_event else throw e) w
      ≡ (ok (handled_event handled), w')
    → ⊥
not_processed event e w w' handled h = ground arith

-- An event that has been processed is known to the database.
process-Known :
    (event : StripeEvent) (w w' : World) (handled : Bool)
    → w.schedule ≡ []
    → process event w ≡ (ok (handled_event handled), w')
    → has_event event.id w'.db ≡ true
unfolding process
process-Known event w w' handled calm h = elim (Result-cases (process_tx event w.db)) [
  | inl ((r, db), ran) ↦
      let done = transaction-ok (process_tx event) w calm r db ran in
      let world : w' ≡ record w { db = db } = sym (ap (λ x. x.1) (rw done at h)) in
      subst (λ x. has_event event.id x.db ≡ true) (sym world)
        (process_tx-Known event w.db db r ran).1
  | inr (e, ran) ↦
      let failed = transaction-err (process_tx event) w calm e ran in
      absurd (not_processed event e w w' handled (rw failed at h))
]

-- On a database with no other clients: once an event has been processed, a later delivery of it
-- is answered as a duplicate and changes nothing, whatever happened in between, as long as the
-- rows of the processed events are kept.
pub process_once :
    (event : StripeEvent) (w w' later : World) (handled : Bool)
    → w.schedule ≡ []
    → process event w ≡ (ok (handled_event handled), w')
    → later.schedule ≡ []
    → (has_event event.id w'.db ≡ true → has_event event.id later.db ≡ true)
    → process event later ≡ (ok duplicate_event, later)
process_once event w w' later handled calm h calm' kept =
    process-duplicate event later calm' (kept (process-Known event w w' handled calm h))
