-- ===== src/Subscription/Webhook.antt =====
-- api/src/subscription/stripe-webhook.service.ts
--
-- An event carries what the code reads of the provider's objects; times of the provider count
-- seconds. The transaction of `process` is read committed and has several reads and updates. It is
-- taken here as a run that no other client commits in, and so it has no place in the histories of
-- Bookings.Calls.
pub mod Once
use room_booking.Base.{
  ℕ, ◌*◌, ◌==◌, not, ◌&&◌, ◌||◌, Bool, true, false, Option, none, some, is_some, Text, codes, ◌∷◌,
  find_first, if◌then◌else◌,
}
use room_booking.Errors.{
  ok, Error, Cause, database, object, DatabaseCode, database_error, p2002, plain,
  subscription_period_missing,
}
use room_booking.Store.Rows.{Db, User, Plan, free, pro, StripeWebhookEvent}
use room_booking.Store.Tx.{Tx, pure, reads, throw_if, ◌>>=◌, ◌>>◌}
use room_booking.Store.Tables.{update_users}
use room_booking.Store.World
use room_booking.Store.World.{Api, transaction, catches, throw}
use room_booking.Subscription.Entitlement.{has_customer, downgrades, cancel_for_stripe_customer}

-- a customer of the provider: its id, or an object, deleted or not, with one, or null
pub data CustomerRef : Type 0 where
  id_text : ℕ → CustomerRef
  object_with : ℕ → CustomerRef
  no_customer : CustomerRef

pub stripe_customer_id : CustomerRef → Option ℕ
stripe_customer_id (id_text id) = some id
stripe_customer_id (object_with id) = some id
stripe_customer_id no_customer = none

pub record Subscription : Type 0 where
  pub customer : CustomerRef
  pub is_active_or_trialing : Bool
  pub cancel_at_period_end : Bool
  pub current_period_end : Option ℕ

pub period_end : Subscription → Option ℕ
period_end s = elim s.current_period_end [ none ↦ none | some t ↦ some (t * 1000) ]

-- `event.type` with `event.data.object`
pub data Payload : Type 0 where
  checkout_session_completed : Bool → CustomerRef → Payload
  subscription_updated : Subscription → Payload
  subscription_deleted : CustomerRef → Payload
  other_event : Payload

pub record StripeEvent : Type 0 where
  pub id : ℕ
  pub event_type : ℕ
  pub created : ℕ
  pub payload : Payload

abbrev is_event : ℕ → StripeWebhookEvent → Bool
is_event id e = e.id == id

abbrev pub has_event : ℕ → Db → Bool
has_event id db = is_some (find_first (is_event id) db.stripe_events)

unfoldable pub insert_stripe_event : StripeWebhookEvent → Tx (Unit {0})
insert_stripe_event e db = ok (tt, record db { stripe_events = e ∷ db.stripe_events })

-- `tx.stripeWebhookEvent.create`: the id is the key of the table
unfoldable pub create_stripe_event : StripeEvent → Tx (Unit {0})
create_stripe_event event = do
  taken ← reads (has_event event.id)
  throw_if taken (database_error p2002)
  insert_stripe_event (record { id = event.id; event_type = event.event_type })

abbrev upgrades : User → User
upgrades u = record u { plan = pro; plan_expires_at = none }

unfoldable pub complete_checkout : Bool → Option ℕ → Tx Bool
complete_checkout is_subscription none = pure false
complete_checkout is_subscription (some customer) =
    let upgrade = update_users (has_customer customer) upgrades >>= λ n. pure true in
    if not is_subscription then pure false else upgrade

-- the plan of a subscription as it is now
abbrev pub follows : Subscription → User → User
unfolding period_end
follows s u = record u {
  plan = if s.is_active_or_trialing then pro else free;
  plan_expires_at =
      if s.is_active_or_trialing && not s.cancel_at_period_end then none else period_end s;
}

unfoldable pub update_subscription : Subscription → ℕ → Option ℕ → Tx Bool
unfolding period_end
update_subscription s now none = pure false
update_subscription s now (some customer) = do
  throw_if (s.is_active_or_trialing && s.cancel_at_period_end && not (is_some (period_end s)))
      (plain subscription_period_missing)
  count ← update_users (has_customer customer) (follows s)
  let cancel =
      cancel_for_stripe_customer customer now (codes "stripe-subscription-inactive") >>= λ done.
      pure true
  if s.is_active_or_trialing then pure true else cancel

unfoldable pub delete_subscription : ℕ → Option ℕ → Tx Bool
delete_subscription now none = pure false
delete_subscription now (some customer) = do
  count ← update_users (has_customer customer) downgrades
  done ← cancel_for_stripe_customer customer now (codes "stripe-subscription-deleted")
  pure true

-- the `switch` on the type of the event
unfoldable pub handle : ℕ → Payload → Tx Bool
unfolding stripe_customer_id
handle now (checkout_session_completed is_subscription customer) =
    complete_checkout is_subscription (stripe_customer_id customer)
handle now (subscription_updated s) = update_subscription s now (stripe_customer_id s.customer)
handle now (subscription_deleted customer) = delete_subscription now (stripe_customer_id customer)
handle now other_event = pure false

pub record Processed : Type 0 where
  pub duplicate : Bool
  pub handled : Bool

-- `isDuplicateEvent`
abbrev pub is_duplicate_event : Error → Bool
is_duplicate_event (database (object (some p2002) cause) text) = true
is_duplicate_event _ = false

abbrev pub handled_event : Bool → Processed
handled_event handled = record { duplicate = false; handled = handled }

unfoldable pub process_tx : StripeEvent → Tx Processed
process_tx event = do
  create_stripe_event event
  handled ← handle (event.created * 1000) event.payload
  pure (handled_event handled)

abbrev pub duplicate_event : Processed
duplicate_event = record { duplicate = true; handled = false }

unfoldable pub process : StripeEvent → Api Processed
process event =
    catches (transaction (process_tx event))
      (λ e. if is_duplicate_event e then World.pure duplicate_event else throw e)
