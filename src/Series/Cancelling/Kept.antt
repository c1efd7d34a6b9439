-- ===== src/Series/Cancelling/Kept.antt =====
-- The cancellations of series and of their occurrences keep the bookings consistent.
use room_booking.Base.{
  ℕ, ◌≡◌, ◌≢◌, refl, sym, ◌∙◌, ◌==◌, Bool, true, Option, none, some, or_else, arith, All,
  All-find_first, find_first, where_rows-Pairwise, length, Text, Bool-cases, inl, inr,
}
use mathlib.Core.Path.{subst}
use room_booking.Base.Keys
use room_booking.Base.Sort.{sort_by-All, sort_by-Pairwise}
use room_booking.Errors.{ok}
use room_booking.Store.Rows.{Db, Booking, BookingStatus, BookingSeries, cancelled}
use room_booking.Store.Tx.{
  reads, Ensures, Triple, Triple-then, Triple-bind, Unchanged, >>=-ok, triple_rules,
}
use room_booking.Store.Tables.{update_series}
use room_booking.Store.World.{Keeps}
use room_booking.Retry.Attempts.{Keeps-with_serializable_retry}
use room_booking.Bookings.Events.{transitions, includes_status, record_event}
use room_booking.Bookings.Cancelling.{update_booking, cancel_bookings, cancelled_event}
use room_booking.Bookings.Cancelling.Batch.{
  IsOpen, IsCancellation-RowCancelled, cancel_bookings-CancelledRows, where_rows-IsOpen,
}
use room_booking.Bookings.Invariant.{Inv, Distinct}
use room_booking.Bookings.WaitlistMoves.{record_audit-Inv}
use room_booking.Subscription.Entitlement.{is_upcoming}
use room_booking.Series.Cancelling.{
  BookingSeriesActor, event_actor, find_owned_series, assert_owner, occurrence, cancels_occurrence,
  occurrence_metadata, cancel_single, cancel_found, read_back, cancel_occurrence_tx,
  cancel_occurrence, Scope, future, entire, scope_reason, scope_metadata, pivot_date,
  is_cancellable, cancellable, close_series, cancel_from, cancel_series_tx, cancel_series,
  is_undated,
}

open_edge :
    (s : BookingStatus) → is_upcoming s ≡ true → includes_status (transitions s) cancelled ≡ true
open_edge s h = ground arith

module _ (series_id : ℕ) (pivot : Option ℕ) (db : Db) (v : Inv db) where
  cancellable-IsOpen : All (IsOpen db.bookings) (cancellable series_id pivot db)
  cancellable-IsOpen = sort_by-All is_undated (IsOpen db.bookings) _ (
      sort_by-All (λ b. or_else b.occurrence_date 0) (IsOpen db.bookings) _
        (where_rows-IsOpen (is_cancellable series_id pivot) db.bookings v.distinct
          (λ b h. open_edge b.status (ground arith))))

  cancellable-Distinct : Distinct (cancellable series_id pivot db)
  cancellable-Distinct = sort_by-Pairwise is_undated ids_differ _ flip (
      sort_by-Pairwise (λ b. or_else b.occurrence_date 0) ids_differ _ flip
        (where_rows-Pairwise ids_differ (is_cancellable series_id pivot) db.bookings v.distinct))
    where
      ids_differ : Booking → Booking → Type 0
      ids_differ c b = c.id ≢ b.id

      flip : (y z : Booking) → ids_differ y z → ids_differ z y
      flip y z ne e = ne (sym e)

update_series-Inv :
    (p : BookingSeries → Bool) (f : BookingSeries → BookingSeries)
    → Triple Inv (update_series p f) (Unchanged Inv)
unfolding update_series
update_series-Inv p f = record { at = λ db v. v }

ruleset series_rules = (triple_rules, update_series-Inv, record_audit-Inv)

close_series-Inv :
    (series_id : ℕ) (scope : Scope) (actor : BookingSeriesActor) (s : BookingSeries)
    (pivot : Option ℕ) (now n : ℕ)
    → Triple Inv (close_series series_id scope actor s pivot now n) (Unchanged Inv)
unfolding close_series
close_series-Inv series_id scope actor s pivot now n = search series_rules depth 20

find_owned_series-Inv :
    (series_id : ℕ) (actor : BookingSeriesActor)
    → Triple Inv (find_owned_series series_id actor) (Unchanged Inv)
unfolding find_owned_series assert_owner
find_owned_series-Inv series_id actor = search series_rules depth 20

pivot_date-Inv :
    (series_id : ℕ) (scope : Scope) (from_booking : Option ℕ)
    → Triple Inv (pivot_date series_id scope from_booking) (Unchanged Inv)
unfolding pivot_date
pivot_date-Inv series_id entire from_booking = search series_rules
pivot_date-Inv series_id future none = record { at = λ db v. tt }
pivot_date-Inv series_id future (some id) = search series_rules depth 20

cancel_from-Inv :
    (series_id : ℕ) (scope : Scope) (actor : BookingSeriesActor) (s : BookingSeries)
    (pivot : Option ℕ)
    → Triple Inv (cancel_from series_id scope actor s pivot) (Unchanged Inv)
unfolding cancel_from
cancel_from-Inv series_id scope actor s pivot = record {
  at = λ db v.
      let bookings = cancellable series_id pivot db in
      let (one, m) =
        cancel_bookings-CancelledRows db.clock (scope_reason scope) (event_actor actor)
          (scope_metadata series_id scope) bookings db v (cancellable-Distinct series_id pivot db v)
          (cancellable-IsOpen series_id pivot db v) in
      let after =
        (close_series-Inv series_id scope actor s pivot db.clock (length bookings)).at one
          m.consistent in
      subst (λ r. Ensures r (Unchanged Inv))
        (sym (
          >>=-ok
            (cancel_bookings db.clock (scope_reason scope) (event_actor actor)
              (scope_metadata series_id scope) bookings)
            (λ _. close_series series_id scope actor s pivot db.clock (length bookings))
            m.returned))
        after;
}

cancel_series_tx-Inv :
    (series_id : ℕ) (scope : Scope) (actor : BookingSeriesActor) (from_booking : Option ℕ)
    → Triple Inv (cancel_series_tx series_id scope actor from_booking) (Unchanged Inv)
unfolding cancel_series_tx
cancel_series_tx-Inv series_id scope actor from_booking =
    search (series_rules, find_owned_series-Inv, pivot_date-Inv, cancel_from-Inv) depth 20

module _ (series_id : ℕ) (actor : BookingSeriesActor) (reason : Text) where
  cancel_single-Inv :
      (b : Booking) (db : Db)
      → Inv db
      → IsOpen db.bookings b
      → (one : Db) × (cancel_single db.clock series_id reason actor b db ≡ ok (tt, one)) × Inv one
  unfolding cancel_single
  cancel_single-Inv b db v o =
      let e =
        cancelled_event db.clock reason (event_actor actor) (occurrence_metadata series_id reason)
          b in
      let (one, m) =
        IsCancellation-RowCancelled (cancels_occurrence db.clock reason) e b db
          (record {
            covers = record {
              room = refl;
              user = refl;
              start = refl;
              end = refl;
              activity = λ a. absurd (ground arith);
            };
            same_id = refl;
            same_attendees = refl;
            gives = refl;
            target = refl;
            from = refl;
            to = refl;
          })
          v o in
      (
        one,
        >>=-ok (update_booking b.id (cancels_occurrence db.clock reason)) (λ _. record_event e)
              m.updated
            ∙ m.recorded,
        m.consistent,
      )

  read_back-Inv : (id : ℕ) → Triple Inv (read_back id) (Unchanged Inv)
  unfolding read_back
  read_back-Inv id = search triple_rules

  cancel_found-eq :
      (b : Booking) (db one : Db)
      → is_upcoming b.status ≡ true
      → cancel_single db.clock series_id reason actor b db ≡ ok (tt, one)
      → cancel_found series_id actor reason (some b) db ≡ read_back b.id one
  unfolding cancel_found
  cancel_found-eq b db one y ran =
      rw y (>>=-ok (cancel_single db.clock series_id reason actor b) (λ _. read_back b.id) ran)

  cancel_found-Inv :
      (q : Booking → Bool) (found : Option Booking)
      → Triple
          (λ db. Inv db × (find_first q db.bookings ≡ found))
          (cancel_found series_id actor reason found)
          (Unchanged Inv)
  unfolding cancel_found
  cancel_found-Inv q none = record { at = λ db v. tt }
  cancel_found-Inv q (some b) = record {
    at = λ db v. elim (Bool-cases (is_upcoming b.status)) [
      | inl y ↦
          let here =
            All-find_first (λ b. find_first (λ c. c.id == b.id) db.bookings ≡ some b) q db.bookings
              b (Keys.found_by_key (λ (b : Booking). b.id) db.bookings v.0.distinct) v.1 in
          let (one, ran, kept) = cancel_single-Inv b db v.0 (here, open_edge b.status y) in
          subst (λ r. Ensures r (Unchanged Inv)) (sym (cancel_found-eq b db one y ran))
            ((read_back-Inv b.id).at one kept)
      | inr n ↦ rw n tt
    ];
  }

  cancel_occurrence_tx-Inv :
      (booking_id : ℕ)
      → Triple Inv (cancel_occurrence_tx series_id booking_id actor reason) (Unchanged Inv)
  unfolding cancel_occurrence_tx
  cancel_occurrence_tx-Inv booking_id =
      Triple-then _ _ (find_owned_series-Inv series_id actor) (λ s.
        Triple-bind (λ found db. Inv db × (occurrence series_id booking_id db ≡ found))
          (reads (occurrence series_id booking_id)) _ (record { at = λ db v. (v, refl) })
          (λ found. cancel_found-Inv _ found))

pub cancel_occurrence-Inv :
    (series_id booking_id : ℕ) (actor : BookingSeriesActor) (reason : Option Text)
    → Keeps Inv (cancel_occurrence series_id booking_id actor reason)
unfolding cancel_occurrence
cancel_occurrence-Inv series_id booking_id actor reason =
    Keeps-with_serializable_retry _ (cancel_occurrence_tx-Inv series_id actor _ booking_id)

pub cancel_series-Inv :
    (series_id : ℕ) (scope : Scope) (actor : BookingSeriesActor) (from_booking : Option ℕ)
    → Keeps Inv (cancel_series series_id scope actor from_booking)
unfolding cancel_series
cancel_series-Inv series_id scope actor from_booking =
    Keeps-with_serializable_retry _ (cancel_series_tx-Inv series_id scope actor from_booking)
