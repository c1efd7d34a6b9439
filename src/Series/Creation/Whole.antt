-- ===== src/Series/Creation/Whole.antt =====
-- The transaction that creates a series books every occurrence or none, and keeps the bookings
-- consistent.
use room_booking.Base.{
  ℕ, suc, ◌+◌, ◌≡◌, refl, sym, ap, Bool, true, false, none, is_empty, is_empty-eq, List, [], ◌∷◌,
  length, arith, inl, inr, ◌⊎◌, find_first-none, if◌then◌else◌, Bool-cases,
}
use mathlib.Core.Path.{subst}
use room_booking.Errors.{
  Result-cases, ok-pair, ok, Error, policy_with, check_in, series_with, plain, database,
  undefined_error, SeriesConflict,
}
use room_booking.Store.Rows.{Db, BookingEvent, pending, confirmed, Room}
use room_booking.Store.Tx.{>>=-eq-ok, pure, throw_if, ◌>>◌, ◌>>=◌}
use room_booking.Store.Tables.{clash, insert_booking, insert_booking-effect, record_audit}
use room_booking.Policy.{BookingPolicyConfig, validate_create}
use room_booking.Alternatives.{suggest}
use room_booking.Bookings.Events.{EventInput, event_row, record_event}
use room_booking.Bookings.Create.{auto_confirms}
use room_booking.Bookings.Invariant.{Inv, create-Consistent, Consistent-mono}
use room_booking.Series.Recurrence.{BookingSeriesTemplateInput, BookingSeriesOccurrence}
use room_booking.Series.Cancelling.{BookingSeriesActor}
use room_booking.Series.Creation.{
  conflict, policy_input, assert_pro_entitlement, insert_series, occurrence_row, occurrence_event,
  Made, booked, refused, Progress, add, book_occurrence, refuse_occurrence, create_occurrence,
  create_occurrences, create_series, finish_create, series_row, create_tx, CreatedSeries,
}

record_event-effect :
    (e : EventInput) (db db' : Db) (u : Unit {0})
    → record_event e db ≡ ok (u, db')
    → (db'.bookings ≡ db.bookings)
      × (db'.booking_events ≡ event_row e db.next_id db.clock ∷ db.booking_events)
      × (db'.next_id ≡ db.next_id + 2)
unfolding record_event record_audit
record_event-effect e db db' u h = (ground arith, ground arith, ground arith)

initial : (b : Bool) → let s = if b then confirmed else pending in (s ≡ pending) ⊎ (s ≡ confirmed)
initial true = inr refl
initial false = inl refl

module _ (config : BookingPolicyConfig) (by_name : List Room → List Room)
    (input : BookingSeriesTemplateInput) (actor : BookingSeriesActor) where
  module _ (series_id : ℕ) (o : BookingSeriesOccurrence) where
    -- A booked occurrence is one row more.
    book_occurrence-effect :
        (auto_confirm : Bool) (db db' : Db) (made : Made)
        → book_occurrence config by_name input actor series_id o auto_confirm db ≡ ok (made, db')
        → (made ≡ booked db.next_id auto_confirm)
          × (length db'.bookings ≡ suc (length db.bookings))
          × (Inv db → Inv db')
    unfolding book_occurrence
    book_occurrence-effect auto_confirm db db' made h =
        let row = occurrence_row input o actor series_id auto_confirm db.next_id db.clock in
        let e = occurrence_event o actor series_id auto_confirm row in
        let (u, db₁, inserted, rest) =
          >>=-eq-ok (insert_booking row)
            (λ _. record_event e >> pure (booked db.next_id auto_confirm)) h in
        let (u', db₂, recorded, last) =
          >>=-eq-ok (record_event e) (λ _. pure (booked db.next_id auto_confirm)) rest in
        let (clear, proper, at) =
          insert_booking-effect row (record db { next_id = suc db.next_id }) db₁ u inserted in
        let (bookings, events, next_id) = record_event-effect e db₁ db₂ u' recorded in
        let rows : db₂.bookings ≡ row ∷ db.bookings = rw at at bookings in
        let first : BookingEvent = event_row e (suc db.next_id) db.clock in
        let log : db₂.booking_events ≡ first ∷ db.booking_events = rw at at events in
        let next : db₂.next_id ≡ suc db.next_id + 2 = rw at at next_id in
        let (same_made, same_db) =
          ok-pair (booked db.next_id auto_confirm) made db₂ db' refl last in
        subst
          (λ x.
            (made ≡ booked db.next_id auto_confirm)
            × (length x.bookings ≡ suc (length db.bookings))
            × (Inv db → Inv x))
          same_db
          (
            sym same_made,
            ap length rows,
            λ v.
                rw (rows, log, next)
                  (create-Consistent row first db.bookings db.booking_events db.next_id
                    (suc db.next_id + 2) v (find_first-none (clash row) db.bookings clear) proper
                    (omega arith) refl refl refl (initial auto_confirm) (omega arith)),
          )

    -- What a round of the loop leaves behind: a booking more, or a conflict and no change.
    record Rounded (db db' : Db) (made : Made) : Type 0 where
      grown :
          ((made_id : ℕ) × (auto : Bool) × (made ≡ booked made_id auto)
            × (length db'.bookings ≡ suc (length db.bookings)))
          ⊎ ((c : SeriesConflict) × (made ≡ refused c) × (db' ≡ db))
      consistent : Inv db → Inv db'

    refuse_occurrence-effect :
        (x : Error) (db db' : Db) (made : Made)
        → refuse_occurrence config by_name input actor o x db ≡ ok (made, db')
        → (c : SeriesConflict) × (made ≡ refused c) × (db' ≡ db)
    unfolding refuse_occurrence
    refuse_occurrence-effect (policy_with code before) db db' made h =
        elim (Result-cases (suggest by_name config db.clock (policy_input input o actor) 5 db)) [
          | inl (alternatives, e) ↦ (conflict o code alternatives, ground arith, ground arith)
          | inr (x, e) ↦ absurd (ground arith)
        ]
    refuse_occurrence-effect (check_in code) db db' made h = absurd (ground arith)
    refuse_occurrence-effect (series_with code conflicts) db db' made h = absurd (ground arith)
    refuse_occurrence-effect (plain m) db db' made h = absurd (ground arith)
    refuse_occurrence-effect (database c z) db db' made h = absurd (ground arith)
    refuse_occurrence-effect undefined_error db db' made h = absurd (ground arith)

    create_occurrence-Rounded :
        (db db' : Db) (made : Made)
        → create_occurrence config by_name input actor series_id o db ≡ ok (made, db')
        → Rounded db db' made
    unfolding create_occurrence
    create_occurrence-Rounded db db' made h =
        elim (Result-cases (validate_create config db.clock (policy_input input o actor) db)) [
          | inl (c, e) ↦
              let ran = rw e at h in
              let (same, longer, kept) =
                book_occurrence-effect (auto_confirms none c) db db' made ran in
              record {
                grown = inl (db.next_id, auto_confirms none c, same, longer);
                consistent = kept;
              }
          | inr (x, e) ↦
              let ran = rw e at h in
              let (c, same, unchanged) = refuse_occurrence-effect x db db' made ran in
              record { grown = inr (c, same, unchanged); consistent = λ v. rw unchanged v }
        ]

  -- What the loop leaves behind.
  record Progressed (os : List BookingSeriesOccurrence) (db db' : Db) (p : Progress) : Type 0 where
    counted : length p.conflicts + length p.booking_ids ≡ length os
    grown : length db'.bookings ≡ length db.bookings + length p.booking_ids
    consistent : Inv db → Inv db'

  add-Progressed :
      (series_id : ℕ) (o : BookingSeriesOccurrence) (os : List BookingSeriesOccurrence)
      (db db₁ db' : Db) (made : Made) (p : Progress)
      → Rounded series_id o db db₁ made
      → Progressed os db₁ db' p
      → Progressed (o ∷ os) db db' (add made p)
  add-Progressed series_id o os db db₁ db' made p r q = elim r.grown [
    | inl (id, auto, same, longer) ↦ rw same (record {
      counted = omega (arith, q.counted);
      grown = omega (arith, q.grown, longer);
      consistent = λ v. q.consistent (r.consistent v);
    })
    | inr (c, same, unchanged) ↦ rw same (record {
      counted = omega (arith, q.counted);
      grown = omega (arith, q.grown, ap (λ (d : Db). length d.bookings) unchanged);
      consistent = λ v. q.consistent (r.consistent v);
    })
  ]

  create_occurrences-Progressed :
      (series_id : ℕ) (os : List BookingSeriesOccurrence) (db db' : Db) (p : Progress)
      → create_occurrences config by_name input actor series_id os db ≡ ok (p, db')
      → Progressed os db db' p
  unfolding create_occurrences
  create_occurrences-Progressed series_id [] db db' p h =
      let none : Progress = record {
        conflicts = [];
        booking_ids = [];
        confirmed_booking_ids = [];
      } in
      let (same, unchanged) = ok-pair none p db db' refl h in
      subst (λ q. Progressed [] db db' q) same
        (subst (λ x. Progressed [] db x none) unchanged
          (record { counted = omega arith; grown = omega arith; consistent = λ v. v }))
  create_occurrences-Progressed series_id (o ∷ os) db db' p h =
      let (made, db₁, one, rest) =
        >>=-eq-ok (create_occurrence config by_name input actor series_id o)
          (λ made.
            create_occurrences config by_name input actor series_id os >>= λ q. pure (add made q))
          h in
      let (q, db₂, more, last) =
        >>=-eq-ok (create_occurrences config by_name input actor series_id os)
          (λ q. pure (add made q)) rest in
      let (same, unchanged) = ok-pair (add made q) p db₂ db' refl last in
      subst (λ x. Progressed (o ∷ os) db db' x) same
        (subst (λ x. Progressed (o ∷ os) db x (add made q)) unchanged
          (add-Progressed series_id o os db db₁ db₂ made q
            (create_occurrence-Rounded series_id o db db₁ made one)
            (create_occurrences-Progressed series_id os db₁ db₂ q more)))

  finish_create-effect :
      (series_id : ℕ) (p : Progress) (db db' : Db) (c : CreatedSeries)
      → finish_create config by_name input actor series_id p db ≡ ok (c, db')
      → (is_empty p.conflicts ≡ true)
        × (c.booking_ids ≡ p.booking_ids)
        × (db'.bookings ≡ db.bookings)
        × (Inv db → Inv db')
  unfolding finish_create record_audit
  finish_create-effect series_id p db db' c h = elim (Bool-cases (is_empty p.conflicts)) [
    | inl y ↦
        let events : db'.booking_events ≡ db.booking_events = ground arith in
        let bookings : db'.bookings ≡ db.bookings = ground arith in
        let next_id : db'.next_id ≡ suc db.next_id = ground arith in
        (
          y,
          ground arith,
          bookings,
          λ v.
              rw (bookings, events, next_id)
                (Consistent-mono db.bookings db.booking_events db.next_id (suc db.next_id)
                  (omega arith) v),
        )
    | inr n ↦ absurd (ground arith)
  ]

  create_series-effect :
      (os : List BookingSeriesOccurrence) (db db' : Db) (c : CreatedSeries)
      → create_series config by_name input actor os db ≡ ok (c, db')
      → (length c.booking_ids ≡ length os)
        × (length db'.bookings ≡ length db.bookings + length os)
        × (Inv db → Inv db')
  unfolding create_series insert_series
  create_series-effect os db db' c h =
      let id = db.next_id in
      let start : Db = record db {
        next_id = suc id;
        series = series_row input actor id ∷ db.series;
      } in
      let (p, db₁, looped, rest) =
        >>=-eq-ok (create_occurrences config by_name input actor id os)
          (λ p. finish_create config by_name input actor id p) {db = start} h in
      let q = create_occurrences-Progressed id os start db₁ p looped in
      let (no_conflict, ids, rows, kept) = finish_create-effect id p db₁ db' c rest in
      let none_refused : length p.conflicts ≡ 0 = ap length (is_empty-eq p.conflicts no_conflict) in
      let ids_length = ap length ids in
      let rows_length = ap length rows in
      (
        omega (arith, q.counted, none_refused, ids_length),
        omega (arith, q.counted, q.grown, none_refused, rows_length),
        λ v. kept (
            q.consistent (
              Consistent-mono db.bookings db.booking_events db.next_id (suc db.next_id)
                (omega arith) v)),
      )

throw_if-same :
    (b : Bool) (e : Error) (db db' : Db) (u : Unit {0}) → throw_if b e db ≡ ok (u, db') → db ≡ db'
throw_if-same true e db db' u h = absurd (ground arith)
throw_if-same false e db db' u h = (ok-pair tt u db db' refl h).1

-- Where the transaction that creates a series returns, it has booked every occurrence: it returns
-- as many bookings as there are occurrences, the table has grown by as many rows, and the bookings
-- and their events stay consistent.
pub create_tx_whole :
    (config : BookingPolicyConfig) (by_name : List Room → List Room)
    (input : BookingSeriesTemplateInput) (actor : BookingSeriesActor)
    (os : List BookingSeriesOccurrence) (db db' : Db) (c : CreatedSeries)
    → Inv db
    → create_tx config by_name input actor os db ≡ ok (c, db')
    → (length c.booking_ids ≡ length os)
      × (length db'.bookings ≡ length db.bookings + length os)
      × Inv db'
unfolding create_tx assert_pro_entitlement
create_tx_whole config by_name input actor os db db' c v h =
    let (u, db₁, allowed, rest) =
      >>=-eq-ok (assert_pro_entitlement actor.user_id)
        (λ _. create_series config by_name input actor os) h in
    let same : db ≡ db₁ = throw_if-same _ _ db db₁ u allowed in
    let (ids, rows, kept) =
      create_series-effect config by_name input actor os db db' c (
        subst (λ x. create_series config by_name input actor os x ≡ ok (c, db')) (sym same) rest) in
    (ids, rows, kept v)
