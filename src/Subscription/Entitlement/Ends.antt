-- ===== src/Subscription/Entitlement/Ends.antt =====
-- The end of Pro access ends the series of its users, and cancels just what is still to come.
use room_booking.Base.{
  includes_id, ℕ, suc, ◌≡◌, refl, sym, ◌∙◌, ap, ◌==◌, ◌&&◌, Bool, true, false, List, [], ◌∷◌,
  length, arith, All, All-map, where_rows, update_rows, update_rows-ext, update_rows-none, is_empty,
  Bool-cases, inl, inr, Text, ◌≢◌, is_empty-eq, where_rows-none, where_rows-Pairwise, ==_refl,
}
use mathlib.Core.Path.{subst}
use room_booking.Base.Keys
use room_booking.Base.Sort.{sort_by-All, sort_by-Pairwise, any_row-sort_by}
use room_booking.Errors.{ok}
use room_booking.Store.Rows.{Db, Booking, BookingStatus, BookingSeries, is_active_series, cancelled}
use room_booking.Store.Tx.{>>=-ok, Triple, Unchanged}
use room_booking.Store.Tables.{update_series, record_audit}
use room_booking.Bookings.Events.{transitions, includes_status}
use room_booking.Bookings.Cancelling.{cancels, cancel_bookings, system}
use room_booking.Bookings.Cancelling.Batch.{
  cancel_bookings-CancelledRows, IsOpen, is_listed, where_rows-IsOpen,
}
use room_booking.Bookings.Invariant.{Inv, Distinct, Consistent-mono}
use room_booking.Subscription.Entitlement.{
  Cancelled, running, due, due_bookings, ends, reason, cancel_metadata, audit_series, series_ids_of,
  cancel_found_series, cancel_for_users, is_upcoming, none_cancelled,
}

open_edge :
    (s : BookingStatus) → is_upcoming s ≡ true → includes_status (transitions s) cancelled ≡ true
open_edge s h = ground arith

module _ (ids : List ℕ) (now : ℕ) (db : Db) (v : Inv db) where
  due_bookings-Distinct : Distinct (due_bookings ids now db)
  due_bookings-Distinct =
      sort_by-Pairwise (λ b. b.start_time) ids_differ _ flip
        (sort_by-Pairwise (λ b. b.id) ids_differ _ flip
          (where_rows-Pairwise ids_differ (due ids now) db.bookings v.distinct))
    where
      ids_differ : Booking → Booking → Type 0
      ids_differ c b = c.id ≢ b.id

      flip : (y z : Booking) → ids_differ y z → ids_differ z y
      flip y z ne e = ne (sym e)

  due_bookings-IsOpen : All (IsOpen db.bookings) (due_bookings ids now db)
  due_bookings-IsOpen =
      sort_by-All (λ b. b.start_time) (IsOpen db.bookings) _
        (sort_by-All (λ b. b.id) (IsOpen db.bookings) _
          (where_rows-IsOpen (due ids now) db.bookings v.distinct
            (λ b h. open_edge b.status (ground arith))))

  is_listed-due_bookings :
      All (λ c. is_listed (due_bookings ids now db) c ≡ due ids now c) db.bookings
  is_listed-due_bookings =
      All-map db.bookings
        (λ c h.
          any_row-sort_by (λ b. b.start_time) (λ b. c.id == b.id) _
          ∙ any_row-sort_by (λ b. b.id) (λ b. c.id == b.id) _
          ∙ h)
        (Keys.is_listed-where_rows (λ (b : Booking). b.id) (due ids now) db.bookings v.distinct)

-- a change that leaves users, series, bookings and their events alone
record SameRows (db db' : Db) : Type 0 where
  users : db'.users ≡ db.users
  series : db'.series ≡ db.series
  bookings : db'.bookings ≡ db.bookings
  consistent : Inv db → Inv db'

audit_series-ok :
    (now : ℕ) (source : Text) (series : List BookingSeries) (db : Db)
    → (db' : Db) × (audit_series now source series db ≡ ok (tt, db')) × SameRows db db'
unfolding audit_series record_audit
audit_series-ok now source [] db =
    (db, refl, record { users = refl; series = refl; bookings = refl; consistent = λ v. v })
audit_series-ok now source (s ∷ rest) db =
    let (db', ran, same) = audit_series-ok now source rest _ in
    (
      db',
      ran,
      record {
        users = same.users;
        series = same.series;
        bookings = same.bookings;
        consistent = λ v. same.consistent (
            Consistent-mono db.bookings db.booking_events db.next_id (suc db.next_id) (omega arith)
              v);
      },
    )

-- the series that were found, as the update sees them
abbrev was_found : List BookingSeries → BookingSeries → Bool
was_found found s = includes_id (series_ids_of found) s.id && is_active_series s.status

-- What the end of Pro access leaves behind: every booking of the users' running series that is
-- still to come is cancelled, no other booking is changed, and no series of theirs runs on.
pub record Ended (user_ids : List ℕ) (now : ℕ) (source : Text) (db db' : Db) (done : Cancelled)
    : Type 0 where
  pub returned : cancel_for_users user_ids now source db ≡ ok (done, db')
  pub bookings :
      db'.bookings
      ≡ update_rows
          (due (series_ids_of (where_rows (running user_ids) db.series)) now)
          (cancels now reason)
          db.bookings
  pub none_running : All (λ s. running user_ids s ≡ false) db'.series
  pub same_users : db'.users ≡ db.users
  pub consistent : Inv db'

module _ (user_ids : List ℕ) (now : ℕ) where
  includes-head :
      (p : BookingSeries → Bool) (s : BookingSeries) (rest : List BookingSeries)
      → p s ≡ true
      → includes_id (series_ids_of (where_rows p (s ∷ rest))) s.id ≡ true
  includes-head p s rest y = rw y (ground (arith, ==_refl s.id))

  stopped :
      (ids : List ℕ) (series : List BookingSeries)
      → All (λ s. running user_ids s ≡ true → includes_id ids s.id ≡ true) series
      → All
          (λ s. running user_ids s ≡ false)
          (update_rows (λ s. includes_id ids s.id && is_active_series s.status) (ends now) series)
  stopped ids [] a = tt
  stopped ids (s ∷ series) a = (ground arith, stopped ids series a.1)

  found_included :
      (p : BookingSeries → Bool) (series : List BookingSeries)
      → All (λ s. p s ≡ true → includes_id (series_ids_of (where_rows p series)) s.id ≡ true) series
  found_included p [] = tt
  found_included p (s ∷ series) =
      (includes-head p s series, All-map series (λ t h y. grown t (h y)) (found_included p series))
    where
      grown :
          (t : BookingSeries)
          → includes_id (series_ids_of (where_rows p series)) t.id ≡ true
          → includes_id (series_ids_of (where_rows p (s ∷ series))) t.id ≡ true
      grown t h = elim (Bool-cases (p s)) [ inl y ↦ rw y (ground arith) | inr n ↦ rw n h ]

  reaches :
      (source : Text) (db : Db)
      → is_empty user_ids ≡ false
      → is_empty (where_rows (running user_ids) db.series) ≡ false
      → cancel_for_users user_ids now source db
        ≡ cancel_found_series now source (where_rows (running user_ids) db.series) db
  unfolding cancel_for_users
  reaches source db some_user some_series = rw (some_user, some_series) refl

  cancel_found_series-ok :
      (source : Text) (found : List BookingSeries) (db db₁ db' : Db)
      → cancel_bookings now reason system
          (cancel_metadata source)
          (due_bookings (series_ids_of found) now db)
          db
        ≡ ok (tt, db₁)
      → audit_series now source found
          (record db₁ { series = update_rows (was_found found) (ends now) db₁.series })
        ≡ ok (tt, db')
      → cancel_found_series now source found db
        ≡ ok (
          record {
            series = length found;
            bookings = length (due_bookings (series_ids_of found) now db);
          },
          db',
        )
  unfolding cancel_found_series update_series
  cancel_found_series-ok source found db db₁ db' first second =
      >>=-ok
        (cancel_bookings now reason system (cancel_metadata source)
          (due_bookings (series_ids_of found) now db))
        _ first
      ∙ >>=-ok (audit_series now source found) _ second

  cancel_found_series-Ended :
      (source : Text) (db : Db)
      → Inv db
      → is_empty user_ids ≡ false
      → is_empty (where_rows (running user_ids) db.series) ≡ false
      → (db' : Db) × (done : Cancelled) × Ended user_ids now source db db' done
  cancel_found_series-Ended source db v some_user some_series =
      let found = where_rows (running user_ids) db.series in
      let ids = series_ids_of found in
      let bookings = due_bookings ids now db in
      let (db₁, m) =
        cancel_bookings-CancelledRows now reason system (cancel_metadata source) bookings db v
          (due_bookings-Distinct ids now db v) (due_bookings-IsOpen ids now db v) in
      let after_update : Db = record db₁ {
        series = update_rows (was_found found) (ends now) db₁.series;
      } in
      let (db', ran, same) = audit_series-ok now source found after_update in
      (
        db',
        record { series = length found; bookings = length bookings },
        record {
          returned =
              reaches source db some_user some_series
              ∙ cancel_found_series-ok source found db db₁ db' m.returned ran;
          bookings =
              same.bookings
              ∙ m.bookings
              ∙ update_rows-ext (is_listed bookings) (due ids now) (cancels now reason) db.bookings
                  (is_listed-due_bookings ids now db v);
          none_running =
              subst (All (λ s. running user_ids s ≡ false))
                (sym (same.series ∙ ap (update_rows (was_found found) (ends now)) m.same_series))
                (stopped ids db.series (found_included (running user_ids) db.series));
          same_users = same.users ∙ m.same_users;
          consistent = same.consistent m.consistent;
        },
      )

  nothing_ends :
      (source : Text) (db : Db)
      → Inv db
      → cancel_for_users user_ids now source db ≡ ok (none_cancelled, db)
      → where_rows (running user_ids) db.series ≡ []
      → Ended user_ids now source db db none_cancelled
  nothing_ends source db v ran nobody = record {
    returned = ran;
    bookings = sym (
        update_rows-none (due (series_ids_of (where_rows (running user_ids) db.series)) now)
          (cancels now reason) db.bookings
          (subst (λ found. All (λ b. due (series_ids_of found) now b ≡ false) db.bookings)
            (sym nobody) (none_due db.bookings)));
    none_running = where_rows-none (running user_ids) db.series nobody;
    same_users = refl;
    consistent = v;
  }
    where
      none_due : (bs : List Booking) → All (λ b. due [] now b ≡ false) bs
      none_due [] = tt
      none_due (b ∷ bs) = (ground arith, none_due bs)

-- In a consistent database the end of Pro access of any users returns: every booking of their
-- running series that is still to come is cancelled, no other booking is changed, no series of
-- theirs runs on, and the database stays consistent.
pub cancel_for_users-Ended :
    (user_ids : List ℕ) (now : ℕ) (source : Text) (db : Db)
    → Inv db
    → (db' : Db) × (done : Cancelled) × Ended user_ids now source db db' done
unfolding cancel_for_users
cancel_for_users-Ended [] now source db v =
    (db, none_cancelled, nothing_ends [] now source db v refl (where_rows-false_all db.series))
  where
    where_rows-false_all : (series : List BookingSeries) → where_rows (running []) series ≡ []
    where_rows-false_all [] = refl
    where_rows-false_all (s ∷ series) = where_rows-false_all series
cancel_for_users-Ended (u ∷ us) now source db v =
    let found = where_rows (running (u ∷ us)) db.series in
    elim (Bool-cases (is_empty found)) [
      | inl none_found ↦ (
        db,
        none_cancelled,
        nothing_ends (u ∷ us) now source db v (rw none_found refl) (is_empty-eq found none_found),
      )
      | inr some_series ↦ cancel_found_series-Ended (u ∷ us) now source db v refl some_series
    ]

pub cancel_for_users-Inv :
    (user_ids : List ℕ) (now : ℕ) (source : Text)
    → Triple Inv (cancel_for_users user_ids now source) (Unchanged Inv)
cancel_for_users-Inv user_ids now source = record {
  at = λ db v.
      let (db', done, e) = cancel_for_users-Ended user_ids now source db v in
      rw e.returned e.consistent;
}
