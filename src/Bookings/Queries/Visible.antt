-- ===== src/Bookings/Queries/Visible.antt =====
-- What the queries of bookings show to whom.
use room_booking.Base.{
  ℕ, ◌-◌, ◌*◌, ◌≤◌, ◌≡◌, refl, ap, Bool, true, false, Option, none, some, or_else, List, length,
  length-take_le, take, drop, All, All-where_rows, All-map, All-take, length-map, ◌↔◌, All-drop,
  All-of_map, All-reverse, arith, Text,
}
use mathlib.Core.Path.{subst}
use room_booking.Base.Sort.{sort_by, sort_by-All, IsSorted, take-IsSorted, sort_by-IsSorted}
use room_booking.Errors.{ok, err, >>=-eq-ok}
use room_booking.BangkokTime.{DayBounds}
use room_booking.Store.Rows.{Db, Booking, Role, role_eq, admin_role}
use room_booking.Bookings.Transition.{booking_by_id}
use room_booking.Bookings.Queries.{
  BookingQuery, get_booking_timeline, TimelineId, TimelineEntry, entries, audits_of, events_of,
  BookingView, BookingPage, view_of, is_asked, asked_rows, page_of, range_of, get_bookings,
  get_booking_by_id,
}

-- a booking of the user, without the digest of its QR token
abbrev pub IsOwn : ℕ → BookingView → Type 0
IsOwn user_id v = (v.booking.user_id ≡ user_id) × (v.booking.qr_token_hash ≡ none)

module _ (contains : Text → Text → Bool) (in_db_order : List Booking → List Booking)
    (only_found : (P : Booking → Type 0) (bs : List Booking)
      → All P bs
      → All P (in_db_order bs)) where
  asked_rows-own :
      (db : Db) (user_id : ℕ) (role : Role) (params : BookingQuery) (range : Option DayBounds)
      → role_eq role admin_role ≡ false
      → All
          (λ b. b.user_id ≡ user_id)
          (asked_rows contains in_db_order db user_id role params range)
  asked_rows-own db user_id role params range other =
      All-reverse (λ (b : Booking). b.user_id ≡ user_id) _
        (sort_by-All (λ b. b.created_at) (λ b. b.user_id ≡ user_id) _
          (only_found (λ b. b.user_id ≡ user_id) _
            (All-where_rows (λ b. b.user_id ≡ user_id)
              (is_asked contains in_db_order db user_id role params range) db.bookings
              (λ b h. ground (arith, other)))))

  -- Whoever is no administrator and asks for a page and a limit that are natural numbers is shown
  -- bookings of their own only, whatever else they ask for, without the digests of QR tokens, and no
  -- more of them than the limit. The database gives nothing but bookings that it has found, in any
  -- order of those with the same time.
  pub get_bookings-IsOwn :
      (user_id : ℕ) (role : Role) (params : BookingQuery) (db : Db) (page : BookingPage)
      → role_eq role admin_role ≡ false
      → get_bookings contains in_db_order user_id role params db ≡ ok page
      → All (IsOwn user_id) page.bookings × (length page.bookings ≤ page.limit)
  unfolding get_bookings
  get_bookings-IsOwn user_id role params db page other h =
      let (range, _, at) = >>=-eq-ok (range_of params.date) _ h in
      let same : page_of contains in_db_order user_id role params db range ≡ page =
        ap (λ r. elim r [ ok p ↦ p | err e ↦ page ]) at in
      let rows = asked_rows contains in_db_order db user_id role params range in
      let limit = or_else params.limit 20 in
      let skip = (or_else params.page 1 - 1) * limit in
      subst (λ p. All (IsOwn user_id) p.bookings × (length p.bookings ≤ p.limit)) same
        (
          All-of_map (IsOwn user_id) view_of (take limit (drop skip rows)) (
              All-map (take limit (drop skip rows)) (λ b e. (e, refl))
                (All-take (λ b. b.user_id ≡ user_id) limit (drop skip rows)
                  (All-drop (λ b. b.user_id ≡ user_id) skip rows
                    (asked_rows-own db user_id role params range other)))),
          omega (
            arith,
            length-map view_of (take limit (drop skip rows)),
            length-take_le limit (drop skip rows),
          ),
        )

-- Whoever is no administrator is shown a booking by its id if it is their own, without the digest
-- of its QR token, and is refused any other.
pub get_booking_by_id_iff :
    (id user_id : ℕ) (role : Role) (db : Db) (b : Booking)
    → role_eq role admin_role ≡ false
    → booking_by_id id db ≡ some b
    → (get_booking_by_id id user_id role db ≡ ok (view_of b)) ↔ (b.user_id ≡ user_id)
unfolding get_booking_by_id
get_booking_by_id_iff id user_id role db b other found = ground arith

-- The timeline of a booking is shown to administrators only: it is in the order of time, and has
-- 200 entries at most.
pub get_booking_timeline-IsSorted :
    (rank : TimelineId → ℕ) (id : ℕ) (role : Role) (db : Db) (shown : List TimelineEntry)
    → get_booking_timeline rank id role db ≡ ok shown
    → (role_eq role admin_role ≡ true)
      × IsSorted (λ (t : TimelineEntry). t.created_at) shown
      × (length shown ≤ 200)
unfolding get_booking_timeline
get_booking_timeline-IsSorted rank id role db shown h =
    let all : List TimelineEntry =
      sort_by (λ t. t.created_at)
        (sort_by (λ t. rank t.id) (entries (audits_of id db) (events_of id db))) in
    let same : take 200 all ≡ shown = ground arith in
    (
      ground arith,
      subst (IsSorted (λ t. t.created_at)) same
          (take-IsSorted (λ t. t.created_at) 200 all (sort_by-IsSorted (λ t. t.created_at) _)),
      subst (λ xs. length xs ≤ 200) same (length-take_le 200 all),
    )
