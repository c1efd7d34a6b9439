-- ===== src/Bookings/VisitMoves/SingleUse.antt =====
-- A QR code opens a room once: `checkInByDevice` of api/src/booking/booking.service.ts.
use room_booking.Base.{
  ℕ, ◌≤◌, ◌≡◌, refl, ==_refl, Bool, true, false, Option, none, some, List, [], ◌∷◌, arith,
  find_first, find_first_sound, count_rows, update_rows, Bool-cases, inl, inr, ap, ◌∙◌,
}
use room_booking.Errors.{ok, err, check_in, invalid_qr}
use room_booking.Store.Rows.{Db, Device, Booking}
use room_booking.CheckIn.Window.{assert_can_check_in_iff}
use room_booking.Bookings.Visits.{
  DeviceSession, checks_in, check_in_by_device_tx, current_device, device_by_id,
}
use room_booking.Bookings.VisitMoves.{by_hash, checks_in_row, check_in_by_device_tx-CheckedIn}

none_left :
    (q : Booking → Bool) (p : Booking → Bool) (f : Booking → Booking) (bs : List Booking)
    → count_rows q bs ≡ 0
    → ((c : Booking) → p c ≡ true → q c ≡ true)
    → find_first q (update_rows p f bs) ≡ none
none_left q p f [] h only = refl
none_left q p f (b ∷ bs) h only = elim (Bool-cases (q b)) [
  | inl y ↦ absurd (ground arith)
  | inr n ↦ elim (Bool-cases (p b)) [
    | inl hit ↦ absurd (ground (arith, only b hit))
    | inr miss ↦ rw (miss, n) (none_left q p f bs (ground arith) only)
  ]
]

-- the only row with the digest loses it
gone :
    (q : Booking → Bool) (p : Booking → Bool) (f : Booking → Booking) (bs : List Booking)
    (b : Booking)
    → count_rows q bs ≤ 1
    → find_first q bs ≡ some b
    → p b ≡ true
    → ((c : Booking) → p c ≡ true → q c ≡ true)
    → ((c : Booking) → q (f c) ≡ false)
    → find_first q (update_rows p f bs) ≡ none
gone q p f [] b one h y only off = refl
gone q p f (x ∷ bs) b one h y only off = elim (Bool-cases (q x)) [
  | inl hit ↦
      let same : x ≡ b = ground arith in
      let px : p x ≡ true = ap p same ∙ y in rw (px, off x) (none_left q p f bs (ground arith) only)
  | inr n ↦ elim (Bool-cases (p x)) [
    | inl hit ↦ absurd (ground (arith, only x hit))
    | inr miss ↦ rw (miss, n) (gone q p f bs b (ground arith) (ground arith) y only off)
  ]
]

module _ (hash : ℕ → ℕ) (qr_token : ℕ) where
  no_row_left :
      (device : DeviceSession) (correlation_id : Option ℕ) (now : ℕ) (db db' : Db) (r : Booking)
      → count_rows (by_hash hash qr_token) db.bookings ≤ 1
      → check_in_by_device_tx hash qr_token device correlation_id now db ≡ ok (r, db')
      → find_first (by_hash hash qr_token) db'.bookings ≡ none
  no_row_left device correlation_id now db db' r one h =
      let (b, m) =
        check_in_by_device_tx-CheckedIn hash qr_token device correlation_id now db db' r h in
      let can = (assert_can_check_in_iff b m.current now).0 m.admitted in
      let hit : by_hash hash qr_token b ≡ true =
        find_first_sound (by_hash hash qr_token) db.bookings b m.found in
      rw m.bookings (
        gone (by_hash hash qr_token) (checks_in_row hash qr_token b) (checks_in hash now)
          db.bookings b one m.found (rw (==_refl b.id, can.status, hit) refl) (λ c p. ground arith)
          (λ c. refl))

  -- A later database where the token has not been issued again: a booking has its digest only if
  -- some booking had it before.
  abbrev pub NotReissued : Db → Db → Type 0
  NotReissued before after =
      find_first (by_hash hash qr_token) before.bookings ≡ none
      → find_first (by_hash hash qr_token) after.bookings ≡ none

  -- Where digests are unique, a QR token that has checked a booking in is refused as invalid on
  -- every later database, whatever else has changed, at any time and on any device whose credential
  -- is current, as long as the token is not issued again: no booking has its digest there, if none
  -- had it right after the check-in.
  pub check_in_by_device_tx-once :
      (device other : DeviceSession) (correlation_id : Option ℕ) (now later : ℕ) (db db' db'' : Db)
      (r : Booking)
      → count_rows (by_hash hash qr_token) db.bookings ≤ 1
      → check_in_by_device_tx hash qr_token device correlation_id now db ≡ ok (r, db')
      → NotReissued db' db''
      → (d : Device) → device_by_id other.id db'' ≡ some d
      → d.credential_version ≡ other.credential_version
      → check_in_by_device_tx hash qr_token other correlation_id later db''
        ≡ err (check_in invalid_qr)
  unfolding check_in_by_device_tx current_device
  check_in_by_device_tx-once device other correlation_id now later db db' db'' r one h kept d known
        version =
      let gone = kept (no_row_left device correlation_id now db db' r one h) in
      ground (arith, known, version, gone)
