-- ===== src/Bookings/Creates/NoConflict.antt =====
-- The policy of `validateCreate` covers the exclusion constraints of the table.
use room_booking.Base.{
  ℕ, ◌≡◌, refl, ◌==◌, ◌&&◌, Bool, false, none, List, [], ◌∷◌, arith, find_first, inl, inr,
}
use room_booking.Errors.{ok}
use room_booking.Store.Rows.{Db, Booking}
use room_booking.Store.Tables.{clash}
use room_booking.Policy.{
  BookingPolicyConfig, Request, Context, validate_create, overlaps, room_conflict_of,
}
use room_booking.Policy.Spec.{validate_create_iff}
use room_booking.Bookings.Create.{CreateBookingData, policy_input, created_row}

-- a test that implies one of two others finds nothing where they find nothing
find_first-none_of :
    (p q r : Booking → Bool) (bs : List Booking)
    → ((b : Booking) → p b ≡ false → q b ≡ false → r b ≡ false)
    → find_first p bs ≡ none
    → find_first q bs ≡ none
    → find_first r bs ≡ none
find_first-none_of p q r [] h a b = refl
find_first-none_of p q r (x ∷ bs) h a b = ground (arith, h x, find_first-none_of p q r bs h)

meets :
    (row : Booking) (r : Request) (b : Booking)
    → row.room_id ≡ r.room_id
    → row.user_id ≡ r.user_id
    → row.start_time ≡ r.start_time
    → row.end_time ≡ r.end_time
    → r.exclude_booking_id ≡ none
    → (b.user_id == r.user_id) && overlaps r b ≡ false
    → (b.room_id == r.room_id) && overlaps r b ≡ false
    → clash row b ≡ false
meets row r b room user start end e u v = ground arith

module _ (config : BookingPolicyConfig) (now : ℕ) (db : Db) (data_in : CreateBookingData)
    (c : Context) where
  -- The row that `createBooking` makes of an input that `validateCreate` lets through meets no
  -- active booking of its room or of its user.
  pub validate_create-no_clash :
      (auto_confirm : Bool) (id at : ℕ)
      → validate_create config now (policy_input data_in) db ≡ ok c
      → find_first (clash (created_row data_in c.input auto_confirm id at)) db.bookings ≡ none
  validate_create-no_clash auto_confirm id at h =
      let a = (validate_create_iff config now db (policy_input data_in) c).0 h in
      let room : room_conflict_of db c.input ≡ none = elim a.limits.room_free [
        | inl e ↦ e
        | inr e ↦ absurd (ground (arith, a.same_choice))
      ] in
      find_first-none_of (λ b. (b.user_id == c.input.user_id) && overlaps c.input b)
        (λ b. (b.room_id == c.input.room_id) && overlaps c.input b) _ db.bookings
        (λ b u v.
          meets (created_row data_in c.input auto_confirm id at) c.input b refl refl refl refl
            a.same_exclusion u v)
        a.limits.user_free room
