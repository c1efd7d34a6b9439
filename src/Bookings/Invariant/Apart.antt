-- ===== src/Bookings/Invariant/Apart.antt =====
-- Active bookings of one room, and of one user, do not overlap.
use room_booking.Base.{
  ◌≡◌, refl, Bool, true, false, List, [], ◌∷◌, arith, All, update_rows, Bool-cases, if◌then◌else◌,
  inl, inr,
}
use room_booking.Store.Rows.{Booking}
use room_booking.Store.Tables.{clash, is_active}

abbrev pub Clear : Booking → List Booking → Type 0
Clear b = All (λ c. clash b c ≡ false)

abbrev pub NoClash : List Booking → Type 0
NoClash [] = Unit
NoClash (b ∷ bs) = Clear b bs × NoClash bs

-- `c` has the room, the user and the time of `b`, and is active only if `b` is
pub record Covers (b c : Booking) : Type 0 where
  pub room : c.room_id ≡ b.room_id
  pub user : c.user_id ≡ b.user_id
  pub start : c.start_time ≡ b.start_time
  pub end : c.end_time ≡ b.end_time
  pub activity : is_active c.status ≡ true → is_active b.status ≡ true

pub Covers-refl : (b : Booking) → Covers b b
Covers-refl b = record { room = refl; user = refl; start = refl; end = refl; activity = λ h. h }

clash-Covers :
    (b b' c c' : Booking) → Covers b b' → Covers c c' → clash b c ≡ false → clash b' c' ≡ false
clash-Covers b b' c c' hb hc h = ground arith

module _ (p : Booking → Bool) (f : Booking → Booking) where
  abbrev changed : Booking → Booking
  changed b = if p b then f b else b

  changed-Covers : (b : Booking) → (p b ≡ true → Covers b (f b)) → Covers b (changed b)
  changed-Covers b h = elim (Bool-cases (p b)) [ inl e ↦ rw e (h e) | inr e ↦ rw e (Covers-refl b) ]

  abbrev pub AllCovers : List Booking → Type 0
  AllCovers = All (λ b. p b ≡ true → Covers b (f b))

  Clear-update_rows :
      (b b' : Booking) (bs : List Booking)
      → Covers b b'
      → AllCovers bs
      → Clear b bs
      → Clear b' (update_rows p f bs)
  Clear-update_rows b b' [] hb h c = tt
  Clear-update_rows b b' (x ∷ bs) hb h c = (
    clash-Covers b b' x (changed x) hb (changed-Covers x h.0) c.0,
    Clear-update_rows b b' bs hb h.1 c.1,
  )

  -- Updates that keep room, user and time, and activate nothing, keep the bookings apart.
  pub NoClash-update_rows :
      (bs : List Booking) → AllCovers bs → NoClash bs → NoClash (update_rows p f bs)
  NoClash-update_rows [] h n = tt
  NoClash-update_rows (b ∷ bs) h n = (
    Clear-update_rows b (changed b) bs (changed-Covers b h.0) h.1 n.0,
    NoClash-update_rows bs h.1 n.1,
  )
