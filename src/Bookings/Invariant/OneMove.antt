-- ===== src/Bookings/Invariant/OneMove.antt =====
-- A move of one booking that a query has found, and an update that moves none.
use room_booking.Base.{
  refl, ◌≢◌, [], if◌then◌else◌, All-update_rows, if_elim, ℕ, ◌≤◌, ◌≡◌, sym, ap, ◌∙◌, Bool, true,
  some, List, [], ◌∷◌, arith, All-map, All-find_first, find_first, update_rows,
}
use room_booking.Store.Rows.{Booking, BookingEvent}
use room_booking.Bookings.Invariant.{
  IsProper, Distinct, Consistent, Consistent-mono, Moves, move-Consistent, Distinct-unique,
  IsCurrent, Allowed, last_status, last_status_below,
}
use room_booking.Bookings.Invariant.Apart.{NoClash-update_rows, Covers}

-- `p` picks the row `b`, which a query has found, and no other; `f` moves it as `e` records.
pub record OneMove (p : Booking → Bool) (f : Booking → Booking) (e : BookingEvent) (b : Booking)
    (bs : List Booking) : Type 0 where
  pub found : (q : Booking → Bool) × (find_first q bs ≡ some b)
  pub picks_it : p b ≡ true
  pub picks_only : (c : Booking) → p c ≡ true → c.id ≡ b.id
  pub covers : Covers b (f b)
  pub same_id : (f b).id ≡ b.id
  pub same_attendees : (f b).attendees ≡ b.attendees
  pub gives : (f b).status ≡ e.new_status
  pub target : e.booking_id ≡ b.id
  pub from : e.previous_status ≡ some b.status
  pub edge : Allowed (some b.status) e.new_status

module _ (p : Booking → Bool) (f : Booking → Booking) (e : BookingEvent) (b : Booking) where
  OneMove-Moves :
      (bs : List Booking) (c : Booking) → OneMove p f e b bs → (c.id ≡ b.id → c ≡ b) → Moves p f e c
  OneMove-Moves bs c m only = record {
    covers = λ y. rw (only (m.picks_only c y)) m.covers;
    same_id = λ y. rw (only (m.picks_only c y)) m.same_id;
    same_attendees = λ y. rw (only (m.picks_only c y)) m.same_attendees;
    gives = λ y. rw (only (m.picks_only c y)) m.gives;
    target = λ y. m.picks_only c y ∙ sym m.target;
    others = λ n same. absurd (ground (arith, ap p (only (same ∙ m.target)), m.picks_it));
  }

  pub OneMove-Consistent :
      (bs : List Booking) (es : List BookingEvent) (n k : ℕ)
      → Consistent bs es n
      → OneMove p f e b bs
      → n ≤ k
      → Consistent (update_rows p f bs) (e ∷ es) k
  OneMove-Consistent bs es n k c m le =
      let status : last_status b.id es ≡ some b.status =
        All-find_first (IsCurrent es) m.found.0 bs b c.current m.found.1 in
      move-Consistent p f e bs es n k c
        (All-map bs (λ x only. OneMove-Moves bs x m only)
          (Distinct-unique m.found.0 bs b c.distinct m.found.1))
        (m.from ∙ sym status ∙ ap (λ i. last_status i es) (sym m.target)) (rw m.from m.edge)
        (rw m.target (last_status_below b.id n es b.status c.fresh status)) le

-- An update that keeps each row's id, status, room, user, time and attendees.
pub record Keeps (f : Booking → Booking) (b : Booking) : Type 0 where
  pub covers : Covers b (f b)
  pub same_id : (f b).id ≡ b.id
  pub same_attendees : (f b).attendees ≡ b.attendees
  pub same_status : (f b).status ≡ b.status

module _ (p : Booking → Bool) (f : Booking → Booking) (keeps : (b : Booking) → Keeps f b) where
  kept-Distinct : (bs : List Booking) → Distinct bs → Distinct (update_rows p f bs)
  kept-Distinct [] d = tt
  kept-Distinct (b ∷ bs) d = (
    All-update_rows (λ c. c.id ≢ (if p b then f b else b).id) p f bs
        (λ c h eq. h (sym (same c) ∙ eq ∙ same b)) d.0,
    kept-Distinct bs d.1,
  )
    where
      same : (c : Booking) → (if p c then f c else c).id ≡ c.id
      same c = if_elim (λ x. x.id ≡ c.id) (p c) (f c) c (λ _. (keeps c).same_id) (λ _. refl)

  pub keep-Consistent :
      (bs : List Booking) (es : List BookingEvent) (n k : ℕ)
      → Consistent bs es n
      → n ≤ k
      → Consistent (update_rows p f bs) es k
  keep-Consistent bs es n k c le = Consistent-mono (update_rows p f bs) es n k le (record {
    apart = NoClash-update_rows p f bs (All-map bs (λ b _ _. (keeps b).covers) c.proper) c.apart;
    distinct = kept-Distinct bs c.distinct;
    proper =
        All-update_rows IsProper p f bs
          (λ b h. if_elim IsProper (p b) (f b) b (λ _. ground (arith, keeps b)) (λ _. h)) c.proper;
    current =
        All-update_rows (IsCurrent es) p f bs
          (λ b h.
            if_elim (IsCurrent es) (p b) (f b) b
              (λ _.
                ap (λ i. last_status i es) (keeps b).same_id
                ∙ h
                ∙ ap some (sym (keeps b).same_status))
              (λ _. h))
          c.current;
    trace = c.trace;
    fresh = c.fresh;
  })
