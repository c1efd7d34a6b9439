-- ===== src/Bookings/Invariant.antt =====
-- What holds of the bookings and their events between two transactions, and the two changes that
-- the service makes to them: a new booking, and a move to another status.
pub mod Apart
pub mod OneMove
use room_booking.Base.{
  ℕ, suc, ◌+◌, ◌≤◌, ◌<◌, ◌≡◌, ◌≢◌, ◌⊎◌, refl, sym, ◌∙◌, ap, ◌==◌, ==_iff, Bool, true, false, Option,
  none, some, List, [], ◌∷◌, arith, All, All-find_first, All-map, if_elim, All-zip, All-update_rows,
  update_rows, find_first, Bool-cases, Pairwise, if◌then◌else◌, inl, inr,
}
use room_booking.Store.Rows.{Db, Booking, BookingEvent, BookingStatus, pending, confirmed}
use room_booking.Bookings.Events.{transitions, includes_status}
use Apart.{NoClash, Clear, Covers, NoClash-update_rows}

-- the status that the newest event of a booking gave it; the newest event stands first
abbrev pub last_status : ℕ → List BookingEvent → Option BookingStatus
last_status id [] = none
last_status id (e ∷ es) = if e.booking_id == id then some e.new_status else last_status id es

-- an edge of the state machine, or the way into it
abbrev pub Allowed : Option BookingStatus → BookingStatus → Type 0
Allowed none s = (s ≡ pending) ⊎ (s ≡ confirmed)
Allowed (some p) s = includes_status (transitions p) s ≡ true

-- Each event starts from the status that the events before it have given the booking, and follows
-- an edge.
abbrev pub IsTrace : List BookingEvent → Type 0
IsTrace [] = Unit
IsTrace (e ∷ es) =
    (e.previous_status ≡ last_status e.booking_id es)
    × Allowed e.previous_status e.new_status
    × IsTrace es

abbrev pub IsCurrent : List BookingEvent → Booking → Type 0
IsCurrent es b = last_status b.id es ≡ some b.status

abbrev pub IsProper : Booking → Type 0
IsProper b = (b.start_time < b.end_time) × (1 ≤ b.attendees)

abbrev pub Distinct : List Booking → Type 0
Distinct = Pairwise (λ c b. c.id ≢ b.id)

abbrev pub IsFresh : ℕ → List BookingEvent → Type 0
IsFresh n = All (λ (e : BookingEvent). e.booking_id < n)

pub record Consistent (bookings : List Booking) (events : List BookingEvent) (next_id : ℕ)
    : Type 0 where
  pub apart : NoClash bookings
  pub distinct : Distinct bookings
  pub proper : All IsProper bookings
  pub current : All (IsCurrent events) bookings
  pub trace : IsTrace events
  pub fresh : IsFresh next_id events

abbrev pub Inv : Db → Type 0
Inv db = Consistent db.bookings db.booking_events db.next_id

-- a booking that has had an event has an id below the next one
pub last_status_below :
    (id n : ℕ) (es : List BookingEvent) (s : BookingStatus)
    → IsFresh n es
    → last_status id es ≡ some s
    → id < n
last_status_below id n [] s f h = absurd (ground arith)
last_status_below id n (e ∷ es) s f h = ground (arith, last_status_below id n es s f.1)

last_status_above :
    (id n : ℕ) (es : List BookingEvent) → IsFresh n es → n ≤ id → last_status id es ≡ none
last_status_above id n [] f h = refl
last_status_above id n (e ∷ es) f h = ground (arith, last_status_above id n es f.1)

IsFresh-mono : (m n : ℕ) (es : List BookingEvent) → m ≤ n → IsFresh m es → IsFresh n es
IsFresh-mono m n es h f = All-map es (λ e lt. omega arith) f

-- A row is the only one with its id.
pub Distinct-unique :
    (q : Booking → Bool) (bs : List Booking) (b : Booking)
    → Distinct bs
    → find_first q bs ≡ some b
    → All (λ c. c.id ≡ b.id → c ≡ b) bs
Distinct-unique q [] b d h = tt
Distinct-unique q (x ∷ bs) b d h = elim (Bool-cases (q x)) [
  | inl hit ↦
      let found : x ≡ b = ground arith in
      (λ _. found, All-map bs (λ c ne eq. absurd (ne (eq ∙ ap (λ y. y.id) (sym found)))) d.0)
  | inr miss ↦
      let found : find_first q bs ≡ some b = ground arith in
      (
        λ eq. absurd (All-find_first (λ c. c.id ≢ x.id) q bs b d.0 found (sym eq)),
        Distinct-unique q bs b d.1 found,
      )
]

-- what an update `f` of the rows that `p` picks does to one row, if it is the move that `e` records
pub record Moves (p : Booking → Bool) (f : Booking → Booking) (e : BookingEvent) (b : Booking)
    : Type 0 where
  pub covers : p b ≡ true → Covers b (f b)
  pub same_id : p b ≡ true → (f b).id ≡ b.id
  pub same_attendees : p b ≡ true → (f b).attendees ≡ b.attendees
  pub gives : p b ≡ true → (f b).status ≡ e.new_status
  pub target : p b ≡ true → b.id ≡ e.booking_id
  pub others : p b ≡ false → b.id ≢ e.booking_id

module _ (p : Booking → Bool) (f : Booking → Booking) (e : BookingEvent) where
  moved-IsProper : (b : Booking) → Moves p f e b × IsProper b → IsProper (if p b then f b else b)
  moved-IsProper b (m, h) =
      if_elim IsProper (p b) (f b) b (λ y. ground (arith, m.covers y, m.same_attendees y)) (λ n. h)

  moved-IsCurrent :
      (es : List BookingEvent) (b : Booking)
      → Moves p f e b × IsCurrent es b
      → IsCurrent (e ∷ es) (if p b then f b else b)
  moved-IsCurrent es b (m, h) =
      if_elim (IsCurrent (e ∷ es)) (p b) (f b) b
        (λ y. ground (arith, m.same_id y, m.gives y, m.target y)) (λ n. ground (arith, m.others n))

  moved-id : (b : Booking) → Moves p f e b → (if p b then f b else b).id ≡ b.id
  moved-id b m = elim (Bool-cases (p b)) [ inl y ↦ rw y (m.same_id y) | inr n ↦ rw n refl ]

  moved-Distinct :
      (bs : List Booking) → All (Moves p f e) bs → Distinct bs → Distinct (update_rows p f bs)
  moved-Distinct [] m d = tt
  moved-Distinct (b ∷ bs) m d = (
    All-update_rows (λ c. c.id ≢ (if p b then f b else b).id) p f bs
        (λ c h eq. h.1 (sym (moved-id c h.0) ∙ eq ∙ moved-id b m.0))
        (All-zip (Moves p f e) (λ c. c.id ≢ b.id) bs m.1 d.0),
    moved-Distinct bs m.1 d.1,
  )

  -- Moving one booking along an edge, with its event, keeps the database consistent.
  pub move-Consistent :
      (bs : List Booking) (es : List BookingEvent) (n k : ℕ)
      → Consistent bs es n
      → All (Moves p f e) bs
      → e.previous_status ≡ last_status e.booking_id es
      → Allowed e.previous_status e.new_status
      → e.booking_id < n
      → n ≤ k
      → Consistent (update_rows p f bs) (e ∷ es) k
  move-Consistent bs es n k c m from edge below le = record {
    apart = NoClash-update_rows p f bs (All-map bs (λ b h. h.covers) m) c.apart;
    distinct = moved-Distinct bs m c.distinct;
    proper =
        All-update_rows IsProper p f bs moved-IsProper
          (All-zip (Moves p f e) IsProper bs m c.proper);
    current =
        All-update_rows (IsCurrent (e ∷ es)) p f bs (moved-IsCurrent es)
          (All-zip (Moves p f e) (IsCurrent es) bs m c.current);
    trace = (from, edge, c.trace);
    fresh = (omega arith, IsFresh-mono n k es le c.fresh);
  }

-- A new booking with a fresh id, apart from the others, with its first event.
pub create-Consistent :
    (b : Booking) (e : BookingEvent) (bs : List Booking) (es : List BookingEvent) (n k : ℕ)
    → Consistent bs es n
    → Clear b bs
    → IsProper b
    → n ≤ b.id
    → e.booking_id ≡ b.id
    → e.new_status ≡ b.status
    → e.previous_status ≡ none
    → Allowed none b.status
    → b.id < k
    → Consistent (b ∷ bs) (e ∷ es) k
create-Consistent b e bs es n k c clear proper new id status previous edge below = record {
  apart = (clear, c.apart);
  distinct = (
    All-map bs (λ x h eq. absurd (omega (arith, last_status_below x.id n es x.status c.fresh h)))
        c.current,
    c.distinct,
  );
  proper = (proper, c.proper);
  current = (
    ground arith,
    All-map bs (λ x h. ground (arith, last_status_below x.id n es x.status c.fresh h)) c.current,
  );
  trace = (ground (arith, last_status_above b.id n es c.fresh), ground arith, c.trace);
  fresh = (omega arith, IsFresh-mono n k es (omega arith) c.fresh);
}

-- what changes neither bookings nor events
pub Consistent-mono :
    (bs : List Booking) (es : List BookingEvent) (n k : ℕ)
    → n ≤ k
    → Consistent bs es n
    → Consistent bs es k
Consistent-mono bs es n k le c = record {
  apart = c.apart;
  distinct = c.distinct;
  proper = c.proper;
  current = c.current;
  trace = c.trace;
  fresh = IsFresh-mono n k es le c.fresh;
}
