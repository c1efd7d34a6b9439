-- ===== src/Errors.antt =====
-- The errors that the services throw, and results that may be one: api/src/booking/booking.errors.ts,
-- api/src/booking/booking-series.errors.ts, api/src/check-in/check-in.errors.ts, and the plain
-- `Error`s by their messages. An error keeps its code, the alternatives of a booking conflict and
-- the conflicts of a series; the texts of coded errors and their `details` are left out.
use room_booking.Base.{
  ℕ, ◌≡◌, refl, sym, ap, ◌∙◌, Bool, true, false, List, [], ◌⊎◌, inl, inr, Option, some, arith, Text,
}

pub data PolicyCode : Type 0 where
  invalid_time_range start_time_in_past duration_limit_exceeded room_not_found : PolicyCode
  room_inactive capacity_exceeded role_not_allowed outside_opening_hours : PolicyCode
  room_closed user_overlap room_overlap advance_limit_exceeded : PolicyCode
  active_limit_exceeded user_not_found invalid_state_transition : PolicyCode
  concurrent_booking_conflict : PolicyCode

pub data CheckInCode : Type 0 where
  booking_not_confirmed check_in_too_early check_in_too_late device_inactive : CheckInCode
  device_revoked device_credential_stale device_not_assigned wrong_room : CheckInCode
  qr_expired invalid_qr : CheckInCode

-- the plain `Error`s, by message
pub data Message : Type 0 where
  booking_not_found unauthorized waitlist_requires_pro waitlist_room_free : Message
  already_on_waitlist waitlist_entry_not_found entry_not_waiting : Message
  waitlist_changed_concurrently invalid_clock_time invalid_date : Message
  background_job_update_failed : Message
  subscription_period_missing rate_limit_configuration rate_limit_no_row : Message

-- the codes of the database and of Prisma that the services know, and any other code
pub data DatabaseCode : Type 0 where
  p2034 p2002 p2025 c40001 c40p01 c23p01 : DatabaseCode
  other_code : ℕ → DatabaseCode

-- An error object of the database client, by its string `code` and its `cause`.
pub data Cause : Type 0 where
  not_object : Cause
  object : Option DatabaseCode → Cause → Cause

pub data Rank : Type 0 where
  same_room_nearby_time another_room_same_time room_and_time_combination : Rank

pub record Alternative : Type 0 where
  pub reason : Rank
  pub room_id : ℕ
  pub room_name : Text
  pub start_time : ℕ
  pub end_time : ℕ

pub data SeriesCode : Type 0 where
  invalid_recurrence series_too_large series_not_found occurrence_not_found : SeriesCode
  series_cancelled series_conflict invalid_series_scope pro_required : SeriesCode
  series_unauthorized : SeriesCode

-- a date of a series that cannot be booked
pub record SeriesConflict : Type 0 where
  pub date : ℕ
  pub start_time : ℕ
  pub end_time : ℕ
  pub code : PolicyCode
  pub suggested_alternatives : List Alternative

-- `database` has the text that `String(error)` and `JSON.stringify(error)` give together.
pub data Error : Type 0 where
  policy_with : PolicyCode → List Alternative → Error
  check_in : CheckInCode → Error
  series_with : SeriesCode → List SeriesConflict → Error
  plain : Message → Error
  database : Cause → Text → Error
  undefined_error : Error

-- an error of the database client with a code of its own
abbrev pub database_error : DatabaseCode → Error
database_error code = database (object (some code) not_object) []

-- `new BookingPolicyError(code, …)`: the alternatives start empty
abbrev pub policy : PolicyCode → Error
policy code = policy_with code []

-- `new BookingSeriesError(code, …)`: the conflicts start empty
abbrev pub series : SeriesCode → Error
series code = series_with code []

pub data Result {ℓ} (A : Type ℓ) : Type ℓ where
  ok : A → Result A
  err : Error → Result A

-- `if (bad) throw e`
abbrev pub throw_if : Bool → Error → Result (Unit {0})
throw_if false e = ok tt
throw_if true e = err e

pub Result-cases {ℓ} :
    {A : Type ℓ} (r : Result A) → ((a : A) × (r ≡ ok a)) ⊎ ((e : Error) × (r ≡ err e))
Result-cases (err e) = inr (e, refl)
Result-cases (ok a) = inl (a, refl)

pub ok-pair :
    {A B : Type 0} {r : Result (A × B)} (a a' : A) (b b' : B)
    → r ≡ ok (a, b)
    → r ≡ ok (a', b')
    → (a ≡ a') × (b ≡ b')
ok-pair {A} {B} a a' b b' h h' = (
  ap (λ (r : Result (A × B)). elim r [ ok p ↦ p.0 | err e ↦ a ]) (sym h ∙ h'),
  ap (λ (r : Result (A × B)). elim r [ ok p ↦ p.1 | err e ↦ b ]) (sym h ∙ h'),
)

module _ {ℓ κ} {A : Type ℓ} {B : Type κ} where
  infixl 5 ◌>>=◌
  abbrev pub ◌>>=◌ : Result A → (A → Result B) → Result B
  err e >>= next = err e
  ok x >>= next = next x

  pub >>=-eq-ok :
      (r : Result A) (next : A → Result B) {y : B}
      → r >>= next ≡ ok y
      → (x : A) × (r ≡ ok x) × (next x ≡ ok y)
  >>=-eq-ok (err e) next h = absurd (ground arith)
  >>=-eq-ok (ok x) next h = (x, refl, h)

module _ {ℓ} {B : Type ℓ} where
  infixl 5 ◌>>◌
  abbrev pub ◌>>◌ : Result (Unit {0}) → Result B → Result B
  first >> second = first >>= λ _. second
