-- ===== src/Retry.antt =====
-- api/src/lib/transaction-retry.ts
pub mod Attempts
pub mod Bounds
use room_booking.Base.{
  ℕ, zero, suc, Bool, true, false, ◌&&◌, ◌||◌, Option, none, some, not, List, [], ◌∷◌, ◌==◌, Text,
  codes, if◌then◌else◌,
}
use room_booking.Errors.{
  Result, ok, err, Error, database, undefined_error, Cause, not_object, object, DatabaseCode, p2034,
  c40001, c40p01, c23p01,
}
use room_booking.Store.Tx.{Tx}
use room_booking.Store.World.{Api, World, transaction}

-- the loop of `findDatabaseCode`, with the rounds that are left
code_within : ℕ → Cause → Option DatabaseCode
code_within zero c = none
code_within (suc n) not_object = none
code_within (suc n) (object (some code) cause) = some code
code_within (suc n) (object none cause) = code_within n cause

find_database_code : Error → Option DatabaseCode
unfolding code_within
find_database_code (database c text) = code_within 5 c
find_database_code _ = none

abbrev is_retryable_code : Option DatabaseCode → Bool
is_retryable_code (some p2034) = true
is_retryable_code (some c40001) = true
is_retryable_code (some c40p01) = true
is_retryable_code _ = false

unfoldable pub is_retryable_transaction_error : Error → Bool
unfolding find_database_code
is_retryable_transaction_error e = is_retryable_code (find_database_code e)

-- `String.includes`
starts : Text → Text → Bool
starts [] s = true
starts (c ∷ cs) [] = false
starts (c ∷ cs) (d ∷ ds) = (c == d) && starts cs ds

includes : Text → Text → Bool
includes needle [] = starts needle []
includes needle (c ∷ cs) = starts needle (c ∷ cs) || includes needle cs

-- the text of an error that is no error of the database names neither the code nor a constraint
mentions_overlap : Error → Bool
unfolding starts includes
mentions_overlap (database c text) =
    includes (codes "23P01") text || includes (codes "no_active_overlap") text
mentions_overlap _ = false

abbrev is_23p01 : Option DatabaseCode → Bool
is_23p01 (some c23p01) = true
is_23p01 _ = false

unfoldable pub is_exclusion_constraint_error : Error → Bool
unfolding find_database_code mentions_overlap
is_exclusion_constraint_error e = is_23p01 (find_database_code e) || mentions_overlap e

-- one pass of the loop's `catch`
abbrev again : {A : Type 0} → ℕ → Result A × World → Api A → Result A × World
again left (ok a, w) retry = (ok a, w)
again left (err e, w) retry =
    if not (is_retryable_transaction_error e) || left == 0 then (err e, w) else retry w

-- the loop of `withSerializableRetry`, with the attempts that are left
attempts : {A : Type 0} → ℕ → Tx A → Api A
attempts zero op w = (err undefined_error, w)
attempts (suc left) op w = again left (transaction op w) (attempts left op)

unfoldable pub with_serializable_retry : {A : Type 0} → Tx A → Api A
unfolding attempts
with_serializable_retry op = attempts 3 op
