-- ===== src/Retry/Bounds.antt =====
-- How often `withSerializableRetry` of api/src/lib/transaction-retry.ts runs its transaction.
use room_booking.Base.{◌≡◌, refl, true, Bool-cases, inl, inr}
use room_booking.Errors.{Result, ok, err, Error}
use room_booking.Store.Tx.{Tx}
use room_booking.Store.World.{World, Api, transaction}
use room_booking.Retry.{again, attempts, with_serializable_retry, is_retryable_transaction_error}

module _ {A : Type 0} (op : Tx A) where
  again-last : (r : Result A × World) (retry : Api A) → again 0 r retry ≡ r
  again-last (ok a, w) retry = refl
  again-last (err e, w) retry = elim (Bool-cases (is_retryable_transaction_error e)) [
    | inl y ↦ rw y refl
    | inr n ↦ rw n refl
  ]

  -- After two attempts that failed with errors of transactions that may be repeated, what the
  -- third attempt does is the outcome, whatever it is.
  pub with_serializable_retry-third :
      (w₁ w₂ w₃ : World) (e₁ e₂ : Error)
      → transaction op w₁ ≡ (err e₁, w₂)
      → is_retryable_transaction_error e₁ ≡ true
      → transaction op w₂ ≡ (err e₂, w₃)
      → is_retryable_transaction_error e₂ ≡ true
      → with_serializable_retry op w₁ ≡ transaction op w₃
  unfolding with_serializable_retry attempts
  with_serializable_retry-third w₁ w₂ w₃ e₁ e₂ h r k s =
      rw (h, r, k, s) (again-last (transaction op w₃) _)
