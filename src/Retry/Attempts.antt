-- ===== src/Retry/Attempts.antt =====
-- `withSerializableRetry` of api/src/lib/transaction-retry.ts, over any schedule.
use room_booking.Base.{ℕ, zero, suc, ◌==◌, not, ◌||◌, Bool-cases, inl, inr}
use room_booking.Errors.{Result, ok, err}
use room_booking.Store.Rows.{Db}
use room_booking.Store.Tx.{Tx, Triple}
use room_booking.Store.World.{World, Api, transaction, Holds, Keeps}
use room_booking.Store.World.Keeping.{Keeps-transaction}
use room_booking.Store.Tx.{Unchanged}
use room_booking.Retry.{again, attempts, with_serializable_retry, is_retryable_transaction_error}

module _ {A : Type 0} {I : Db → Type 0} where
  again-Holds :
      (left : ℕ) (r : Result A × World) (retry : Api A)
      → Holds I r.1
      → Keeps I retry
      → Holds I (again left r retry).1
  again-Holds left (ok a, w) retry h k = h
  again-Holds left (err e, w) retry h k =
      elim (Bool-cases (not (is_retryable_transaction_error e) || left == 0)) [
        | inl stop ↦ rw stop h
        | inr more ↦ rw more (k.at w h)
      ]

  attempts-Keeps : (left : ℕ) (op : Tx A) → Triple I op (Unchanged I) → Keeps I (attempts left op)
  unfolding attempts
  attempts-Keeps zero op t = record { at = λ w h. h }
  attempts-Keeps (suc left) op t = record {
    at = λ w h.
        again-Holds left (transaction op w) (attempts left op) ((Keeps-transaction op t).at w h)
          (attempts-Keeps left op t);
  }

  pub Keeps-with_serializable_retry :
      (op : Tx A) → Triple I op (Unchanged I) → Keeps I (with_serializable_retry op)
  unfolding with_serializable_retry
  Keeps-with_serializable_retry op t = attempts-Keeps 3 op t
