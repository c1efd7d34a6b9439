-- ===== src/Jobs/Worker/Rounds.antt =====
-- A job that keeps getting a worker comes to its end.
use room_booking.Base.{
  ℕ, suc, ◌+◌, ◌≤◌, ◌<◌, ◌≡◌, true, false, arith, Text, Bool-cases, inl, inr, ◌⊎◌,
}
use room_booking.Json.{Fields}
use room_booking.Store.Rows.{BackgroundJob}
use room_booking.Jobs.Worker.{is_claimable, claims, completes, is_exhausted, fails}
use room_booking.Jobs.Worker.Lifecycle.{is_terminal}

-- A worker claims a job, runs its handler, and completes the job or fails it by the row as it has
-- claimed it.
pub data Round (j k : BackgroundJob) : Type 0 where
  completed :
      (worker stale_before now clock : ℕ) (result : Fields)
      → is_claimable stale_before now j ≡ true
      → k ≡ completes result now clock (claims worker now j)
      → Round j k
  failed :
      (worker stale_before now clock : ℕ) (message : Text)
      → is_claimable stale_before now j ≡ true
      → k ≡ fails (claims worker now j) message now clock (claims worker now j)
      → Round j k

-- rounds one after the other, until the job has come to its end
pub data Rounds : ℕ → BackgroundJob → BackgroundJob → Type 0 where
  none_left : {j : BackgroundJob} → Rounds 0 j j
  at_end : {n : ℕ} {j : BackgroundJob} → is_terminal j.status ≡ true → Rounds n j j
  round : {n : ℕ} {j k l : BackgroundJob} → Round j k → Rounds n k l → Rounds (suc n) j l

-- a round ends the job, or uses up one of its attempts
Round-progress :
    (j k : BackgroundJob)
    → Round j k
    → (is_terminal k.status ≡ true)
      ⊎ ((k.attempts ≡ suc j.attempts)
          × (suc j.attempts ≤ j.max_attempts)
          × (k.max_attempts ≡ j.max_attempts)
          × (suc k.attempts ≤ k.max_attempts))
Round-progress j k (completed worker stale_before now clock result c e) = inl (ground arith)
Round-progress j k (failed worker stale_before now clock message c e) =
    elim (Bool-cases (is_exhausted (claims worker now j))) [
      | inl y ↦ inl (ground arith)
      | inr n ↦ inr (ground arith)
    ]

claimed_open : (j k : BackgroundJob) → Round j k → is_terminal j.status ≡ false
claimed_open j k (completed worker stale_before now clock result c e) = ground arith
claimed_open j k (failed worker stale_before now clock message c e) = ground arith

Rounds-stay :
    {n : ℕ} {j k : BackgroundJob}
    → Rounds n j k
    → is_terminal j.status ≡ true
    → is_terminal k.status ≡ true
Rounds-stay none_left y = y
Rounds-stay (at_end z) y = y
Rounds-stay (round {n} {j} {k} {l} r rs) y = absurd (ground (arith, claimed_open j k r))

-- A job that may still be attempted has come to its end, completed or failed for good, once it has
-- had as many rounds as it has attempts left.
pub Rounds-terminal :
    (n : ℕ) (j k : BackgroundJob)
    → j.attempts < j.max_attempts
    → j.max_attempts ≤ j.attempts + n
    → Rounds n j k
    → is_terminal k.status ≡ true
Rounds-terminal n j k room enough rounds = go rounds room enough
  where
    go :
        {n : ℕ} {j k : BackgroundJob}
        → Rounds n j k
        → j.attempts < j.max_attempts
        → j.max_attempts ≤ j.attempts + n
        → is_terminal k.status ≡ true
    go none_left room enough = absurd (omega arith)
    go (at_end y) room enough = y
    go (round {n} {j} {k} {l} r rs) room enough = elim (Round-progress j k r) [
      | inl y ↦ Rounds-stay rs y
      | inr (more, most, same, left) ↦ go rs (omega arith) (omega arith)
    ]
