-- ===== src/Jobs/Worker/Lifecycle.antt =====
-- The life of a background job as a relation of steps, and what each step keeps.
use room_booking.Base.{
  ℕ, ◌+◌, ◌≤◌, ◌≡◌, refl, Bool, true, false, is_some, Text, arith, Bool-cases, inl, inr,
}
use room_booking.Json.{Fields}
use room_booking.Store.Rows.{BackgroundJob, JobStatus, completed, failed}
use room_booking.Jobs.Worker.{
  is_processing, is_abandoned, abandons, is_claimable, claims, is_held, completes, is_exhausted,
  fails,
}

-- What a transaction of some worker may do to a job. The worker that fails a job goes by the row
-- as it has read it, `seen`.
pub data Step (j k : BackgroundJob) : Type 0 where
  abandon :
      (stale_before now : ℕ) → is_abandoned stale_before j ≡ true → k ≡ abandons now j → Step j k
  claim :
      (worker stale_before now : ℕ)
      → is_claimable stale_before now j ≡ true
      → k ≡ claims worker now j
      → Step j k
  complete :
      (worker now clock : ℕ) (result : Fields)
      → is_held worker j.id j ≡ true
      → k ≡ completes result now clock j
      → Step j k
  fail :
      (worker now clock : ℕ) (seen : BackgroundJob) (message : Text)
      → is_held worker j.id j ≡ true
      → k ≡ fails seen message now clock j
      → Step j k

pub data Reach (j : BackgroundJob) : BackgroundJob → Type 0 where
  here : Reach j j
  next : {k l : BackgroundJob} → Reach j k → Step k l → Reach j l

pub Reach-trans : {j k l : BackgroundJob} → Reach j k → Reach k l → Reach j l
Reach-trans r here = r
Reach-trans r (next s st) = next (Reach-trans r s) st

abbrev pub is_terminal : JobStatus → Bool
is_terminal completed = true
is_terminal failed = true
is_terminal _ = false

-- A job has been attempted no more often than it may be, and is locked just while it is processed.
pub record Valid (j : BackgroundJob) : Type 0 where
  pub attempts : j.attempts ≤ j.max_attempts
  pub holder : is_some j.locked_by ≡ is_processing j.status
  pub since : is_some j.locked_at ≡ is_processing j.status

pub Step-Valid : (j k : BackgroundJob) → Step j k → Valid j → Valid k
Step-Valid j k (abandon stale_before now a e) v = ground arith
Step-Valid j k (claim worker stale_before now a e) v = ground arith
Step-Valid j k (complete worker now clock result a e) v = ground arith
Step-Valid j k (fail worker now clock seen message a e) v = elim (Bool-cases (is_exhausted seen)) [
  | inl y ↦ rw (e, y) (record { attempts = v.attempts; holder = refl; since = refl })
  | inr n ↦ rw (e, n) (record { attempts = v.attempts; holder = refl; since = refl })
]

-- the executions of the job on the way
abbrev pub claim_count : {j k : BackgroundJob} → Step j k → ℕ
claim_count (claim worker stale_before now a e) = 1
claim_count _ = 0

abbrev pub executions : {j k : BackgroundJob} → Reach j k → ℕ
executions here = 0
executions (next r st) = executions r + claim_count st

pub Step-attempts : (j k : BackgroundJob) (st : Step j k) → k.attempts ≡ j.attempts + claim_count st
Step-attempts j k (abandon stale_before now a e) = ground arith
Step-attempts j k (claim worker stale_before now a e) = ground arith
Step-attempts j k (complete worker now clock result a e) = ground arith
Step-attempts j k (fail worker now clock seen message a e) = ground arith

pub Reach-attempts : {j k : BackgroundJob} (r : Reach j k) → k.attempts ≡ j.attempts + executions r
Reach-attempts here = omega arith
Reach-attempts (next {k} {l} r st) = omega (arith, Reach-attempts r, Step-attempts k l st)

not_terminal : (j k : BackgroundJob) → Step j k → is_terminal j.status ≡ false
not_terminal j k (abandon stale_before now a e) = ground arith
not_terminal j k (claim worker stale_before now a e) = ground arith
not_terminal j k (complete worker now clock result a e) = ground arith
not_terminal j k (fail worker now clock seen message a e) = ground arith

Step-fixed :
    (j k : BackgroundJob)
    → Step j k
    → (k.id ≡ j.id)
      × (k.job_type ≡ j.job_type)
      × (k.max_attempts ≡ j.max_attempts)
      × (k.scheduled_for ≡ j.scheduled_for)
Step-fixed j k (abandon stale_before now a e) = ground arith
Step-fixed j k (claim worker stale_before now a e) = ground arith
Step-fixed j k (complete worker now clock result a e) = ground arith
Step-fixed j k (fail worker now clock seen message a e) = ground arith

-- What a job has become after any number of steps.
pub record Later (j k : BackgroundJob) : Type 0 where
  pub same_id : k.id ≡ j.id
  pub same_type : k.job_type ≡ j.job_type
  pub same_max : k.max_attempts ≡ j.max_attempts
  pub same_schedule : k.scheduled_for ≡ j.scheduled_for
  pub way : Reach j k
  pub bounded : executions way ≤ j.max_attempts
  pub valid : Valid k
  pub final : is_terminal j.status ≡ true → k ≡ j

Reach-fixed :
    {j k : BackgroundJob}
    → Reach j k
    → (k.id ≡ j.id)
      × (k.job_type ≡ j.job_type)
      × (k.max_attempts ≡ j.max_attempts)
      × (k.scheduled_for ≡ j.scheduled_for)
Reach-fixed here = (refl, refl, refl, refl)
Reach-fixed (next {k} {l} r st) = ground (arith, Reach-fixed r, Step-fixed k l st)

Reach-Valid : {j k : BackgroundJob} → Reach j k → Valid j → Valid k
Reach-Valid here v = v
Reach-Valid (next {k} {l} r st) v = Step-Valid k l st (Reach-Valid r v)

Reach-final : {j k : BackgroundJob} → Reach j k → is_terminal j.status ≡ true → k ≡ j
Reach-final here y = refl
Reach-final (next {k} {l} r st) y = absurd (ground (arith, Reach-final r y, not_terminal k l st))

pub Reach-Later : (j k : BackgroundJob) → Valid j → Reach j k → Later j k
Reach-Later j k v r =
    let fixed = Reach-fixed r in
    let w = Reach-Valid r v in
    record {
      same_id = fixed.0;
      same_type = fixed.1;
      same_max = fixed.2;
      same_schedule = fixed.3;
      way = r;
      bounded = omega (arith, Reach-attempts r, w.attempts, fixed.2);
      valid = w;
      final = Reach-final r;
    }
