-- ===== src/Tests/Queue.antt =====
-- Runs of the theorems about background jobs.
use room_booking.Base.{
  ◌+◌, ◌-◌, ◌≡◌, refl, true, false, none, List, [], ◌∷◌, All, AllPairs, codes, arith, includes_id,
}
use room_booking.Base.Sort.{sort_by}
use room_booking.Errors.{ok}
use room_booking.Json.{end}
use room_booking.Store.Rows.{Db, BackgroundJob, JobStatus, expire_bookings, auto_checkout}
use room_booking.Store.Tables.{update_jobs}
use room_booking.Store.World.{World, Holds, pure}
use room_booking.Store.World.Keeping.{Keeps-pure}
use room_booking.Bookings.Invariant.{Inv}
use room_booking.Jobs.Worker.{retry_at, claim_tx, claims, fails, completes, audit_abandoned}
use room_booking.Jobs.Worker.Lifecycle.{Later, is_terminal}
use room_booking.Jobs.Worker.Queue.{
  Work, claiming, completing, failing, perform_all, perform_all-Later,
}
use room_booking.Jobs.Worker.Locks.{claim_tx_exclusive}
use room_booking.Jobs.Worker.Rounds.{none_left, round, completed, failed, Rounds-terminal}
use room_booking.Jobs.Running.{handler_for, run_once}
use room_booking.Jobs.Running.Keeping.{run_once_lem}
use room_booking.Jobs.Scheduler.{create_jobs, create_job, insert_job}
use room_booking.Jobs.Scheduler.Buckets.{DistinctKeys, HasJob, create_jobs_once}
use room_booking.Tests.{config, ten, empty_db, world, after, conflict_attempt}

abbrev waiting_job : BackgroundJob
waiting_job = record {
  id = 30;
  job_type = expire_bookings;
  status = JobStatus.pending;
  scheduled_for = ten;
  attempts = 0;
  max_attempts = 2;
  available_at = ten;
  locked_at = none;
  locked_by = none;
  started_at = none;
  completed_at = none;
  last_error = none;
  result = none;
  created_at = ten;
  updated_at = ten;
}

abbrev queue_db : Db
queue_db = record empty_db { jobs = waiting_job ∷ [] }

-- two workers; the second one takes the job over once the first one's lock is old
abbrev shift : List Work
shift =
    claiming 1 10 (ten - 300000) ten
    ∷ claiming 2 10 (ten + 100000) (ten + 400000)
    ∷ failing 2 (claims 2 (ten + 400000) (claims 1 ten waiting_job)) (codes "timeout")
        (ten + 400000)
    ∷ completing 1 (claims 1 ten waiting_job) end (ten + 500000)
    ∷ []

perform_all-Later_example : AllPairs Later queue_db.jobs (perform_all shift queue_db).jobs
perform_all-Later_example =
    perform_all-Later shift queue_db (tt, tt)
      (record { attempts = omega arith; holder = refl; since = refl }, tt)

abbrev claimed_db : Db
claimed_db = after queue_db (claim_tx 1 10 (ten - 300000) ten queue_db)

abbrev claimed_later : Db
claimed_later = after claimed_db (claim_tx 2 10 (ten - 299000) (ten + 1000) claimed_db)

claim_tx_exclusive_example : All (λ id. includes_id (30 ∷ []) id ≡ false) []
unfolding claim_tx update_jobs audit_abandoned sort_by
claim_tx_exclusive_example =
    claim_tx_exclusive 1 10 (ten - 300000) ten 2 10 (ten - 299000) (ten + 1000) queue_db claimed_db
      claimed_later (30 ∷ []) [] refl refl (omega arith)

-- the second worker takes the job over once the first one's lock is old
abbrev taken_over : Db
taken_over = after claimed_db (claim_tx 2 10 (ten + 100000) (ten + 400000) claimed_db)

abbrev failed_once : BackgroundJob
failed_once = fails (claims 1 ten waiting_job) (codes "timeout") ten ten (claims 1 ten waiting_job)

abbrev completed_job : BackgroundJob
completed_job = completes end (ten + 60000) (ten + 60000) (claims 1 (ten + 60000) failed_once)

Rounds-terminal_example : is_terminal completed_job.status ≡ true
unfolding retry_at
Rounds-terminal_example = Rounds-terminal 2 waiting_job completed_job (omega arith) (omega arith) (
    round (failed 1 (ten - 300000) ten ten (codes "timeout") refl refl)
      (round (completed 1 (ten - 240000) (ten + 60000) (ten + 60000) end refl refl) none_left))

abbrev scheduled_db : Db
scheduled_db =
    after empty_db (create_jobs (expire_bookings ∷ auto_checkout ∷ []) ten ten 5 empty_db)

create_jobs_once_example :
    DistinctKeys scheduled_db
    × All (HasJob ten scheduled_db) (expire_bookings ∷ auto_checkout ∷ [])
    × (create_jobs (expire_bookings ∷ auto_checkout ∷ []) ten (ten + 1000) 3 scheduled_db
        ≡ ok (0, scheduled_db))
unfolding create_jobs create_job insert_job
create_jobs_once_example =
    create_jobs_once (expire_bookings ∷ auto_checkout ∷ []) ten ten 5 (ten + 1000) 3 empty_db
      scheduled_db 2 tt refl

abbrev busy_world : World
busy_world = world (conflict_attempt ∷ []) queue_db

busy_world-Holds : Holds Inv busy_world
busy_world-Holds = record {
  now = record { apart = tt; distinct = tt; proper = tt; current = tt; trace = tt; fresh = tt };
  others = (λ db v. v, tt);
}

run_once_lem_example :
    Holds Inv
      (run_once
        (handler_for config (λ job_id now. pure end) (λ job_id now. pure end))
        (λ e. codes "error")
        300000
        1
        10
        ten
        busy_world).1
run_once_lem_example =
    run_once_lem config (λ job_id now. pure end) (λ job_id now. pure end)
      (λ job_id now. Keeps-pure end) (λ job_id now. Keeps-pure end) (λ e. codes "error") 300000 1 10
      ten busy_world busy_world-Holds
