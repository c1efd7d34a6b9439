-- ===== src/Jobs/Enqueue.antt =====
-- `enqueueDueJobs` of api/src/jobs/background-job.scheduler.ts.
use room_booking.Base.{ℕ, length, is_empty, if◌then◌else◌}
use room_booking.Store.World.{Api, pure, queries, transaction, ◌>>=◌}
use room_booking.Jobs.Scheduler.{Enqueued, bucket_start, find_due_types, jobs_of, create_jobs}

unfoldable pub enqueue_due_jobs : ℕ → ℕ → ℕ → Api Enqueued
enqueue_due_jobs interval max_attempts now = do
  let scheduled_for = bucket_start now interval
  due_types ← queries (find_due_types now)
  let jobs = jobs_of due_types scheduled_for
  let create = transaction (create_jobs jobs scheduled_for now max_attempts) >>= λ created.
      pure (record { scheduled_for = scheduled_for; requested = length jobs; created = created })
  let nothing : Enqueued = record { scheduled_for = scheduled_for; requested = 0; created = 0 }
  if is_empty jobs then pure nothing else create
