-- ===== src/Jobs/Running.antt =====
-- `runOnce`, `claim` and `execute` of api/src/jobs/background-job.worker.ts, and the handlers of
-- api/src/jobs/background-job.handlers.ts that the services behind the bookings serve.
--
-- The executions of one run come one after the other; what others do between their transactions
-- is on the schedule. `message_of` is the message of an error.
pub mod Keeping
use room_booking.Base.{
  ℕ, ◌+◌, ◌-◌, min, max, ltb, length, Bool, true, false, Option, none, some, List, [], ◌∷◌,
  where_rows, includes_id, is_empty, Text, codes, if◌then◌else◌,
}
use room_booking.Errors.{Result, ok, err, Error, plain, background_job_update_failed}
use room_booking.Json.{Fields, field, end, num, str, present, Metadata}
use room_booking.Store.Rows.{
  Db, BackgroundJob, JobType, expire_bookings, expire_pro_access, auto_checkout, enqueue_reminders,
  promote_waitlist, purge_job_history, ActorType,
}
use room_booking.Store.World.{World, Api, pure, throw, queries, catches, transaction, ◌>>=◌, ◌>>◌}
use room_booking.Policy.{BookingPolicyConfig}
use room_booking.Bookings.Events.{BookingActor}
use room_booking.Bookings.Service.{expire_due_bookings, complete_due_bookings}
use room_booking.Bookings.Waitlist.{promote_due_waitlist}
use room_booking.Subscription.Access.{expire_due_pro_access}
use room_booking.Jobs.Worker.{claim_tx, complete_tx, fail_tx, lock_timeout_ms, type_text}

-- the actor of a handler
abbrev pub system_actor : ℕ → JobType → BookingActor
system_actor job_id job_type = record {
  actor_type = ActorType.system;
  id = none;
  correlation_id = some job_id;
  metadata = present (
      field (codes "source") (str (codes "background-job"))
        (field (codes "jobType") (str (type_text job_type)) end));
}

abbrev pub Handler : Type 0
Handler = ℕ → ℕ → Api Fields

-- `BackgroundJobHandlers.for`, with the handlers of the notifications given
module _ (config : BookingPolicyConfig) (reminders purge : Handler) where
  unfoldable pub handler_for : JobType → Handler
  handler_for expire_bookings job_id now = do
    expired ← expire_due_bookings now (system_actor job_id expire_bookings)
    pure (field (codes "expired") (num expired) end)
  handler_for expire_pro_access job_id now = do
    done ← expire_due_pro_access now
    pure (
        field (codes "usersExpired") (num done.users) (
          field (codes "seriesCancelled") (num done.series)
            (field (codes "bookingsCancelled") (num done.bookings) end)))
  handler_for auto_checkout job_id now = do
    completed ← complete_due_bookings now (system_actor job_id auto_checkout)
    pure (field (codes "completed") (num completed) end)
  handler_for enqueue_reminders job_id now = reminders job_id now
  handler_for promote_waitlist job_id now = do
    done ← promote_due_waitlist config now (system_actor job_id promote_waitlist)
    pure (
        field (codes "expired") (num done.expired) (
          field (codes "promoted") (num done.promoted)
            (field (codes "slotsChecked") (num done.slots_checked) end)))
  handler_for purge_job_history job_id now = purge job_id now

module _ (handler : JobType → Handler) (message_of : Error → Text) (lock_timeout : ℕ)
    (worker : ℕ) where
  -- what is read of the jobs that the claim has given
  unfoldable pub claim : ℕ → ℕ → Api (List BackgroundJob)
  claim batch_size now = do
    ids ← transaction (claim_tx worker (max 1 (min batch_size 100)) (now - lock_timeout) now)
    if is_empty ids then pure [] else queries (λ db. where_rows (λ j. includes_id ids j.id) db.jobs)

  unfoldable pub execute : BackgroundJob → ℕ → Api (Unit {0})
  execute job now =
      catches
        (handler job.job_type job.id now >>= λ result.
          transaction (complete_tx worker job result now))
        (λ e. transaction (fail_tx worker job (message_of e) now))

  -- `Promise.allSettled`: the number of executions that have thrown
  abbrev settle_one : Result (Unit {0}) × World → Api ℕ → Result ℕ × World
  settle_one (ok u, w) rest = rest w
  settle_one (err e, w) rest = (rest >>= λ failures. pure (failures + 1)) w

  unfoldable pub execute_all : List BackgroundJob → ℕ → Api ℕ
  execute_all [] now w = (ok 0, w)
  execute_all (j ∷ js) now w = settle_one (execute j now w) (execute_all js now)

  unfoldable pub run_once : ℕ → ℕ → Api ℕ
  run_once batch_size now = do
    jobs ← claim batch_size now
    failures ← execute_all jobs now
    if ltb 0 failures then throw (plain background_job_update_failed) else pure (length jobs)
