-- ===== src/Jobs/Running/Keeping.antt =====
-- A run of the worker keeps the bookings consistent.
use room_booking.Base.{ℕ, ◌+◌, List, [], ◌∷◌, Text}
use room_booking.Errors.{Result, ok, err, Error}
use room_booking.Json.{Fields}
use room_booking.Store.Rows.{
  BackgroundJob, JobType, JobStatus, AuditEventType, expire_bookings, expire_pro_access,
  auto_checkout, enqueue_reminders, promote_waitlist, purge_job_history,
}
use room_booking.Base.{Bool}
use room_booking.Store.Tx.{Triple, Triple-then, Unchanged, triple_rules}
use room_booking.Store.Tables.{update_jobs}
use room_booking.Store.World.{World, Api, Keeps, Holds}
use room_booking.Store.World.Keeping.{
  Keeps-transaction, Keeps-catches, Keeps-bind, Keeps-pure, keeps_rules,
}
use room_booking.Policy.{BookingPolicyConfig}
use room_booking.Bookings.Invariant.{Inv}
use room_booking.Bookings.WaitlistMoves.{record_audit-Inv}
use room_booking.Bookings.Safe.{
  expire_due_bookings-Inv, complete_due_bookings-Inv, promote_due_waitlist-Inv,
}
use room_booking.Subscription.Keeping.{expire_due_pro_access-Inv}
use room_booking.Jobs.Worker.{claim_tx, complete_tx, fail_tx, audit_job, audit_abandoned}
use room_booking.Jobs.Running.{
  Handler, handler_for, claim, execute, execute_all, run_once, settle_one,
}

update_jobs-Inv :
    (p : BackgroundJob → Bool) (f : BackgroundJob → BackgroundJob)
    → Triple Inv (update_jobs p f) (Unchanged Inv)
unfolding update_jobs
update_jobs-Inv p f = record { at = λ db v. v }

audit_job-Inv :
    (now id : ℕ) (event_type : AuditEventType) (status : JobStatus) (fields : Fields)
    → Triple Inv (audit_job now id event_type status fields) (Unchanged Inv)
unfolding audit_job
audit_job-Inv now id event_type status fields = record_audit-Inv _

audit_abandoned-Inv :
    (now : ℕ) (jobs : List BackgroundJob) → Triple Inv (audit_abandoned now jobs) (Unchanged Inv)
unfolding audit_abandoned
audit_abandoned-Inv now [] = search triple_rules
audit_abandoned-Inv now (j ∷ rest) =
    Triple-then _ _ (audit_job-Inv _ _ _ _ _) (λ _. audit_abandoned-Inv now rest)

ruleset job_rules = (triple_rules, update_jobs-Inv, audit_job-Inv, audit_abandoned-Inv)

claim_tx-Inv :
    (worker limit stale_before now : ℕ)
    → Triple Inv (claim_tx worker limit stale_before now) (Unchanged Inv)
unfolding claim_tx
claim_tx-Inv worker limit stale_before now = search job_rules depth 30

complete_tx-Inv :
    (worker : ℕ) (job : BackgroundJob) (result : Fields) (now : ℕ)
    → Triple Inv (complete_tx worker job result now) (Unchanged Inv)
unfolding complete_tx
complete_tx-Inv worker job result now = search job_rules depth 30

fail_tx-Inv :
    (worker : ℕ) (job : BackgroundJob) (message : Text) (now : ℕ)
    → Triple Inv (fail_tx worker job message now) (Unchanged Inv)
unfolding fail_tx
fail_tx-Inv worker job message now = search job_rules depth 30

module _ (handler : JobType → Handler) (message_of : Error → Text) (lock_timeout worker : ℕ)
    (handles : (t : JobType) (job_id now : ℕ) → Keeps Inv (handler t job_id now)) where
  claim-Inv :
      (batch_size now : ℕ) → Keeps Inv (claim handler message_of lock_timeout worker batch_size now)
  unfolding claim
  claim-Inv batch_size now =
      Keeps-bind _ _ (Keeps-transaction _ (claim_tx-Inv _ _ _ _)) (λ ids. search keeps_rules)

  execute-Inv :
      (job : BackgroundJob) (now : ℕ)
      → Keeps Inv (execute handler message_of lock_timeout worker job now)
  unfolding execute
  execute-Inv job now =
      Keeps-catches _ _
        (Keeps-bind _ _ (handles job.job_type job.id now)
          (λ result. Keeps-transaction _ (complete_tx-Inv worker job result now)))
        (λ e. Keeps-transaction _ (fail_tx-Inv worker job (message_of e) now))

  settle_one-Holds :
      (r : Result (Unit {0}) × World) (rest : Api ℕ)
      → Holds Inv r.1
      → Keeps Inv rest
      → Holds Inv (settle_one handler message_of lock_timeout worker r rest).1
  settle_one-Holds (ok u, w) rest h k = k.at w h
  settle_one-Holds (err e, w) rest h k =
      (Keeps-bind rest _ k (λ failures. Keeps-pure (failures + 1))).at w h

  execute_all-Inv :
      (jobs : List BackgroundJob) (now : ℕ)
      → Keeps Inv (execute_all handler message_of lock_timeout worker jobs now)
  unfolding execute_all
  execute_all-Inv [] now = Keeps-pure 0
  execute_all-Inv (j ∷ js) now = record {
    at = λ w h.
        settle_one-Holds (execute handler message_of lock_timeout worker j now w)
          (execute_all handler message_of lock_timeout worker js now) ((execute-Inv j now).at w h)
          (execute_all-Inv js now);
  }

  run_once-Inv :
      (batch_size now : ℕ)
      → Keeps Inv (run_once handler message_of lock_timeout worker batch_size now)
  unfolding run_once
  run_once-Inv batch_size now =
      Keeps-bind _ _ (claim-Inv batch_size now)
        (λ jobs. Keeps-bind _ _ (execute_all-Inv jobs now) (λ failures. search keeps_rules))

module _ (config : BookingPolicyConfig) (reminders purge : Handler)
    (reminds : (job_id now : ℕ) → Keeps Inv (reminders job_id now))
    (purges : (job_id now : ℕ) → Keeps Inv (purge job_id now)) where
  handler_for-Inv :
      (t : JobType) (job_id now : ℕ) → Keeps Inv (handler_for config reminders purge t job_id now)
  unfolding handler_for
  handler_for-Inv expire_bookings job_id now = search (keeps_rules, expire_due_bookings-Inv)
  handler_for-Inv expire_pro_access job_id now = search (keeps_rules, expire_due_pro_access-Inv)
  handler_for-Inv auto_checkout job_id now = search (keeps_rules, complete_due_bookings-Inv)
  handler_for-Inv enqueue_reminders job_id now = reminds job_id now
  handler_for-Inv promote_waitlist job_id now = search (keeps_rules, promote_due_waitlist-Inv)
  handler_for-Inv purge_job_history job_id now = purges job_id now

  -- A run of the worker, whatever jobs it claims and however their handlers end, keeps the bookings
  -- and their events consistent, if the handlers of the reminders and of the purge, and the other
  -- clients that commit meanwhile, keep them so.
  pub run_once_lem :
      (message_of : Error → Text) (lock_timeout worker batch_size now : ℕ) (w : World)
      → Holds Inv w
      → Holds Inv
          (run_once
            (handler_for config reminders purge)
            message_of
            lock_timeout
            worker
            batch_size
            now
            w).1
  run_once_lem message_of lock_timeout worker batch_size now w h =
      (run_once-Inv (handler_for config reminders purge) message_of lock_timeout worker
          handler_for-Inv batch_size now).at
        w h
