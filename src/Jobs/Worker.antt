-- ===== src/Jobs/Worker.antt =====
-- The transactions of api/src/jobs/background-job.worker.ts.
--
-- The transactions are read committed. Those of `complete` and `fail` have one conditional update,
-- and the audit row that follows it. That of `claim` locks the rows that it gives out. Each is one
-- step here, claims one after the other, so that `SKIP LOCKED` skips no row. A time is later than
-- one hour after 1970-01-01T00:00Z.
pub mod Lifecycle
pub mod Queue
pub mod Locks
pub mod Rounds
use room_booking.Base.{
  ℕ, ◌+◌, ◌-◌, ◌*◌, ◌^◌, ◌==◌, min, max, ltb, leb, not, ◌&&◌, ◌||◌, Bool, true, false, Option, none,
  some, or_else, List, [], ◌∷◌, map, take, where_rows, includes_id, Text, codes, if◌then◌else◌,
}
use room_booking.Base.Sort.{sort_by}
use room_booking.Json.{Fields, field, end, str, num, spread, present}
use room_booking.Store.Rows.{
  BackgroundJob, JobType, expire_bookings, expire_pro_access, auto_checkout, enqueue_reminders,
  promote_waitlist, purge_job_history, JobStatus, pending, processing, retry, completed, failed,
  ActorType, TargetType, AuditStatus, AuditEventType, background_job_failed,
  background_job_completed, background_job_retry_scheduled,
}
use room_booking.Store.Tx.{Tx, pure, reads, ◌>>=◌, ◌>>◌}
use room_booking.Store.Tables.{update_jobs, record_audit}

abbrev pub max_backoff_ms : ℕ
max_backoff_ms = 60 * 60000

-- carriage return, line feed and tab
abbrev is_break : ℕ → Bool
is_break c = c == 13 || c == 10 || c == 9

-- `.replace(/[\r\n\t]+/g, " ")`, with whether the unit before was one of these
abbrev on_one_line : Bool → Text → Text
on_one_line inside [] = []
on_one_line inside (c ∷ cs) =
    let inner = on_one_line true cs in
    let outer = on_one_line false cs in
    if is_break c then (if inside then inner else 32 ∷ inner) else c ∷ outer

pub safe_error : Text → Text
safe_error message = take 500 (on_one_line false message)

unfoldable pub retry_at : ℕ → ℕ → ℕ
retry_at now attempts = now + min (30000 * 2 ^ (attempts - 1)) max_backoff_ms

-- the variable of the environment, where it is an integer
pub lock_timeout_ms : Option ℕ → ℕ
lock_timeout_ms none = 300000
lock_timeout_ms (some configured) =
    if leb 60000 configured && leb configured 3600000 then configured else 300000

abbrev pub is_processing : JobStatus → Bool
is_processing processing = true
is_processing _ = false

abbrev pub is_queued : JobStatus → Bool
is_queued pending = true
is_queued retry = true
is_queued _ = false

-- `"locked_at" < limit`, which no missing time satisfies
abbrev pub is_before : Option ℕ → ℕ → Bool
is_before none limit = false
is_before (some t) limit = ltb t limit

-- the condition of the first `UPDATE` of a claim, and what it sets
abbrev pub is_abandoned : ℕ → BackgroundJob → Bool
is_abandoned stale_before j =
    is_processing j.status && is_before j.locked_at stale_before && leb j.max_attempts j.attempts

abbrev pub abandons : ℕ → BackgroundJob → BackgroundJob
abandons now j = record j {
  status = failed;
  locked_at = none;
  locked_by = none;
  last_error = some (codes "Worker lock expired after maximum attempts");
  updated_at = now;
}

-- the condition of the candidates, and what the second `UPDATE` sets
abbrev pub is_claimable : ℕ → ℕ → BackgroundJob → Bool
is_claimable stale_before now j =
    ltb j.attempts j.max_attempts
    && (is_queued j.status && leb j.available_at now
        || is_processing j.status && is_before j.locked_at stale_before)

abbrev pub claims : ℕ → ℕ → BackgroundJob → BackgroundJob
claims worker now j = record j {
  status = processing;
  attempts = j.attempts + 1;
  locked_at = some now;
  locked_by = some worker;
  started_at = some (or_else j.started_at now);
  last_error = none;
  updated_at = now;
}

abbrev pub type_text : JobType → Text
type_text expire_bookings = codes "EXPIRE_BOOKINGS"
type_text expire_pro_access = codes "EXPIRE_PRO_ACCESS"
type_text auto_checkout = codes "AUTO_CHECKOUT"
type_text enqueue_reminders = codes "ENQUEUE_REMINDERS"
type_text promote_waitlist = codes "PROMOTE_WAITLIST"
type_text purge_job_history = codes "PURGE_JOB_HISTORY"

-- the audit row of a job that leaves `PROCESSING`
unfoldable pub audit_job : ℕ → ℕ → AuditEventType → JobStatus → Fields → Tx (Unit {0})
audit_job now id event_type new_status fields = record_audit (record {
  actor_type = ActorType.system;
  actor_id = none;
  correlation_id = some id;
  target_type = TargetType.job;
  target_id = id;
  event_type = event_type;
  source_event_id = none;
  booking_id = none;
  room_id = none;
  previous_status = some (AuditStatus.job processing);
  new_status = some (AuditStatus.job new_status);
  metadata = present fields;
  created_at = some now;
})

unfoldable pub audit_abandoned : ℕ → List BackgroundJob → Tx (Unit {0})
audit_abandoned now [] = pure tt
audit_abandoned now (j ∷ rest) = do
  audit_job now j.id background_job_failed failed (
      field (codes "jobType") (str (type_text j.job_type))
        (field (codes "reason") (str (codes "lock-expired")) end))
  audit_abandoned now rest

-- the ids of the candidates, the longest available first
abbrev pub candidates : ℕ → ℕ → ℕ → List BackgroundJob → List ℕ
candidates limit stale_before now jobs =
    map (λ j. j.id)
      (take limit (
        sort_by (λ j. j.available_at)
          (sort_by (λ j. j.created_at) (where_rows (is_claimable stale_before now) jobs))))

-- the transaction of `claim`: the ids of the jobs that the worker has got
unfoldable pub claim_tx : ℕ → ℕ → ℕ → ℕ → Tx (List ℕ)
claim_tx worker limit stale_before now = do
  abandoned ← reads (λ db. where_rows (is_abandoned stale_before) db.jobs)
  count ← update_jobs (is_abandoned stale_before) (abandons now)
  audit_abandoned now abandoned
  ids ← reads (λ db. candidates limit stale_before now db.jobs)
  claimed ← update_jobs (λ j. includes_id ids j.id) (claims worker now)
  pure ids

-- `where: { id, status: "PROCESSING", lockedBy: this.workerId }`
abbrev pub is_by : Option ℕ → ℕ → Bool
is_by none worker = false
is_by (some w) worker = w == worker

abbrev pub is_held : ℕ → ℕ → BackgroundJob → Bool
is_held worker id j = (j.id == id) && is_processing j.status && is_by j.locked_by worker

-- `updatedAt` of the schema follows the clock
abbrev pub completes : Fields → ℕ → ℕ → BackgroundJob → BackgroundJob
completes result now clock j = record j {
  status = completed;
  completed_at = some now;
  locked_at = none;
  locked_by = none;
  last_error = none;
  result = some result;
  updated_at = clock;
}

abbrev job_fields : BackgroundJob → Fields → Fields
job_fields job fields =
    field (codes "jobType") (str (type_text job.job_type))
      (field (codes "attempts") (num job.attempts) fields)

unfoldable pub complete_tx : ℕ → BackgroundJob → Fields → ℕ → Tx (Unit {0})
complete_tx worker job result now = do
  clock ← reads (λ db. db.clock)
  count ← update_jobs (is_held worker job.id) (completes result now clock)
  let audit =
      audit_job now job.id background_job_completed completed (spread (job_fields job end) result)
  if not (count == 1) then pure tt else audit

abbrev pub is_exhausted : BackgroundJob → Bool
is_exhausted job = leb job.max_attempts job.attempts

-- the update for a job whose handler has failed, as the worker has read it
abbrev pub fails : BackgroundJob → Text → ℕ → ℕ → BackgroundJob → BackgroundJob
fails job message now clock j = record j {
  status = if is_exhausted job then failed else retry;
  available_at = if is_exhausted job then job.available_at else retry_at now job.attempts;
  locked_at = none;
  locked_by = none;
  last_error = some (safe_error message);
  updated_at = clock;
}

unfoldable pub fail_tx : ℕ → BackgroundJob → Text → ℕ → Tx (Unit {0})
unfolding safe_error
fail_tx worker job message now = do
  clock ← reads (λ db. db.clock)
  count ← update_jobs (is_held worker job.id) (fails job message now clock)
  let audit =
      audit_job now job.id
        (if is_exhausted job then background_job_failed else background_job_retry_scheduled)
        (if is_exhausted job then failed else retry)
        (job_fields job (field (codes "error") (str (safe_error message)) end))
  if not (count == 1) then pure tt else audit
