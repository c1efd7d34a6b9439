-- ===== src/Jobs/Scheduler.antt =====
-- api/src/jobs/background-job.scheduler.ts
--
-- A time is later than one hour after 1970-01-01T00:00Z.
pub mod Buckets
use room_booking.Base.{
  ℕ, ◌+◌, ◌-◌, ◌*◌, ◌/◌, ◌%◌, ◌==◌, ltb, leb, not, ◌&&◌, ◌||◌, Bool, true, false, Option, none,
  some, is_some, length, List, [], ◌∷◌, ◌++◌, find_first, any_row, is_empty, if◌then◌else◌,
}
use room_booking.Store.Rows.{
  Db, User, Booking, BackgroundJob, JobType, expire_bookings, expire_pro_access, auto_checkout,
  enqueue_reminders, promote_waitlist, purge_job_history, JobStatus, confirmed, checked_in,
  status_eq, is_pro, is_waiting,
}
use room_booking.Errors.{ok}
use room_booking.Store.Tx.{Tx, pure, reads, fresh_id, new_date, ◌>>=◌, ◌>>◌}
use room_booking.Subscription.Entitlement.{is_expired}

-- a number of the environment, where it is an integer within bounds
abbrev within : Option ℕ → ℕ → ℕ → ℕ → ℕ
within none low high fallback = fallback
within (some n) low high fallback = if leb low n && leb n high then n else fallback

pub schedule_interval_ms : Option ℕ → ℕ
schedule_interval_ms configured = within configured 10000 300000 60000

pub configured_max_attempts : Option ℕ → ℕ
configured_max_attempts configured = within configured 1 20 5

unfoldable pub bucket_start : ℕ → ℕ → ℕ
bucket_start now interval = now / interval * interval

abbrev pub type_code : JobType → ℕ
type_code expire_bookings = 0
type_code expire_pro_access = 1
type_code auto_checkout = 2
type_code enqueue_reminders = 3
type_code promote_waitlist = 4
type_code purge_job_history = 5

-- the number that stands for `roomflow:${type}:${scheduledFor}`
abbrev pub job_key_of : JobType → ℕ → ℕ
job_key_of job_type scheduled_for = scheduled_for * 6 + type_code job_type

abbrev pub job_key : BackgroundJob → ℕ
job_key j = job_key_of j.job_type j.scheduled_for

-- a new row, with the defaults of the schema
abbrev pub job : JobType → ℕ → ℕ → ℕ → ℕ → ℕ → BackgroundJob
job job_type scheduled_for now max_attempts id clock = record {
  id = id;
  job_type = job_type;
  status = JobStatus.pending;
  scheduled_for = scheduled_for;
  attempts = 0;
  max_attempts = max_attempts;
  available_at = now;
  locked_at = none;
  locked_by = none;
  started_at = none;
  completed_at = none;
  last_error = none;
  result = none;
  created_at = clock;
  updated_at = clock;
}

abbrev is_pro_user : Db → ℕ → Bool
is_pro_user db id = any_row (λ (u : User). (u.id == id) && is_pro u.plan) db.users

abbrev from_to : ℕ → ℕ → ℕ → Bool
from_to start low high = leb low start && leb start high

-- a confirmed booking of a Pro user that starts within a range
abbrev reminds : Db → ℕ → ℕ → Booking → Bool
reminds db low high b =
    status_eq b.status confirmed && from_to b.start_time low high && is_pro_user db b.user_id

abbrev when : Bool → JobType → List JobType
when true job_type = job_type ∷ []
when false job_type = []

unfoldable pub find_due_types : ℕ → Db → List JobType
find_due_types now db =
    when expired expire_bookings
    ++ when expired_pro expire_pro_access
    ++ when checkout auto_checkout
    ++ when (reminder_30 || check_in_reminder) enqueue_reminders
    ++ when waitlist promote_waitlist
  where
    expired : Bool
    expired =
        any_row
          (λ (b : Booking). status_eq b.status confirmed && ltb b.start_time (now - 12 * 60000))
          db.bookings

    expired_pro : Bool
    expired_pro = any_row (is_expired now) db.users

    checkout : Bool
    checkout =
        any_row (λ (b : Booking). status_eq b.status checked_in && ltb b.end_time now) db.bookings

    reminder_30 : Bool
    reminder_30 =
        any_row
          (λ b.
            reminds db (now + 25 * 60000) (now + 35 * 60000) b
            && not (is_some b.reminder_30_sent_at))
          db.bookings

    check_in_reminder : Bool
    check_in_reminder =
        any_row
          (λ b.
            reminds db (now - 5 * 60000) (now + 5 * 60000) b
            && not (is_some b.reminder_checkin_sent_at))
          db.bookings

    waitlist : Bool
    waitlist = any_row (λ e. is_waiting e.status) db.waitlist

abbrev pub is_taken : JobType → ℕ → Db → Bool
is_taken job_type scheduled_for db =
    any_row (λ j. job_key j == job_key_of job_type scheduled_for) db.jobs

unfoldable pub insert_job : BackgroundJob → Tx (Unit {0})
insert_job j db = ok (tt, record db { jobs = j ∷ db.jobs })

-- the row of `createMany` for one type, if its key is free
unfoldable pub create_job : JobType → ℕ → ℕ → ℕ → Tx ℕ
create_job job_type scheduled_for now max_attempts = do
  taken ← reads (is_taken job_type scheduled_for)
  let create = do
    id ← fresh_id
    clock ← new_date
    insert_job (job job_type scheduled_for now max_attempts id clock)
    pure 1
  if taken then pure 0 else create

-- `createMany` with `skipDuplicates`, as it is documented: a row whose key is taken is left out. The
-- result is the number of rows that it has created.
unfoldable pub create_jobs : List JobType → ℕ → ℕ → ℕ → Tx ℕ
create_jobs [] scheduled_for now max_attempts = pure 0
create_jobs (t ∷ ts) scheduled_for now max_attempts = do
  one ← create_job t scheduled_for now max_attempts
  rest ← create_jobs ts scheduled_for now max_attempts
  pure (one + rest)

-- at 00:00 UTC
abbrev is_midnight : ℕ → Bool
is_midnight scheduled_for = scheduled_for / 60000 % 1440 == 0

pub record Enqueued : Type 0 where
  pub scheduled_for : ℕ
  pub requested : ℕ
  pub created : ℕ

abbrev pub jobs_of : List JobType → ℕ → List JobType
jobs_of due_types scheduled_for =
    due_types ++ (if is_midnight scheduled_for then purge_job_history ∷ [] else [])
