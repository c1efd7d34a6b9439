-- ===== src/Jobs/Scheduler/Buckets.antt =====
-- There is one job of a type for an interval, however often it is scheduled.
use room_booking.Base.{
  ℕ, zero, ◌+◌, ◌≡◌, ◌≢◌, refl, ◌∙◌, ◌==◌, ==_refl, ==_iff, suc, true, false, List, [], ◌∷◌, All,
  any_row, arith, Bool-cases, inl, inr, Bool, ◌<◌, some, find_first, find_first_sound, sym, ap,
  All-map,
}
use room_booking.Base.Keys
use mathlib.Core.Path.{subst}
use room_booking.Errors.{ok, ok-pair}
use room_booking.Store.Rows.{
  Db, BackgroundJob, JobType, expire_bookings, expire_pro_access, auto_checkout, enqueue_reminders,
  promote_waitlist, purge_job_history,
}
use room_booking.Store.Tx.{>>=-ok}
use room_booking.Jobs.Scheduler.{
  job, job_key, job_key_of, type_code, is_taken, create_job, create_jobs, insert_job,
}

abbrev pub DistinctKeys : Db → Type 0
DistinctKeys db = Keys.Distinct job_key db.jobs

abbrev Taken : ℕ → Db → JobType → Type 0
Taken scheduled_for db t = is_taken t scheduled_for db ≡ true

not_taken :
    (k : ℕ) (db : Db)
    → any_row (λ j. job_key j == k) db.jobs ≡ false
    → All (λ j. job_key j ≢ k) db.jobs
not_taken k db h = go db.jobs h
  where
    go :
        (jobs : List _) → any_row (λ j. job_key j == k) jobs ≡ false → All (λ j. job_key j ≢ k) jobs
    go [] h = tt
    go (j ∷ jobs) h = (λ e. ground (arith, (==_iff (job_key j) k).1 e), go jobs (ground arith))

module _ (scheduled_for now max_attempts : ℕ) where
  -- What the creation of jobs leaves behind, for the types that it was asked for.
  record Created (types : List JobType) (db db' : Db) (n : ℕ) : Type 0 where
    returned : create_jobs types scheduled_for now max_attempts db ≡ ok (n, db')
    distinct : DistinctKeys db → DistinctKeys db'
    all_there : All (Taken scheduled_for db') types
    kept : (t : JobType) → Taken scheduled_for db t → Taken scheduled_for db' t

  create_job-ok :
      (t : JobType) (db : Db)
      → (n : ℕ) × (db' : Db) × (create_job t scheduled_for now max_attempts db ≡ ok (n, db'))
        × (DistinctKeys db → DistinctKeys db')
        × Taken scheduled_for db' t
        × ((s : JobType) → Taken scheduled_for db s → Taken scheduled_for db' s)
  unfolding create_job insert_job
  create_job-ok t db = elim (Bool-cases (is_taken t scheduled_for db)) [
    | inl y ↦ (0, db, rw y refl, λ d. d, y, λ s h. h)
    | inr n ↦ (
      1,
      record db {
        jobs = job t scheduled_for now max_attempts db.next_id db.clock ∷ db.jobs;
        next_id = suc db.next_id;
      },
      rw n refl,
      λ d. (not_taken (job_key_of t scheduled_for) db n, d),
      ground (arith, ==_refl (job_key_of t scheduled_for)),
      λ s h. ground (arith, h),
    )
  ]

  create_jobs-Created :
      (types : List JobType) (db : Db) → (n : ℕ) × (db' : Db) × Created types db db' n
  unfolding create_jobs
  create_jobs-Created [] db =
      (0, db, record { returned = refl; distinct = λ d. d; all_there = tt; kept = λ t h. h })
  create_jobs-Created (t ∷ ts) db =
      let (one, db₁, ran, distinct, there, kept) = create_job-ok t db in
      let (rest, db₂, c) = create_jobs-Created ts db₁ in
      (
        one + rest,
        db₂,
        record {
          returned =
              >>=-ok (create_job t scheduled_for now max_attempts) _ ran
              ∙ >>=-ok (create_jobs ts scheduled_for now max_attempts) _ c.returned;
          distinct = λ d. c.distinct (distinct d);
          all_there = (c.kept t there, c.all_there);
          kept = λ s h. c.kept s (kept s h);
        },
      )

  create_jobs-none :
      (types : List JobType) (db : Db)
      → All (Taken scheduled_for db) types
      → create_jobs types scheduled_for now max_attempts db ≡ ok (0, db)
  unfolding create_jobs create_job
  create_jobs-none [] db a = refl
  create_jobs-none (t ∷ ts) db a =
      let one : create_job t scheduled_for now max_attempts db ≡ ok (0, db) = rw a.0 refl in
      >>=-ok (create_job t scheduled_for now max_attempts) _ one
      ∙ >>=-ok (create_jobs ts scheduled_for now max_attempts) _ (create_jobs-none ts db a.1)

-- the job of a type for an interval
pub record HasJob (scheduled_for : ℕ) (db : Db) (t : JobType) : Type 0 where
  pub found : BackgroundJob
  pub first : find_first (λ j. job_key j == job_key_of t scheduled_for) db.jobs ≡ some found
  pub same_type : found.job_type ≡ t
  pub same_time : found.scheduled_for ≡ scheduled_for

abbrev type_of : ℕ → JobType
type_of zero = expire_bookings
type_of (suc zero) = expire_pro_access
type_of (suc (suc zero)) = auto_checkout
type_of (suc (suc (suc zero))) = enqueue_reminders
type_of (suc (suc (suc (suc zero)))) = promote_waitlist
type_of n = purge_job_history

of_code : (t : JobType) → (type_of (type_code t) ≡ t) × (type_code t < 6)
of_code expire_bookings = (refl, omega arith)
of_code expire_pro_access = (refl, omega arith)
of_code auto_checkout = (refl, omega arith)
of_code enqueue_reminders = (refl, omega arith)
of_code promote_waitlist = (refl, omega arith)
of_code purge_job_history = (refl, omega arith)

-- a key tells the type and the time
job_key_of_injective :
    (t u : JobType) (a b : ℕ) → job_key_of t a ≡ job_key_of u b → (t ≡ u) × (a ≡ b)
job_key_of_injective t u a b h =
    let (t_back, t_small) = of_code t in
    let (u_back, u_small) = of_code u in
    let codes : type_code t ≡ type_code u = omega (arith, t_small, u_small, h) in
    (sym t_back ∙ ap type_of codes ∙ u_back, omega (arith, t_small, u_small, h))

any_row-found {ℓ} :
    {A : Type ℓ} (p : A → Bool) (xs : List A)
    → any_row p xs ≡ true
    → (x : A) × (find_first p xs ≡ some x)
any_row-found p [] h = absurd (ground arith)
any_row-found p (x ∷ xs) h = elim (Bool-cases (p x)) [
  | inl y ↦ (x, rw y refl)
  | inr n ↦ let (z, e) = any_row-found p xs (ground arith) in (z, rw n e)
]

has_job :
    (scheduled_for : ℕ) (db : Db) (t : JobType)
    → is_taken t scheduled_for db ≡ true
    → HasJob scheduled_for db t
has_job scheduled_for db t h =
    let (j, first) = any_row-found (λ j. job_key j == job_key_of t scheduled_for) db.jobs h in
    let hit = find_first_sound (λ j. job_key j == job_key_of t scheduled_for) db.jobs j first in
    let (same_type, same_time) =
      job_key_of_injective j.job_type t j.scheduled_for scheduled_for
        ((==_iff (job_key j) (job_key_of t scheduled_for)).0 hit) in
    record { found = j; first = first; same_type = same_type; same_time = same_time }

-- However often jobs of some types are created for an interval, there is one of each type: where
-- keys are distinct they stay so, each of the types has a job of its own with that interval's time,
-- and creating them again, at any later time and with any limit, creates none and changes nothing.
pub create_jobs_once :
    (types : List JobType) (scheduled_for now max_attempts later max_attempts' : ℕ) (db db' : Db)
    (n : ℕ)
    → DistinctKeys db
    → create_jobs types scheduled_for now max_attempts db ≡ ok (n, db')
    → DistinctKeys db'
      × All (HasJob scheduled_for db') types
      × (create_jobs types scheduled_for later max_attempts' db' ≡ ok (0, db'))
create_jobs_once types scheduled_for now max_attempts later max_attempts' db db' n d ran =
    let (m, after, c) = create_jobs-Created scheduled_for now max_attempts types db in
    let (_, same) = ok-pair m n after db' c.returned ran in
    subst
      (λ x.
        DistinctKeys x
        × All (HasJob scheduled_for x) types
        × (create_jobs types scheduled_for later max_attempts' x ≡ ok (0, x)))
      same
      (
        c.distinct d,
        All-map types (λ t h. has_job scheduled_for after t h) c.all_there,
        create_jobs-none scheduled_for later max_attempts' types after c.all_there,
      )
