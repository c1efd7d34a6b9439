-- ===== src/Jobs/Worker/Queue.antt =====
-- Any history of the workers' transactions takes each job along its life.
use room_booking.Base.{
  ℕ, ◌≡◌, refl, sym, ◌∙◌, ap, ◌==◌, ==_refl, Bool, true, false, List, [], ◌∷◌, take, arith, All,
  All-map, All-intro, AllPairs, AllPairs-refl, AllPairs-map, AllPairs-trans, AllPairs-update_rows,
  any_row-take, update_rows, where_rows, includes_id, Text, if◌then◌else◌,
}
use mathlib.Core.Path.{subst}
use room_booking.Base.Keys
use room_booking.Base.Sort.{sort_by, any_row-sort_by}
use room_booking.Errors.{Result, ok, err}
use room_booking.Json.{Fields}
use room_booking.Store.Rows.{Db, BackgroundJob, JobStatus, AuditEventType}
use room_booking.Store.Tx.{Tx, pure, >>=-ok}
use room_booking.Store.Tables.{update_jobs, record_audit}
use room_booking.Jobs.Worker.{
  is_abandoned, abandons, is_claimable, claims, is_held, completes, fails, candidates, claim_tx,
  complete_tx, fail_tx, audit_job, audit_abandoned,
}
use room_booking.Jobs.Worker.Lifecycle.{
  Reach, here, next, Reach-trans, Step, abandon, claim, complete, fail, Valid, Later, Reach-Later,
}

abbrev pub DistinctJobs : List BackgroundJob → Type 0
DistinctJobs = Keys.Distinct (λ (j : BackgroundJob). j.id)

abbrev pub Evolves : List BackgroundJob → List BackgroundJob → Type 0
Evolves = AllPairs Reach

-- a transaction that returns, and takes the jobs from `jobs` on
record Advances {A : Type 0} (r : Result (A × Db)) (jobs : List BackgroundJob) : Type 0 where
  value : A
  after : Db
  returned : r ≡ ok (value, after)
  evolves : Evolves jobs after.jobs
  distinct : DistinctJobs after.jobs

update-Evolves :
    (p : BackgroundJob → Bool) (f : BackgroundJob → BackgroundJob) (jobs : List BackgroundJob)
    → All (λ j. p j ≡ true → Step j (f j)) jobs
    → Evolves jobs (update_rows p f jobs)
update-Evolves p f jobs a =
    AllPairs-update_rows Reach p f jobs (λ j. here) (All-map jobs (λ j h y. next here (h y)) a)

audit_abandoned-ok :
    (now : ℕ) (abandoned : List BackgroundJob) (db : Db)
    → (db' : Db) × (audit_abandoned now abandoned db ≡ ok (tt, db')) × (db'.jobs ≡ db.jobs)
unfolding audit_abandoned audit_job record_audit
audit_abandoned-ok now [] db = (db, refl, refl)
audit_abandoned-ok now (j ∷ rest) db = audit_abandoned-ok now rest _

-- the candidates of a claim satisfy its condition
pub candidate_claimable :
    (limit stale_before now : ℕ) (jobs : List BackgroundJob)
    → DistinctJobs jobs
    → All
        (λ j.
          includes_id (candidates limit stale_before now jobs) j.id ≡ true
          → is_claimable stale_before now j ≡ true)
        jobs
candidate_claimable limit stale_before now jobs d =
    All-map jobs
      (λ j h y.
        sym h
        ∙ sym (any_row-sort_by (λ k. k.created_at) (λ k. j.id == k.id) found)
        ∙ sym (
            any_row-sort_by (λ k. k.available_at) (λ k. j.id == k.id)
              (sort_by (λ k. k.created_at) found))
        ∙ any_row-take (λ k. j.id == k.id) limit
            (sort_by (λ k. k.available_at) (sort_by (λ k. k.created_at) found))
            (sym (
                Keys.includes_id-keys (λ (k : BackgroundJob). k.id)
                  (take limit (sort_by (λ k. k.available_at) (sort_by (λ k. k.created_at) found)))
                  j)
              ∙ y))
      (Keys.is_listed-where_rows (λ (k : BackgroundJob). k.id) (is_claimable stale_before now) jobs
        d)
  where
    found : List BackgroundJob
    found = where_rows (is_claimable stale_before now) jobs

module _ (worker limit stale_before now : ℕ) where
  -- the jobs after the first update of a claim
  abbrev pub swept : List BackgroundJob → List BackgroundJob
  swept jobs = update_rows (is_abandoned stale_before) (abandons now) jobs

  abbrev pub chosen : List BackgroundJob → List ℕ
  chosen jobs = candidates limit stale_before now (swept jobs)

  abbrev pub handed_out : List BackgroundJob → List BackgroundJob
  handed_out jobs =
      update_rows (λ j. includes_id (chosen jobs) j.id) (claims worker now) (swept jobs)

  pub claim_tx-ok :
      (db : Db)
      → (db' : Db) × (claim_tx worker limit stale_before now db ≡ ok (chosen db.jobs, db'))
        × (db'.jobs ≡ handed_out db.jobs)
  unfolding claim_tx update_jobs
  claim_tx-ok db =
      let gone = where_rows (is_abandoned stale_before) db.jobs in
      let (db₂, ran, same) = audit_abandoned-ok now gone (record db { jobs = swept db.jobs }) in
      let ids = candidates limit stale_before now db₂.jobs in
      let hand_out : List BackgroundJob → List BackgroundJob = λ jobs.
        update_rows (λ j. includes_id (candidates limit stale_before now jobs) j.id)
          (claims worker now) jobs in
      let db₃ = record db₂ { jobs = hand_out db₂.jobs } in
      (
        db₃,
        >>=-ok (audit_abandoned now gone) _ ran
            ∙ ap (λ jobs. ok (candidates limit stale_before now jobs, db₃)) same,
        ap hand_out same,
      )

  claim_tx-Advances :
      (db : Db)
      → DistinctJobs db.jobs
      → Advances (claim_tx worker limit stale_before now db) db.jobs
  claim_tx-Advances db d =
      let (db', ran, jobs) = claim_tx-ok db in
      let d₁ : DistinctJobs (swept db.jobs) =
        Keys.update_rows-Distinct (λ (j : BackgroundJob). j.id) (is_abandoned stale_before)
          (abandons now) db.jobs (λ j. refl) d in
      let picks : BackgroundJob → Bool = λ j. includes_id (chosen db.jobs) j.id in
      record {
        value = chosen db.jobs;
        after = db';
        returned = ran;
        evolves = subst (Evolves db.jobs) (sym jobs) (
            AllPairs-trans Reach db.jobs (swept db.jobs) _ (λ j k l. Reach-trans)
              (update-Evolves (is_abandoned stale_before) (abandons now) db.jobs
                (All-intro _ db.jobs (λ j y. abandon stale_before now y refl)))
              (update-Evolves picks (claims worker now) (swept db.jobs) (
                All-map (swept db.jobs) (λ j h y. claim worker stale_before now (h y) refl)
                  (candidate_claimable limit stale_before now (swept db.jobs) d₁))));
        distinct = subst DistinctJobs (sym jobs) (
            Keys.update_rows-Distinct (λ (j : BackgroundJob). j.id) picks (claims worker now)
              (swept db.jobs) (λ j. refl) d₁);
      }

held_own :
    (worker id : ℕ) (j : BackgroundJob) → is_held worker id j ≡ true → is_held worker j.id j ≡ true
held_own worker id j y = ground (arith, ==_refl j.id)

audit_job-ok :
    (now id : ℕ) (event_type : AuditEventType) (status : JobStatus) (fields : Fields) (db : Db)
    → (db' : Db) × (audit_job now id event_type status fields db ≡ ok (tt, db'))
      × (db'.jobs ≡ db.jobs)
unfolding audit_job record_audit
audit_job-ok now id event_type status fields db = (_, refl, refl)

-- an update of the jobs, and then the audit row if it has found its job
update_audited :
    (p : BackgroundJob → Bool) (f : BackgroundJob → BackgroundJob) (b : Bool)
    (audit : Tx (Unit {0})) (db : Db)
    → All (λ j. p j ≡ true → Step j (f j)) db.jobs
    → ((j : BackgroundJob) → (f j).id ≡ j.id)
    → DistinctJobs db.jobs
    → ((at : Db) → (db' : Db) × (audit at ≡ ok (tt, db')) × (db'.jobs ≡ at.jobs))
    → Advances
        ((if b then pure tt else audit) (record db { jobs = update_rows p f db.jobs }))
        db.jobs
update_audited p f true audit db steps same d ran = record {
  value = tt;
  after = record db { jobs = update_rows p f db.jobs };
  returned = refl;
  evolves = update-Evolves p f db.jobs steps;
  distinct = Keys.update_rows-Distinct (λ (j : BackgroundJob). j.id) p f db.jobs same d;
}
update_audited p f false audit db steps same d ran =
    let (db', returned, kept) = ran (record db { jobs = update_rows p f db.jobs }) in
    record {
      value = tt;
      after = db';
      returned = returned;
      evolves = subst (Evolves db.jobs) (sym kept) (update-Evolves p f db.jobs steps);
      distinct =
          subst DistinctJobs (sym kept)
            (Keys.update_rows-Distinct (λ (j : BackgroundJob). j.id) p f db.jobs same d);
    }

module _ (worker : ℕ) (job : BackgroundJob) (now : ℕ) where
  complete_tx-Advances :
      (result : Fields) (db : Db)
      → DistinctJobs db.jobs
      → Advances (complete_tx worker job result now db) db.jobs
  unfolding complete_tx update_jobs
  complete_tx-Advances result db d =
      update_audited (is_held worker job.id) (completes result now db.clock) _ _ db
        (All-intro _ db.jobs
          (λ j y. complete worker now db.clock result (held_own worker job.id j y) refl))
        (λ j. refl) d (λ at. audit_job-ok _ _ _ _ _ at)

  fail_tx-Advances :
      (message : Text) (db : Db)
      → DistinctJobs db.jobs
      → Advances (fail_tx worker job message now db) db.jobs
  unfolding fail_tx update_jobs
  fail_tx-Advances message db d =
      update_audited (is_held worker job.id) (fails job message now db.clock) _ _ db
        (All-intro _ db.jobs
          (λ j y. fail worker now db.clock job message (held_own worker job.id j y) refl))
        (λ j. refl) d (λ at. audit_job-ok _ _ _ _ _ at)

-- a transaction of some worker
pub data Work : Type 0 where
  claiming : ℕ → ℕ → ℕ → ℕ → Work
  completing : ℕ → BackgroundJob → Fields → ℕ → Work
  failing : ℕ → BackgroundJob → Text → ℕ → Work

abbrev committed : {A : Type 0} → Db → Result (A × Db) → Db
committed db (ok (a, after)) = after
committed db (err e) = db

unfoldable pub perform : Work → Db → Db
perform (claiming worker limit stale_before now) db =
    committed db (claim_tx worker limit stale_before now db)
perform (completing worker job result now) db = committed db (complete_tx worker job result now db)
perform (failing worker job message now) db = committed db (fail_tx worker job message now db)

-- a history of transactions, the first one first
unfoldable pub perform_all : List Work → Db → Db
unfolding perform
perform_all [] db = db
perform_all (w ∷ ws) db = perform_all ws (perform w db)

committed-Evolves :
    {A : Type 0} (r : Result (A × Db)) (db : Db)
    → Advances r db.jobs
    → Evolves db.jobs (committed db r).jobs × DistinctJobs (committed db r).jobs
committed-Evolves r db a = rw a.returned (a.evolves, a.distinct)

perform-Evolves :
    (w : Work) (db : Db)
    → DistinctJobs db.jobs
    → Evolves db.jobs (perform w db).jobs × DistinctJobs (perform w db).jobs
unfolding perform
perform-Evolves (claiming worker limit stale_before now) db d =
    committed-Evolves _ db (claim_tx-Advances worker limit stale_before now db d)
perform-Evolves (completing worker job result now) db d =
    committed-Evolves _ db (complete_tx-Advances worker job now result db d)
perform-Evolves (failing worker job message now) db d =
    committed-Evolves _ db (fail_tx-Advances worker job now message db d)

-- The transactions of the workers refine the steps of a job's life.
perform_all-Evolves :
    (ws : List Work) (db : Db) → DistinctJobs db.jobs → Evolves db.jobs (perform_all ws db).jobs
unfolding perform_all
perform_all-Evolves [] db d = AllPairs-refl Reach db.jobs (λ j. here)
perform_all-Evolves (w ∷ ws) db d =
    let (one, distinct) = perform-Evolves w db d in
    AllPairs-trans Reach db.jobs (perform w db).jobs _ (λ j k l. Reach-trans) one
      (perform_all-Evolves ws (perform w db) distinct)

-- Whatever transactions of however many workers are performed, in any order: each job of a valid
-- queue follows the steps of its life. It keeps its id, type, schedule and limit, is executed no
-- more often than the limit allows, stays valid, and is left alone once it is completed or failed.
pub perform_all-Later :
    (ws : List Work) (db : Db)
    → DistinctJobs db.jobs
    → All Valid db.jobs
    → AllPairs Later db.jobs (perform_all ws db).jobs
perform_all-Later ws db d v =
    AllPairs-map db.jobs (perform_all ws db).jobs Reach-Later v (perform_all-Evolves ws db d)
