-- ===== src/Jobs/Worker/Locks.antt =====
-- A job belongs to one worker at a time, and a worker that has lost a job changes nothing of it.
use room_booking.Base.{
  ℕ, ◌≤◌, ◌≡◌, refl, sym, ◌∙◌, ap, true, false, some, List, arith, All, All-intro, All-where,
  All-take, All-of_map, All-update_rows, includes_id, if◌then◌else◌, if_elim,
}
use mathlib.Core.Path.{subst}
use room_booking.Base.Sort.{sort_by-All}
use room_booking.Errors.{ok, ok-pair}
use room_booking.Store.Rows.{Db, BackgroundJob}
use room_booking.Jobs.Worker.{is_abandoned, abandons, is_claimable, is_processing, claims, claim_tx}
use room_booking.Jobs.Worker.Queue.{claim_tx-ok, chosen, handed_out, swept}

-- a row that some worker has got at `now`, if it is one of these
abbrev IsTaken : List ℕ → ℕ → BackgroundJob → Type 0
IsTaken ids now j =
    includes_id ids j.id ≡ true → (is_processing j.status ≡ true) × (j.locked_at ≡ some now)

taken :
    (ids : List ℕ) (worker now : ℕ) (j : BackgroundJob)
    → IsTaken ids now (if includes_id ids j.id then claims worker now j else j)
taken ids worker now j =
    if_elim (IsTaken ids now) (includes_id ids j.id) (claims worker now j) j (λ y h. (refl, refl))
      (λ n h. absurd (ground arith))

not_claimable :
    (ids : List ℕ) (taken_at stale_before now : ℕ) (j : BackgroundJob)
    → stale_before ≤ taken_at
    → IsTaken ids taken_at j
    → is_claimable stale_before now j ≡ true
    → includes_id ids j.id ≡ false
not_claimable ids taken_at stale_before now j le h y = ground (arith, h)

-- a sweep leaves the jobs that are taken, or ends them
swept_safe :
    (ids : List ℕ) (taken_at stale_before now : ℕ) (j : BackgroundJob)
    → stale_before ≤ taken_at
    → IsTaken ids taken_at j
    → is_claimable stale_before now (if is_abandoned stale_before j then abandons now j else j)
      ≡ true
    → includes_id ids (if is_abandoned stale_before j then abandons now j else j).id ≡ false
swept_safe ids taken_at stale_before now j le h =
    if_elim (λ k. is_claimable stale_before now k ≡ true → includes_id ids k.id ≡ false)
      (is_abandoned stale_before j) (abandons now j) j (λ y c. absurd (ground arith))
      (λ n c. not_claimable ids taken_at stale_before now j le h c)

module _ (worker limit stale_before now : ℕ) (worker' limit' stale_before' now' : ℕ)
    (fresh : stale_before' ≤ now) (db db₁ : Db) where
  abbrev IsFree : BackgroundJob → Type 0
  IsFree j = includes_id (chosen worker limit stale_before now db.jobs) j.id ≡ false

  handed_out-IsTaken :
      All
        (IsTaken (chosen worker limit stale_before now db.jobs) now)
        (handed_out worker limit stale_before now db.jobs)
  handed_out-IsTaken =
      All-update_rows (IsTaken (chosen worker limit stale_before now db.jobs) now) _
        (claims worker now) (swept worker limit stale_before now db.jobs)
        (λ j _. taken (chosen worker limit stale_before now db.jobs) worker now j)
        (All-intro (λ _. Unit {0}) _ (λ _. tt))

  apart :
      db₁.jobs ≡ handed_out worker limit stale_before now db.jobs
      → All
          (λ id. includes_id (chosen worker limit stale_before now db.jobs) id ≡ false)
          (chosen worker' limit' stale_before' now' db₁.jobs)
  apart jobs =
      let ids = chosen worker limit stale_before now db.jobs in
      All-of_map (λ id. includes_id ids id ≡ false) (λ (j : BackgroundJob). j.id) _
        (All-take IsFree limit' _ (
          sort_by-All (λ j. j.available_at) IsFree _
            (sort_by-All (λ j. j.created_at) IsFree _
              (All-where IsFree (is_claimable stale_before' now') _ (
                All-update_rows (λ j. is_claimable stale_before' now' j ≡ true → IsFree j)
                  (is_abandoned stale_before') (abandons now') db₁.jobs
                  (λ j h. swept_safe ids now stale_before' now' j fresh h)
                  (subst (All (IsTaken ids now)) (sym jobs) handed_out-IsTaken))))))

-- Two claims, one after the other, of any two workers: a job that the first one has handed out is
-- not handed out again, as long as its lock is not older than the second one's limit.
pub claim_tx_exclusive :
    (worker limit stale_before now : ℕ) (worker' limit' stale_before' now' : ℕ) (db db₁ db₂ : Db)
    (ids ids' : List ℕ)
    → claim_tx worker limit stale_before now db ≡ ok (ids, db₁)
    → claim_tx worker' limit' stale_before' now' db₁ ≡ ok (ids', db₂)
    → stale_before' ≤ now
    → All (λ id. includes_id ids id ≡ false) ids'
claim_tx_exclusive worker limit stale_before now worker' limit' stale_before' now' db db₁ db₂ ids
      ids' first second fresh =
    let (after, ran, jobs) = claim_tx-ok worker limit stale_before now db in
    let (after', ran', jobs') = claim_tx-ok worker' limit' stale_before' now' db₁ in
    let (same, same_after) = ok-pair _ ids after db₁ ran first in
    let (same', _) = ok-pair _ ids' after' db₂ ran' second in
    subst (λ given. All (λ id. includes_id given id ≡ false) ids') same
      (subst (All (λ id. includes_id (chosen worker limit stale_before now db.jobs) id ≡ false))
        same'
        (apart worker limit stale_before now worker' limit' stale_before' now' fresh db db₁
          (ap (λ d. d.jobs) (sym same_after) ∙ jobs)))

-- a row that `worker` has got, if it is one of these
abbrev IsHeldBy : List ℕ → ℕ → BackgroundJob → Type 0
IsHeldBy ids worker j = includes_id ids j.id ≡ true → j.locked_by ≡ some worker
