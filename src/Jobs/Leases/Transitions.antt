-- ===== src/Jobs/Leases/Transitions.antt =====
-- What the worker's three commands do to the table.
use plaiflowapp.Base.{
  ℕ, ◌+◌, Bool, true, false, ◌≡◌, refl, inl, inr, List, [], ◌∷◌, Option, none, some, arith, String,
  str_eq, if◌then◌else◌, In, is_some,
}
use plaiflowapp.Sql.{commit, rollback, rows_affected, query_row}
use plaiflowapp.Sql.Rows.{All-In}
use plaiflowapp.Jobs.{Job, queued, failed, is_running, Store, lease_lost, LeaseCommand, holds_lease}
use plaiflowapp.Jobs.Rows.{IsConsistent, IsCoherent, rows_affected-one, query_row-found}
use plaiflowapp.Jobs.Changes.{Changes, update_at-Changes, same_at}
use plaiflowapp.Jobs.Leases.{
  heartbeat_job, extended, next_available, after_failure, FailureCommand, fail_row, fail_job,
  retries,
}
use plaiflowapp.Jobs.Exports.{CompleteExportCommand, complete_row}

heartbeat_row-IsConsistent :
    (lease_hash : String → String) (c : LeaseCommand) (lease : ℕ) (r : Job)
    → holds_lease lease_hash c r ≡ true
    → IsConsistent r
    → IsConsistent (record r { lease_expires_at = some (c.now + lease) })
heartbeat_row-IsConsistent lease_hash c lease r holds h = ground arith

fail_row-IsConsistent :
    (c : FailureCommand) (r : Job) (available : ℕ)
    → is_running r.status ≡ true
    → IsConsistent r
    → IsConsistent (fail_row c (retries c r) available r)
unfolding fail_row
fail_row-IsConsistent c r available live h = ground arith

pub complete_row-IsConsistent :
    (c : CompleteExportCommand) (r : Job)
    → is_running r.status ≡ true
    → IsConsistent r
    → IsConsistent (complete_row c r)
unfolding complete_row
complete_row-IsConsistent c r live h = ground arith

-- The lease command names the row by its id.
pub lease_at_id :
    (lease_hash : String → String) (c : LeaseCommand) (x : Job)
    → holds_lease lease_hash c x ≡ true
    → str_eq x.id c.job_id ≡ true
lease_at_id lease_hash c x h = ground arith

pub lease_running :
    (lease_hash : String → String) (c : LeaseCommand) (x : Job)
    → holds_lease lease_hash c x ≡ true
    → is_running x.status ≡ true
lease_running lease_hash c x h = ground arith

pub none_affected :
    (p : Job → Bool) (rows : List Job)
    → ((r : Job) → In r rows → p r ≡ false)
    → rows_affected p rows ≡ 0
unfolding rows_affected
none_affected p [] h = refl
none_affected p (x ∷ rows) h =
    rw (h x (inl refl)) (omega (arith, none_affected p rows (λ r i. h r (inr i))))

pub none_found :
    (p : Job → Bool) (rows : List Job)
    → ((r : Job) → In r rows → p r ≡ false)
    → query_row p rows ≡ none
unfolding query_row
none_found p [] h = refl
none_found p (x ∷ rows) h = rw (h x (inl refl)) (none_found p rows (λ r i. h r (inr i)))

module _ (lease_hash : String → String) (s : Store) (table : IsCoherent s.jobs) where
  -- While its lease is current a worker's heartbeat succeeds: it moves the end of this lease, and
  -- changes no other row.
  pub heartbeat_job-Changes :
      (c : LeaseCommand) (lease : ℕ) (r : Job)
      → In r s.jobs
      → holds_lease lease_hash c r ≡ true
      → (s' : Store) × (heartbeat_job lease_hash c lease s ≡ commit (s', c.now + lease))
        × Changes s.jobs r (record r { lease_expires_at = some (c.now + lease) }) s'.jobs
        × (s'.artifacts ≡ s.artifacts)
  unfolding heartbeat_job
  heartbeat_job-Changes c lease r i holds =
      let one =
        rows_affected-one c.job_id (holds_lease lease_hash c) (lease_at_id lease_hash c) s.jobs
          table.unique i holds in
      let row =
        heartbeat_row-IsConsistent lease_hash c lease r holds
          (All-In IsConsistent s.jobs table.valid i) in
      (
        extended lease_hash c lease s,
        rw one,
        update_at-Changes table i (holds_lease lease_hash c)
            (λ x. record x { lease_expires_at = some (c.now + lease) })
            (λ x h.
              same_at c.job_id x r (lease_at_id lease_hash c x h)
                (lease_at_id lease_hash c r holds))
            holds (λ x. refl) row,
        refl,
      )

  -- The failure that a worker reports while it holds the lease.
  pub fail_job-Changes :
      (random : Option (ℕ × ℕ)) (c : FailureCommand) (r : Job)
      → In r s.jobs
      → holds_lease lease_hash c.command r ≡ true
      → (s' : Store) × (r' : Job) × (fail_job lease_hash random c s ≡ commit s')
        × Changes s.jobs r r' s'.jobs
        × (r'.status ≡ (if retries c r then queued else failed))
        × (r'.attempt_count ≡ r.attempt_count)
        × (r'.available_at ≡ next_available random c r)
        × (r'.failed_at ≡ (if retries c r then none else some c.command.now))
        × (is_some r'.lease_token_hash ≡ false)
  unfolding fail_job fail_row
  fail_job-Changes random c r i holds =
      let k = c.command.job_id in
      let found =
        query_row-found k (holds_lease lease_hash c.command) (lease_at_id lease_hash c.command)
          s.jobs table.unique i holds in
      let here = lease_at_id lease_hash c.command r holds in
      let row =
        fail_row-IsConsistent c r (next_available random c r)
          (lease_running lease_hash c.command r holds) (All-In IsConsistent s.jobs table.valid i) in
      (
        after_failure random c r s,
        fail_row c (retries c r) (next_available random c r) r,
        rw (found, fail_job),
        update_at-Changes table i (λ x. str_eq x.id k)
            (fail_row c (retries c r) (next_available random c r)) (λ x h. same_at k x r h here)
            here (λ x. refl) row,
        refl,
        refl,
        refl,
        refl,
        refl,
      )

  pub stale_lease_refused :
      (random : Option (ℕ × ℕ)) (c : FailureCommand) (lease : ℕ)
      → ((r : Job) → In r s.jobs → holds_lease lease_hash c.command r ≡ false)
      → (heartbeat_job lease_hash c.command lease s ≡ rollback lease_lost)
        × (fail_job lease_hash random c s ≡ rollback lease_lost)
  unfolding heartbeat_job fail_job
  stale_lease_refused random c lease stale = (
    rw (none_affected (holds_lease lease_hash c.command) s.jobs stale),
    rw (none_found (holds_lease lease_hash c.command) s.jobs stale, fail_job),
  )
