-- ===== src/Jobs/Queue/Progress.antt =====
-- No job is left behind: a claim succeeds, and a job that waits is claimable or at its end.
use plaiflowapp.Base.{
  ℕ, ◌≤◌, ◌<◌, Bool, true, false, ◌≡◌, refl, ◌⊎◌, inl, inr, List, [], ◌∷◌, arith, String, eq_iff,
  In, All, length, any, map,
}
use plaiflowapp.Sql.{commit, is_committed, is_committed-bind, is_committed-eq, expires_after}
use plaiflowapp.Jobs.{Job, is_queued, is_running, Store, Kind, kind_eq}
use plaiflowapp.Jobs.Rows.{IsConsistent, IsCoherent, UniqueIds, rows_affected-one}
use plaiflowapp.Jobs.Queue.{
  ClaimCommand, Claimed, is_exhausted, sweep, is_eligible, the_row, claim_loop, claim_jobs,
  claim_time, valid_claim,
}
use plaiflowapp.Jobs.Queue.Claiming.{Claimable, leased, round-Changes, rest_In, sweep-IsCoherent}
use plaiflowapp.Jobs.Queue.Claims.{
  chosen, claim_jobs-Looped, candidate-In, candidates-Claimable, candidates-UniqueIds, valid_lease,
}

-- A queued or running job that is due, not locked and of an asked kind, and whose lease, if it has
-- one, has run out, is either taken up by the sweep or open to the claim.
pub waiting_job_served :
    (kinds : List Kind) (locked : String → Bool) (now : ℕ) (r : Job)
    → IsConsistent r
    → (is_queued r.status ≡ true) ⊎ (is_running r.status ≡ true)
    → any (λ k. kind_eq r.kind k) kinds ≡ true
    → locked r.id ≡ false
    → r.available_at ≤ now
    → expires_after r.lease_expires_at now ≡ false
    → (is_exhausted now r ≡ true) ⊎ (is_eligible kinds locked now r ≡ true)
unfolding is_exhausted is_eligible
waiting_job_served kinds locked now r row live kind free due out = ground arith

module _ (lease_hash : String → String) (command : ClaimCommand) (now : ℕ)
    (positive : 0 < command.lease) where
  claim_loop_ok :
      (cs : List Job) (tokens : List (String × String)) (s : Store)
      → IsCoherent s.jobs
      → UniqueIds cs
      → ((c : Job) → In c cs → In c s.jobs)
      → All Claimable cs
      → length cs ≤ length tokens
      → is_committed (claim_loop lease_hash command now cs tokens s) ≡ true
  unfolding claim_loop is_committed
  claim_loop_ok [] tokens s t u inside able enough = refl
  claim_loop_ok (c ∷ cs) [] s t u inside able enough = absurd (omega arith)
  claim_loop_ok (c ∷ cs) ((attempt, token) ∷ tokens) s t (fresh, u) inside (a, able) enough =
      let i = inside c (inl refl) in
      let one =
        rows_affected-one c.id (the_row c) (λ x h. ground arith) s.jobs t.unique i (itself c) in
      let ch = round-Changes lease_hash command now positive c attempt token s.jobs t i a in
      let rest =
        rest_In lease_hash command now positive c cs s.jobs _
          (leased lease_hash command now positive c attempt token) ch fresh
          (λ x j. inside x (inr j)) in
      rw one (
        is_committed-bind _ _ (claim_loop_ok cs tokens _ ch.still u rest able (omega arith))
          (λ y. refl))
    where
      itself : (x : Job) → the_row x x ≡ true
      itself x =
          ground
            (arith, (eq_iff x.id x.id).1 refl, (eq_iff x.organization_id x.organization_id).1 refl)

-- On a well-formed table of jobs a valid claim succeeds, while the source of randomness gives a token
-- for each job that is selected, and gives out exactly the selected jobs, in their order.
pub claim_jobs_total :
    (lease_hash : String → String) (id_before : String → String → Bool) (locked : String → Bool)
    (clock : ℕ) (tokens : List (String × String)) (command : ClaimCommand) (s : Store)
    (table : IsCoherent s.jobs)
    → valid_claim command ≡ true
    → length (chosen lease_hash id_before locked clock tokens command s table) ≤ length tokens
    → (s' : Store) × (claimed : List Claimed) × (claim_jobs lease_hash id_before locked clock tokens
          command s
        ≡ commit (s', claimed))
      × (map (λ (x : Claimed). x.job.id) claimed
          ≡ map
              (λ (c : Job). c.id)
              (chosen lease_hash id_before locked clock tokens command s table))
claim_jobs_total lease_hash id_before locked clock tokens command s table valid enough =
    let ((s', claimed), done) = is_committed-eq _ succeeds in
    (
      s',
      claimed,
      done,
      (claim_jobs-Looped lease_hash id_before locked clock tokens command s table done).ids,
    )
  where
    now : ℕ
    now = claim_time clock command

    swept : IsCoherent (sweep now s).jobs
    swept = sweep-IsCoherent now s table

    succeeds : is_committed (claim_jobs lease_hash id_before locked clock tokens command s) ≡ true
    succeeds =
        unfold claim_jobs in
        rw valid (
          is_committed-bind _ _
            (claim_loop_ok lease_hash command now (valid_lease command valid)
              (chosen lease_hash id_before locked clock tokens command s table) tokens (sweep now s)
              swept (candidates-UniqueIds id_before locked command now (sweep now s) swept.unique)
              (λ c i. (candidate-In id_before locked command now (sweep now s) c i).0)
              (candidates-Claimable id_before locked command now (sweep now s)) enough)
            (λ y. unfold is_committed in refl))
