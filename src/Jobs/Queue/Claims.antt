-- ===== src/Jobs/Queue/Claims.antt =====
-- `ClaimJobs` as a worker sees it.
use plaiflowapp.Base.{
  ℕ, ◌≤◌, ◌<◌, Bool, true, false, false≢true, ◌≡◌, sym, ap, subst, ◌∙◌, inl, inr, List, arith,
  String, str_eq, Bool-cases, In, All, length,
}
use plaiflowapp.Sql.{commit, guard_passed, bind_passed, commit_injective, expires_after}
use plaiflowapp.Sql.Rows.{All-of_In, In-update_where_miss, In-select_where}
use plaiflowapp.Jobs.{Job, is_running, Store, Kind}
use plaiflowapp.Jobs.Rows.{IsCoherent, UniqueIds, unique_row}
use plaiflowapp.Jobs.Queue.{
  ClaimCommand, Claimed, is_exhausted, exhaust, sweep, is_eligible, before, candidates, claim_jobs,
  claim_time, valid_claim,
}
use plaiflowapp.Sql.Order.{In-order_by, In-take, length-take_le}
use plaiflowapp.Jobs.Queue.Selection.{UniqueIds-order_by, UniqueIds-take, UniqueIds-select_where}
use plaiflowapp.Jobs.Queue.Claiming.{Claimable, HeldIn, Looped, sweep-IsCoherent, claim_loop-Looped}

eligible-Claimable :
    (kinds : List Kind) (locked : String → Bool) (now : ℕ) (r : Job)
    → is_eligible kinds locked now r ≡ true
    → Claimable r
unfolding is_eligible
eligible-Claimable kinds locked now r h = ground arith

-- A lease that has not run out shields its row from the sweep and from the selection.
live_not_exhausted :
    (now : ℕ) (r : Job) → expires_after r.lease_expires_at now ≡ true → is_exhausted now r ≡ false
unfolding is_exhausted
live_not_exhausted now r h = ground arith

live_not_eligible :
    (kinds : List Kind) (locked : String → Bool) (now : ℕ) (r : Job)
    → is_running r.status ≡ true
    → expires_after r.lease_expires_at now ≡ true
    → is_eligible kinds locked now r ≡ false
unfolding is_eligible
live_not_eligible kinds locked now r run h = ground arith

module _ (id_before : String → String → Bool) (locked : String → Bool) (command : ClaimCommand)
    (now : ℕ) (s : Store) where
  pub candidate-In :
      (c : Job)
      → In c (candidates id_before locked command now s)
      → In c s.jobs × (is_eligible command.kinds locked now c ≡ true)
  unfolding candidates
  candidate-In c i =
      In-select_where (is_eligible command.kinds locked now) s.jobs
        (In-order_by (before id_before) _ c (In-take command.limit _ c i))

  pub candidates-Claimable : All Claimable (candidates id_before locked command now s)
  candidates-Claimable =
      All-of_In _ (λ c i. eligible-Claimable command.kinds locked now c (candidate-In c i).1)

  pub candidates-UniqueIds :
      UniqueIds s.jobs → UniqueIds (candidates id_before locked command now s)
  unfolding candidates
  candidates-UniqueIds u = UniqueIds-take command.limit _ (
      UniqueIds-order_by (before id_before) _
        (UniqueIds-select_where (is_eligible command.kinds locked now) s.jobs u))

  candidates_bounded : length (candidates id_before locked command now s) ≤ command.limit
  unfolding candidates
  candidates_bounded = length-take_le command.limit _

  -- A row that is not eligible is no candidate, by its id.
  not_candidate :
      (q : Job)
      → UniqueIds s.jobs
      → In q s.jobs
      → is_eligible command.kinds locked now q ≡ false
      → All (λ (c : Job). str_eq q.id c.id ≡ false) (candidates id_before locked command now s)
  not_candidate q u i out = All-of_In _ λ c j. elim (Bool-cases (str_eq q.id c.id)) [
    | inr n ↦ n
    | inl e ↦
        let (k, able) = candidate-In c j in
        absurd (
          false≢true (
            sym out ∙ ap (is_eligible command.kinds locked now) (unique_row s.jobs u i k e) ∙ able))
  ]

pub valid_lease : (command : ClaimCommand) → valid_claim command ≡ true → 0 < command.lease
valid_lease command h = ground arith

module _ (lease_hash : String → String) (id_before : String → String → Bool)
    (locked : String → Bool) (clock : ℕ) (tokens : List (String × String)) (command : ClaimCommand)
    (s : Store) (table : IsCoherent s.jobs) where
  -- The rows that the claim selects.
  abbrev pub chosen : List Job
  chosen =
      candidates id_before locked command (claim_time clock command)
        (sweep (claim_time clock command) s)

  pub claim_jobs-Looped :
      {s' : Store} {claimed : List Claimed}
      → claim_jobs lease_hash id_before locked clock tokens command s ≡ commit (s', claimed)
      → Looped lease_hash
          (claim_time clock command)
          chosen
          (sweep (claim_time clock command) s).jobs
          s'.jobs
          claimed
  unfolding claim_jobs
  claim_jobs-Looped {s'} {claimed} h =
      let now = claim_time clock command in
      let (valid, h₁) = guard_passed _ _ _ h in
      let ((s₁, claimed₁), ran, out) = bind_passed _ _ h₁ in
      let swept = sweep-IsCoherent now s table in
      let l =
        claim_loop-Looped lease_hash command now (valid_lease command valid) chosen tokens
          (sweep now s) s₁ claimed₁ swept
          (candidates-UniqueIds id_before locked command now (sweep now s) swept.unique)
          (λ c i. (candidate-In id_before locked command now (sweep now s) c i).0)
          (candidates-Claimable id_before locked command now (sweep now s)) ran in
      subst
        (λ (y : Store × List Claimed). Looped lease_hash now chosen (sweep now s).jobs y.0.jobs y.1)
        (commit_injective out) l

  -- On a well-formed table of jobs, a claim that succeeds keeps it well formed, and gives out at
  -- most `limit` jobs, each of which the table holds under the attempt and the token that the
  -- worker was given.
  pub claim_jobs_held :
      {s' : Store} {claimed : List Claimed}
      → claim_jobs lease_hash id_before locked clock tokens command s ≡ commit (s', claimed)
      → IsCoherent s'.jobs
        × (length claimed ≤ command.limit)
        × All (HeldIn lease_hash (claim_time clock command) s'.jobs) claimed
  claim_jobs_held h =
      let l = claim_jobs-Looped h in
      (
        l.table,
        omega (
          arith,
          l.count,
          candidates_bounded id_before locked command (claim_time clock command)
              (sweep (claim_time clock command) s),
        ),
        l.held,
      )

  -- On a well-formed table, a claim that succeeds leaves a running job whose lease has not run out
  -- exactly as it is.
  pub claim_jobs_keeps_live :
      {s' : Store} {claimed : List Claimed} (q : Job)
      → claim_jobs lease_hash id_before locked clock tokens command s ≡ commit (s', claimed)
      → In q s.jobs
      → is_running q.status ≡ true
      → expires_after q.lease_expires_at (claim_time clock command) ≡ true
      → In q s'.jobs
  unfolding sweep
  claim_jobs_keeps_live q h i run live =
      let now = claim_time clock command in
      let j =
        In-update_where_miss (is_exhausted now) (exhaust now) s.jobs (live_not_exhausted now q live)
          i in
      let l = claim_jobs-Looped h in
      l.kept q j (
        not_candidate id_before locked command now (sweep now s) q
          (sweep-IsCoherent now s table).unique j
          (live_not_eligible command.kinds locked now q run live))
