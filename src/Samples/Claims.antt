-- ===== src/Samples/Claims.antt =====
-- Claims from the sample queue (api/internal/postgres/jobs.go).
use plaiflowapp.Base.{
  ◌≤◌, Bool, true, false, ◌≡◌, refl, inl, inr, List, [], ◌∷◌, ◌⊎◌, arith, String, In, All, length,
  map,
}
use plaiflowapp.Sql.{order_by, commit, rollback, Tx, update_where, select_where, rows_affected}
use plaiflowapp.Jobs.{Job, Error, export, Store}
use plaiflowapp.Jobs.Rows.{IsCoherent}
use plaiflowapp.Jobs.Queue.{
  ClaimCommand, Claimed, claim_jobs, is_eligible, is_exhausted, sweep, exhaust, candidates,
  claim_loop, lease_row, upsert_heartbeat,
}
use plaiflowapp.Jobs.Queue.Claiming.{HeldIn}
use plaiflowapp.Jobs.Queue.Claims.{claim_jobs_held, claim_jobs_keeps_live, chosen}
use plaiflowapp.Jobs.Queue.Progress.{waiting_job_served, claim_jobs_total}
use plaiflowapp.Samples.Queue.{waits, runs, tables, plain, waits-IsConsistent, tables-IsCoherent}

abbrev claim : ClaimCommand
claim = record {
  worker_id = "new";
  environment = "test";
  kinds = export ∷ [];
  limit = 5;
  lease = 40;
  now = 60;
}

abbrev no_order : String → String → Bool
no_order a b = false

abbrev unlocked : String → Bool
unlocked id = false

abbrev token : List (String × String)
token = ("b", "u") ∷ []

abbrev given : Tx Error (Store × List Claimed) → Store × List Claimed
given (commit x) = x
given (rollback e) = (tables, [])

unfoldable claimed : Store × List Claimed
unfolding claim_jobs sweep update_where select_where is_exhausted exhaust candidates order_by
    is_eligible claim_loop rows_affected lease_row upsert_heartbeat
claimed = given (claim_jobs plain no_order unlocked 0 token claim tables)

claim_succeeds :
    claim_jobs plain no_order unlocked 0 token claim tables ≡ commit (claimed.0, claimed.1)
unfolding claimed
claim_succeeds = refl

takes_the_waiting_job : map (λ (x : Claimed). x.job.id) claimed.1 ≡ "w" ∷ []
unfolding claimed
takes_the_waiting_job = refl

claim_jobs_held_example :
    IsCoherent claimed.0.jobs
    × (length claimed.1 ≤ 5)
    × All (HeldIn plain 60 claimed.0.jobs) claimed.1
claim_jobs_held_example =
    claim_jobs_held plain no_order unlocked 0 token claim tables tables-IsCoherent claim_succeeds

claim_jobs_keeps_live_example : In runs claimed.0.jobs
claim_jobs_keeps_live_example =
    claim_jobs_keeps_live plain no_order unlocked 0 token claim tables tables-IsCoherent runs
      claim_succeeds (inr (inl refl)) refl refl

waiting_job_served_example :
    (is_exhausted 60 waits ≡ true) ⊎ (is_eligible (export ∷ []) unlocked 60 waits ≡ true)
waiting_job_served_example =
    waiting_job_served (export ∷ []) unlocked 60 waits waits-IsConsistent (inl refl) refl refl
      (omega arith) refl

one_chosen :
    length (chosen plain no_order unlocked 0 token claim tables tables-IsCoherent) ≤ length token
unfolding sweep update_where select_where is_exhausted exhaust candidates order_by is_eligible
one_chosen = omega arith

claim_jobs_total_example :
    (s' : Store) × (x : List Claimed) × (claim_jobs plain no_order unlocked 0 token claim tables
      ≡ commit (s', x))
    × (map (λ (y : Claimed). y.job.id) x
        ≡ map
            (λ (c : Job). c.id)
            (chosen plain no_order unlocked 0 token claim tables tables-IsCoherent))
claim_jobs_total_example =
    claim_jobs_total plain no_order unlocked 0 token claim tables tables-IsCoherent refl one_chosen
