-- ===== src/Jobs/Queue.antt =====
-- `ClaimJobs` of api/internal/postgres/jobs.go.
pub mod Selection
pub mod Claiming
pub mod Claims
pub mod Progress
use plaiflowapp.Base.{
  ℕ, zero, suc, ◌+◌, Bool, true, false, not, ◌&&◌, ◌||◌, List, [], ◌∷◌, ◌++◌, Option, none, some,
  String, str_eq, ltb, leb, ◌==◌, if◌then◌else◌, any, map, take,
}
use plaiflowapp.Sql.{
  order_by, insert_by, Tx, commit, rollback, ◌>>=◌, ◌>>◌, guard, update_where, rows_affected,
  select_where, eq_column, expired_at,
}
use plaiflowapp.Jobs.{
  Kind, kind_eq, Status, queued, running, failed, is_queued, is_running, Job, LegacyExport,
  AuditEvent, Heartbeat, Store, Error, invalid_claim, random_failed, claim_update_failed,
  clear_lease,
}

pub record ClaimCommand : Type 0 where
  pub worker_id : String
  pub environment : String
  pub kinds : List Kind
  pub limit : ℕ
  pub lease : ℕ
  pub now : ℕ

pub record Claimed : Type 0 where
  pub job : Job
  pub attempt_id : String
  pub lease_token : String
  pub lease_expires_at : ℕ

-- The lease ran out and no attempt is left.
unfoldable pub is_exhausted : ℕ → Job → Bool
is_exhausted now r =
    is_running r.status && expired_at r.lease_expires_at now && leb r.max_attempts r.attempt_count

unfoldable pub exhaust : ℕ → Job → Job
exhaust now r =
    clear_lease
      (record r { status = failed; failed_at = some now; failure_code = "attempts_exhausted" })

abbrev pub failed_event : ℕ → Job → AuditEvent
failed_event now r = record {
  organization_id = r.organization_id;
  event_type = "job.failed";
  target_id = r.id;
  outcome = "failed";
  reason_code = "attempts_exhausted";
  occurred_at = now;
}

-- The first command of the transaction.
unfoldable pub sweep : ℕ → Store → Store
unfolding update_where select_where is_exhausted exhaust
sweep now s =
    let gone = select_where (is_exhausted now) s.jobs in
    record s {
      jobs = update_where (is_exhausted now) (exhaust now) s.jobs;
      exports =
          update_where
            (λ (e : LegacyExport). any (λ (x : Job). eq_column x.legacy_export_job_id e.id) gone)
            (λ e. record e {
              status = failed;
              failed_at = some now;
              failure_code = "attempts_exhausted";
            })
            s.exports;
      audit = s.audit ++ map (failed_event now) gone;
    }

-- The WHERE clause of the selection; `locked` are the rows that another transaction holds.
unfoldable pub is_eligible : List Kind → (String → Bool) → ℕ → Job → Bool
is_eligible kinds locked now r =
    any (λ k. kind_eq r.kind k) kinds
    && ltb r.attempt_count r.max_attempts
    && ((is_queued r.status && leb r.available_at now)
        || (is_running r.status && expired_at r.lease_expires_at now))
    && not (locked r.id)

-- ORDER BY available_at, created_at, id; `id_before` is the order of the ids.
abbrev pub before : (String → String → Bool) → Job → Job → Bool
before id_before a b =
    if a.available_at == b.available_at
    then (if a.created_at == b.created_at
        then id_before a.id b.id
        else ltb a.created_at b.created_at)
    else ltb a.available_at b.available_at

abbrev pub the_row : Job → Job → Bool
the_row candidate r = str_eq r.id candidate.id && str_eq r.organization_id candidate.organization_id

-- The UPDATE for one candidate.
unfoldable pub lease_row : ClaimCommand → ℕ → String → String → Bool → Job → Job
lease_row command now attempt_id hash was_stale r = record r {
  status = running;
  attempt_count = r.attempt_count + 1;
  current_attempt_id = some attempt_id;
  lease_token_hash = some hash;
  lease_expires_at = some (now + command.lease);
  worker_id = some command.worker_id;
  started_at = elim r.started_at [ none ↦ some now | some t ↦ some t ];
  stale_reclaim_count = r.stale_reclaim_count + (if was_stale then 1 else 0);
}

abbrev pub claim_event : Bool → ℕ → Job → AuditEvent
claim_event was_stale now r = record {
  organization_id = r.organization_id;
  event_type = if was_stale then "job.reclaimed" else "job.claimed";
  target_id = r.id;
  outcome = "succeeded";
  reason_code = "";
  occurred_at = now;
}

-- One round of the loop over the candidates. `tokens` are the random attempt ids and lease tokens
-- in the order of their drawing; the source of randomness fails when they run out.
unfoldable pub claim_loop :
    (String → String)
    → ClaimCommand
    → ℕ
    → List Job
    → List (String × String)
    → Store
    → Tx Error (Store × List Claimed)
claim_loop lease_hash command now [] tokens s = commit (s, [])
claim_loop lease_hash command now (c ∷ candidates) [] s = rollback random_failed
claim_loop lease_hash command now (c ∷ candidates) ((attempt_id, lease_token) ∷ tokens) s = do
  guard (rows_affected (the_row c) s.jobs == 1) claim_update_failed
  let was_stale = is_running c.status
  (s', claimed) ← claim_loop lease_hash command now candidates tokens (record s {
    jobs =
        update_where (the_row c)
          (lease_row command now attempt_id (lease_hash lease_token) was_stale) s.jobs;
    audit = s.audit ++ claim_event was_stale now c ∷ [];
  })
  commit (
    s',
    record {
      job = record c {
        status = running;
        attempt_count = c.attempt_count + 1;
        current_attempt_id = some attempt_id;
      };
      attempt_id = attempt_id;
      lease_token = lease_token;
      lease_expires_at = now + command.lease;
    }
        ∷ claimed,
  )

-- INSERT … ON CONFLICT (worker_id) DO UPDATE
unfoldable pub upsert_heartbeat : Heartbeat → List Heartbeat → List Heartbeat
upsert_heartbeat h [] = h ∷ []
upsert_heartbeat h (g ∷ rows) =
    if str_eq g.worker_id h.worker_id then h ∷ rows else g ∷ upsert_heartbeat h rows

abbrev pub is_empty {ℓ} : {A : Type ℓ} → List A → Bool
is_empty [] = true
is_empty (x ∷ xs) = false

abbrev pub valid_claim : ClaimCommand → Bool
valid_claim command = not (
    str_eq command.worker_id ""
    || ltb command.limit 1
    || ltb 10 command.limit
    || command.lease == 0
    || is_empty command.kinds)

-- The rows that the selection returns.
unfoldable pub candidates :
    (String → String → Bool) → (String → Bool) → ClaimCommand → ℕ → Store → List Job
unfolding select_where order_by is_eligible
candidates id_before locked command now s =
    take command.limit
      (order_by (before id_before) (select_where (is_eligible command.kinds locked now) s.jobs))

abbrev pub claim_time : ℕ → ClaimCommand → ℕ
claim_time clock command = if command.now == 0 then clock else command.now

-- `clock` is `time.Now`.
unfoldable pub claim_jobs :
    (String → String)
    → (String → String → Bool)
    → (String → Bool)
    → ℕ
    → List (String × String)
    → ClaimCommand
    → Store
    → Tx Error (Store × List Claimed)
claim_jobs lease_hash id_before locked clock tokens command s = do
  guard (valid_claim command) invalid_claim
  let now = claim_time clock command
  let swept = sweep now s
  (s', claimed) ←
      claim_loop lease_hash command now (candidates id_before locked command now swept) tokens swept
  commit (
    record s' {
      heartbeats =
          upsert_heartbeat
            (record {
              worker_id = command.worker_id;
              heartbeat_at = now;
              environment = command.environment;
              supported_kinds = command.kinds;
            })
            s'.heartbeats;
    },
    claimed,
  )
