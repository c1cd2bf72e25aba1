-- ===== src/Jobs/Leases.antt =====
-- `HeartbeatJob` and `FailJob` of api/internal/postgres/jobs.go.
pub mod Transitions
pub mod Completion
pub mod Retry
pub mod Failing
use Prim.Native.Nat.{min}
use plaiflowapp.Base.{
  ℕ, zero, suc, ◌+◌, ◌*◌, ◌%◌, ◌^◌, Bool, true, false, not, ◌&&◌, ◌||◌, List, [], ◌∷◌, ◌++◌, Option,
  none, some, String, str_eq, ltb, leb, ◌==◌, if◌then◌else◌, Text, codes, length, all, any,
  is_digit,
}
use plaiflowapp.Sql.{
  Tx, commit, rollback, ◌>>=◌, ◌>>◌, guard, update_where, rows_affected, query_row, eq_column,
  expires_after,
}
use plaiflowapp.Jobs.{
  Status, queued, completed, failed, is_queued, is_running, is_completed, is_failed, ExportPayload,
  Job, LegacyExport, ExportArtifact, AuditEvent, Store, Error, lease_lost, metadata_mismatch,
  snapshot_changed, invalid_hash, constraint_violated, no_rows, clear_lease, LeaseCommand,
  holds_lease, second, hour,
}

-- The tables after the UPDATE of `HeartbeatJob`.
abbrev pub extended : (String → String) → LeaseCommand → ℕ → Store → Store
extended lease_hash command lease s = record s {
  jobs =
      update_where (holds_lease lease_hash command)
        (λ (r : Job). record r { lease_expires_at = some (command.now + lease) }) s.jobs;
}

unfoldable pub heartbeat_job : (String → String) → LeaseCommand → ℕ → Store → Tx Error (Store × ℕ)
heartbeat_job lease_hash command lease s = do
  guard (rows_affected (holds_lease lease_hash command) s.jobs == 1) lease_lost
  commit (extended lease_hash command lease s, command.now + lease)

pub record FailureCommand : Type 0 where
  pub command : LeaseCommand
  pub code : String
  pub retry_after : ℕ

abbrev pub is_transient : String → Bool
is_transient code =
    str_eq code "temporary_upstream"
    || str_eq code "rate_limited"
    || str_eq code "artifact_upload_failed"

-- Two random bytes, or a failure of the source of randomness.
unfoldable pub retry_jitter : Option (ℕ × ℕ) → ℕ
retry_jitter none = 0
retry_jitter (some (high, low)) = (high * 256 + low) % 1000 * 1_000_000

-- The delay before the next attempt.
unfoldable pub backoff : ℕ → ℕ → ℕ → ℕ
backoff attempt_count jitter retry_after =
    let delay = 2 ^ min attempt_count 8 * second + jitter in
    if ltb delay retry_after then retry_after else delay

-- The failure is temporary and an attempt is left.
abbrev pub retries : FailureCommand → Job → Bool
retries c r = is_transient c.code && ltb r.attempt_count r.max_attempts

unfoldable pub fail_row : FailureCommand → Bool → ℕ → Job → Job
fail_row c again available r = clear_lease (record r {
  status = if again then queued else failed;
  available_at = available;
  failure_code = c.code;
  failed_at = if again then none else some c.command.now;
})

abbrev pub fail_event : FailureCommand → Bool → Job → AuditEvent
fail_event c again r = record {
  organization_id = r.organization_id;
  event_type = if again then "job.retry_scheduled" else "job.failed";
  target_id = r.id;
  outcome = if again then "queued" else "failed";
  reason_code = c.code;
  occurred_at = c.command.now;
}

-- When the job may be claimed again.
abbrev pub next_available : Option (ℕ × ℕ) → FailureCommand → Job → ℕ
next_available random c r =
    if retries c r
    then c.command.now + backoff r.attempt_count (retry_jitter random) c.retry_after
    else c.command.now

-- The tables after the commands of `FailJob` for the row `r`.
abbrev pub after_failure : Option (ℕ × ℕ) → FailureCommand → Job → Store → Store
after_failure random c r s = record s {
  jobs =
      update_where (λ (x : Job). str_eq x.id c.command.job_id)
        (fail_row c (retries c r) (next_available random c r)) s.jobs;
  exports =
      if retries c r
      then s.exports
      else update_where (λ (e : LegacyExport). eq_column r.legacy_export_job_id e.id)
          (λ e. record e { status = failed; failure_code = c.code; failed_at = some c.command.now })
          s.exports;
  audit = s.audit ++ fail_event c (retries c r) r ∷ [];
}

unfoldable pub fail_job :
    (String → String) → Option (ℕ × ℕ) → FailureCommand → Store → Tx Error Store
fail_job lease_hash random c s = elim (query_row (holds_lease lease_hash c.command) s.jobs) [
  | none ↦ rollback lease_lost
  | some r ↦ commit (after_failure random c r s)
]
