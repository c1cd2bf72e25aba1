-- ===== src/Jobs.antt =====
-- The durable job queue: the tables that api/internal/postgres/jobs.go reads and writes, and the
-- commands of api/internal/job/model.go. A row holds the columns that these functions read or
-- write; a time is a count of nanoseconds, 0 the zero time; a lease token is stored by its hash.
pub mod Rows
pub mod Changes
pub mod Queue
pub mod Leases
pub mod Exports
use plaiflowapp.Base.{
  ◌≡◌, refl, ℕ, zero, suc, ◌+◌, Bool, true, false, not, ◌&&◌, ◌||◌, List, [], ◌∷◌, ◌++◌, Option,
  none, some, String, str_eq, ltb, leb, ◌==◌, if◌then◌else◌, Text,
}
use plaiflowapp.Sql.{
  Tx, commit, rollback, ◌>>=◌, ◌>>◌, guard, guard_passed, bind_passed, is_committed,
  is_committed-bind, is_committed-eq, commit_injective, update_where, rows_affected, select_where,
  query_row, eq_column, expires_after, expired_at,
}

pub data Kind : Type 0 where
  export ocr : Kind

pub data Status : Type 0 where
  queued running completed ready expired failed cancelled : Status

abbrev pub kind_eq : Kind → Kind → Bool
kind_eq export export = true
kind_eq ocr ocr = true
kind_eq _ _ = false

abbrev pub is_queued : Status → Bool
is_queued queued = true
is_queued _ = false

abbrev pub is_running : Status → Bool
is_running running = true
is_running _ = false

abbrev pub is_completed : Status → Bool
is_completed completed = true
is_completed _ = false

abbrev pub is_failed : Status → Bool
is_failed failed = true
is_failed _ = false

abbrev pub is_cancelled : Status → Bool
is_cancelled cancelled = true
is_cancelled _ = false

-- What `json.Unmarshal` reads from the payload column.
pub record ExportPayload : Type 0 where
  pub export_type : String
  pub format : String
  pub row_count : ℕ

-- A row of durable_jobs. `result_attempt` is the attempt id in the result column, "" if there is none.
pub record Job : Type 0 where
  pub id : String
  pub organization_id : String
  pub kind : Kind
  pub status : Status
  pub payload : Option ExportPayload
  pub attempt_count : ℕ
  pub max_attempts : ℕ
  pub available_at : ℕ
  pub created_at : ℕ
  pub current_attempt_id : Option String
  pub lease_token_hash : Option String
  pub lease_expires_at : Option ℕ
  pub worker_id : Option String
  pub started_at : Option ℕ
  pub completed_at : Option ℕ
  pub failed_at : Option ℕ
  pub cancelled_at : Option ℕ
  pub failure_code : String
  pub stale_reclaim_count : ℕ
  pub result_attempt : String
  pub legacy_export_job_id : Option String

-- A row of export_jobs, as far as these functions write it.
pub record LegacyExport : Type 0 where
  pub id : String
  pub status : Status
  pub failure_code : String
  pub failed_at : Option ℕ
  pub completed_at : Option ℕ
  pub produced_byte_count : ℕ
  pub object_expires_at : Option ℕ

-- A row of durable_job_artifacts; `sha256` is the list of its bytes.
pub record ArtifactRow : Type 0 where
  pub job_id : String
  pub organization_id : String
  pub object_key : String
  pub format : String
  pub sha256 : List ℕ
  pub row_count : ℕ
  pub byte_count : ℕ
  pub created_at : ℕ
  pub expires_at : ℕ

-- What the worker is told of an artifact; `Product` is set elsewhere.
pub record ExportArtifact : Type 0 where
  pub job_id : String
  pub organization_id : String
  pub object_key : String
  pub format : String
  pub sha256 : Text
  pub row_count : ℕ
  pub byte_count : ℕ
  pub expires_at : ℕ

pub record AuditEvent : Type 0 where
  pub organization_id : String
  pub event_type : String
  pub target_id : String
  pub outcome : String
  pub reason_code : String
  pub occurred_at : ℕ

pub record Heartbeat : Type 0 where
  pub worker_id : String
  pub heartbeat_at : ℕ
  pub environment : String
  pub supported_kinds : List Kind

-- The tables.
pub record Store : Type 0 where
  pub jobs : List Job
  pub exports : List LegacyExport
  pub artifacts : List ArtifactRow
  pub audit : List AuditEvent
  pub heartbeats : List Heartbeat

pub data Error : Type 0 where
  invalid_claim random_failed claim_update_failed lease_lost metadata_mismatch snapshot_changed
        invalid_hash constraint_violated no_rows :
      Error

-- The columns of a lease, cleared.
abbrev pub clear_lease : Job → Job
clear_lease r = record r {
  current_attempt_id = none;
  lease_token_hash = none;
  lease_expires_at = none;
  worker_id = none;
}

pub record LeaseCommand : Type 0 where
  pub job_id : String
  pub attempt_id : String
  pub lease_token : String
  pub now : ℕ

-- The row that a worker's lease command speaks of, while the lease is current.
abbrev pub holds_lease : (String → String) → LeaseCommand → Job → Bool
holds_lease lease_hash command r =
    str_eq r.id command.job_id
    && is_running r.status
    && eq_column r.current_attempt_id command.attempt_id
    && eq_column r.lease_token_hash (lease_hash command.lease_token)
    && expires_after r.lease_expires_at command.now

abbrev pub second : ℕ
second = 1_000_000_000

abbrev pub hour : ℕ
hour = 3_600_000_000_000
