-- ===== src/Samples/Queue.antt =====
-- Sample data: a queue with one job that runs and one that waits (api/internal/postgres/jobs.go).
use plaiflowapp.Base.{refl, [], ◌∷◌, none, some, arith, String}
use plaiflowapp.Jobs.{export, Job, queued, running, Store, LeaseCommand}
use plaiflowapp.Jobs.Rows.{IsConsistent, IsCoherent}

abbrev pub waits : Job
waits = record {
  id = "w";
  organization_id = "o";
  kind = export;
  status = queued;
  payload = some (record { export_type = "tasks"; format = "csv"; row_count = 3 });
  attempt_count = 0;
  max_attempts = 5;
  available_at = 10;
  created_at = 10;
  current_attempt_id = none;
  lease_token_hash = none;
  lease_expires_at = none;
  worker_id = none;
  started_at = none;
  completed_at = none;
  failed_at = none;
  cancelled_at = none;
  failure_code = "";
  stale_reclaim_count = 0;
  result_attempt = "";
  legacy_export_job_id = none;
}

abbrev pub runs : Job
runs = record waits {
  id = "r";
  status = running;
  attempt_count = 1;
  current_attempt_id = some "a";
  lease_token_hash = some "t";
  lease_expires_at = some 100;
  worker_id = some "worker";
}

abbrev pub tables : Store
tables = record {
  jobs = waits ∷ runs ∷ [];
  exports = [];
  artifacts = [];
  audit = [];
  heartbeats = [];
}

abbrev pub plain : String → String
plain token = token

abbrev pub lease : LeaseCommand
lease = record { job_id = "r"; attempt_id = "a"; lease_token = "t"; now = 50 }

pub waits-IsConsistent : IsConsistent waits
waits-IsConsistent = ground arith

pub runs-IsConsistent : IsConsistent runs
runs-IsConsistent = ground arith

pub tables-IsCoherent : IsCoherent tables.jobs
tables-IsCoherent = record {
  valid = (waits-IsConsistent, (runs-IsConsistent, tt));
  unique = ((refl, tt), (tt, tt));
}
