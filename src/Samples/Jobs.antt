-- ===== src/Samples/Jobs.antt =====
-- A worker's commands on the sample queue (api/internal/postgres/jobs.go).
use plaiflowapp.Base.{
  ℕ, ◌+◌, ◌*◌, ◌/◌, true, ◌≡◌, refl, ◌⊎◌, inl, inr, List, [], Option, none, some, str_eq, Text,
  codes, map, In,
}
use plaiflowapp.Sql.{commit, rollback, query_row}
use plaiflowapp.Jobs.{Job, is_completed, ArtifactRow, Store, lease_lost}
use plaiflowapp.Jobs.Changes.{Changes}
use plaiflowapp.Jobs.Leases.{heartbeat_job, fail_job, FailureCommand}
use plaiflowapp.Jobs.Exports.{
  CompleteExportCommand, complete_export, artifact_of, scanned, after_publication, publish,
  metadata_fits, artifact_insertable,
}
use plaiflowapp.Jobs.Exports.Hex.{decode_hex, hex_value, lower}
use plaiflowapp.Jobs.Exports.Outcome.{PublishedNow, complete_export_lem}
use plaiflowapp.Jobs.Leases.Transitions.{heartbeat_job-Changes}
use plaiflowapp.Jobs.Leases.Completion.{complete_export_again, completed_refuses}
use plaiflowapp.Samples.Queue.{runs, tables, plain, lease, tables-IsCoherent}

heartbeat_job-Changes_example :
    (s' : Store) × (heartbeat_job plain lease 60 tables ≡ commit (s', 50 + 60))
    × Changes tables.jobs runs (record runs { lease_expires_at = some (50 + 60) }) s'.jobs
    × (s'.artifacts ≡ tables.artifacts)
heartbeat_job-Changes_example =
    heartbeat_job-Changes plain tables tables-IsCoherent lease 60 runs (inr (inl refl)) refl

abbrev lost_upstream : FailureCommand
lost_upstream = record { command = lease; code = "temporary_upstream"; retry_after = 0 }

-- A failure reported with another token.
abbrev stolen : FailureCommand
stolen = record lost_upstream { command = record lease { lease_token = "x" } }

abbrev hash_text : Text
hash_text = codes "0123456789ABCDEF0123456789abcdef0123456789abcdef0123456789abcdef"

abbrev completion : CompleteExportCommand
completion = record {
  command = lease;
  format = "csv";
  row_count = 3;
  byte_count = 120;
  sha256 = hash_text;
  object_key = "k";
  expires_at = 9001;
}

-- Whole microseconds.
abbrev micros : ℕ → ℕ
micros t = t / 1000 * 1000

abbrev bytes_or : Option (List ℕ) → List ℕ
bytes_or none = []
bytes_or (some bytes) = bytes

unfoldable digest : List ℕ
unfolding decode_hex hex_value
digest = bytes_or (decode_hex hash_text)

abbrev published : Store
published = after_publication micros completion digest runs tables

completion_succeeds :
    complete_export plain (λ _ _. true) micros completion tables
    ≡ commit (published, artifact_of completion runs)
unfolding complete_export query_row publish metadata_fits artifact_insertable decode_hex hex_value
    digest
completion_succeeds = refl

complete_export_lem_example :
    (r : Job) × In r tables.jobs
    × (str_eq r.id "r" ≡ true)
    × (PublishedNow plain
          (λ _ _. true)
          micros
          completion
          r
          tables
          published
          (artifact_of completion runs)
        ⊎ ((is_completed r.status ≡ true)
            × (r.result_attempt ≡ "a")
            × (published ≡ tables)
            × ((row : ArtifactRow) × In row tables.artifacts
                × (str_eq row.job_id "r" ≡ true)
                × (artifact_of completion runs ≡ scanned row))))
complete_export_lem_example =
    complete_export_lem plain (λ _ _. true) micros completion tables published
      (artifact_of completion runs) tables-IsCoherent completion_succeeds

complete_export_again_example :
    complete_export plain (λ _ _. true) micros completion published
    ≡ commit (
      published,
      record (artifact_of completion runs) { sha256 = map lower hash_text; expires_at = 9000 },
    )
complete_export_again_example =
    complete_export_again plain (λ _ _. true) micros completion runs tables tables-IsCoherent
      (inr (inl refl)) refl refl completion_succeeds

completed_refuses_example :
    (heartbeat_job plain lease 60 published ≡ rollback lease_lost)
    × (fail_job plain none lost_upstream published ≡ rollback lease_lost)
completed_refuses_example =
    completed_refuses plain (λ _ _. true) micros completion runs tables tables-IsCoherent
      (inr (inl refl)) refl refl none lost_upstream 60 completion_succeeds refl
