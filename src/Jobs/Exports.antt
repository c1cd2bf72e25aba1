-- ===== src/Jobs/Exports.antt =====
-- `CompleteExport` of api/internal/postgres/jobs.go.
pub mod Hex
pub mod Outcome
use plaiflowapp.Base.{
  ℕ, zero, suc, ◌+◌, ◌*◌, ◌%◌, ◌^◌, Bool, true, false, not, ◌&&◌, ◌||◌, List, [], ◌∷◌, ◌++◌, Option,
  none, some, String, str_eq, ltb, leb, ◌==◌, if◌then◌else◌, Text, length, any,
}
use plaiflowapp.Sql.{
  Tx, commit, rollback, ◌>>=◌, ◌>>◌, guard, update_where, rows_affected, query_row, eq_column,
  expires_after,
}
use plaiflowapp.Jobs.{
  Status, queued, completed, failed, is_queued, is_running, is_completed, is_failed, ExportPayload,
  Job, LegacyExport, ExportArtifact, ArtifactRow, AuditEvent, Store, Error, lease_lost,
  metadata_mismatch, snapshot_changed, invalid_hash, constraint_violated, no_rows, clear_lease,
  LeaseCommand, holds_lease, second, hour,
}
use plaiflowapp.Jobs.Exports.Hex.{decode_hex, encode_hex}

pub record CompleteExportCommand : Type 0 where
  pub command : LeaseCommand
  pub format : String
  pub row_count : ℕ
  pub byte_count : ℕ
  pub sha256 : Text
  pub object_key : String
  pub expires_at : ℕ

abbrev pub is_document_export : ExportPayload → Bool
is_document_export p =
    str_eq p.export_type "raw_documents"
    || str_eq p.export_type "confirmed_values"
    || str_eq p.export_type "approved_suggestions"

abbrev pub max_bytes : String → ℕ
max_bytes format = if str_eq format "xlsx" then 128 * 2 ^ 20 else 256 * 2 ^ 20

-- The metadata agree with the payload and keep within the limits.
unfoldable pub metadata_fits : CompleteExportCommand → ExportPayload → Bool
metadata_fits c p = not (
    not (str_eq p.format c.format)
    || ltb p.row_count c.row_count
    || (is_document_export p && not (c.row_count == p.row_count))
    || ltb c.byte_count 1
    || ltb (max_bytes c.format) c.byte_count
    || ltb (c.command.now + 24 * hour + 60 * second) c.expires_at)

-- `hex.DecodeString` of the command's hash.
abbrev pub decoded : Text → Tx Error (List ℕ)
decoded text = elim (decode_hex text) [ none ↦ rollback invalid_hash | some hash ↦ commit hash ]

-- The constraints of durable_job_artifacts that an insertion can violate.
unfoldable pub artifact_insertable : (ℕ → ℕ) → CompleteExportCommand → List ArtifactRow → Bool
artifact_insertable timestamptz c artifacts =
    not (
      any
        (λ (a : ArtifactRow). str_eq a.job_id c.command.job_id || str_eq a.object_key c.object_key)
        artifacts)
    && ltb (timestamptz c.command.now) (timestamptz c.expires_at)
    && (str_eq c.format "csv" || str_eq c.format "xlsx")

-- The row that is inserted, `hash` the bytes of the command's hash.
abbrev pub artifact_row : (ℕ → ℕ) → CompleteExportCommand → List ℕ → Job → ArtifactRow
artifact_row timestamptz c hash r = record {
  job_id = c.command.job_id;
  organization_id = r.organization_id;
  object_key = c.object_key;
  format = c.format;
  sha256 = hash;
  row_count = c.row_count;
  byte_count = c.byte_count;
  created_at = timestamptz c.command.now;
  expires_at = timestamptz c.expires_at;
}

-- What the completing worker is told.
abbrev pub artifact_of : CompleteExportCommand → Job → ExportArtifact
artifact_of c r = record {
  job_id = c.command.job_id;
  organization_id = r.organization_id;
  object_key = c.object_key;
  format = c.format;
  sha256 = c.sha256;
  row_count = c.row_count;
  byte_count = c.byte_count;
  expires_at = c.expires_at;
}

unfoldable pub complete_row : CompleteExportCommand → Job → Job
complete_row c r = clear_lease (record r {
  status = completed;
  result_attempt = c.command.attempt_id;
  completed_at = some c.command.now;
})

abbrev pub complete_event : CompleteExportCommand → Job → AuditEvent
complete_event c r = record {
  organization_id = r.organization_id;
  event_type = "job.completed";
  target_id = c.command.job_id;
  outcome = "completed";
  reason_code = "";
  occurred_at = c.command.now;
}

abbrev pub fits_payload : CompleteExportCommand → Option ExportPayload → Bool
fits_payload c none = false
fits_payload c (some p) = metadata_fits c p

abbrev pub checks_snapshot : Option ExportPayload → Bool
checks_snapshot none = false
checks_snapshot (some p) = is_document_export p

-- The tables after the commands of `CompleteExport` for the row `r`.
abbrev pub after_publication : (ℕ → ℕ) → CompleteExportCommand → List ℕ → Job → Store → Store
after_publication timestamptz c hash r s = record s {
  jobs = update_where (λ (x : Job). str_eq x.id c.command.job_id) (complete_row c) s.jobs;
  exports =
      update_where (λ (e : LegacyExport). eq_column r.legacy_export_job_id e.id)
        (λ e. record e {
          status = completed;
          produced_byte_count = c.byte_count;
          completed_at = some c.command.now;
          object_expires_at = some c.expires_at;
        })
        s.exports;
  artifacts = artifact_row timestamptz c hash r ∷ s.artifacts;
  audit = s.audit ++ complete_event c r ∷ [];
}

-- What follows the selection of a row that is not completed. `snapshot_valid` is
-- `validDocumentExportSnapshot` of review_exports.go, false also when it fails; `timestamptz` is what
-- a column of this type gives back of a time.
unfoldable pub publish :
    (String → String)
    → (String → String → Bool)
    → (ℕ → ℕ)
    → CompleteExportCommand
    → Job
    → Store
    → Tx Error (Store × ExportArtifact)
publish lease_hash snapshot_valid timestamptz c r s = do
  guard (fits_payload c r.payload) metadata_mismatch
  guard (not (checks_snapshot r.payload) || snapshot_valid c.command.job_id r.organization_id)
      snapshot_changed
  guard (holds_lease lease_hash c.command r) lease_lost
  hash ← decoded c.sha256
  guard (length hash == 32) invalid_hash
  guard (artifact_insertable timestamptz c s.artifacts) constraint_violated
  commit (after_publication timestamptz c hash r s, artifact_of c r)

-- What `artifactByJob` scans from a row; the hash is text again, of lower-case digits.
abbrev pub scanned : ArtifactRow → ExportArtifact
scanned a = record {
  job_id = a.job_id;
  organization_id = a.organization_id;
  object_key = a.object_key;
  format = a.format;
  sha256 = encode_hex a.sha256;
  row_count = a.row_count;
  byte_count = a.byte_count;
  expires_at = a.expires_at;
}

-- `artifactByJob`
unfoldable pub artifact_by_job : String → List ArtifactRow → Tx Error ExportArtifact
artifact_by_job job_id artifacts =
    elim (query_row (λ (a : ArtifactRow). str_eq a.job_id job_id) artifacts) [
      | none ↦ rollback no_rows
      | some a ↦ commit (scanned a)
    ]

unfoldable pub complete_export :
    (String → String)
    → (String → String → Bool)
    → (ℕ → ℕ)
    → CompleteExportCommand
    → Store
    → Tx Error (Store × ExportArtifact)
complete_export lease_hash snapshot_valid timestamptz c s =
    elim (query_row (λ (r : Job). str_eq r.id c.command.job_id) s.jobs) [
      | none ↦ rollback lease_lost
      | some r ↦
          if is_completed r.status
          then if str_eq r.result_attempt c.command.attempt_id
            then (do a ← artifact_by_job c.command.job_id s.artifacts; commit (s, a))
            else rollback lease_lost
          else publish lease_hash snapshot_valid timestamptz c r s
    ]
