-- ===== src/Jobs/Leases/Completion.antt =====
-- `CompleteExport` of api/internal/postgres/jobs.go, for a job that is not completed yet.
use plaiflowapp.Base.{
  ℕ, Bool, true, false, false≢true, not, ◌||◌, ◌≡◌, refl, sym, ap, ◌∙◌, inl, inr, List, ◌∷◌, Option,
  String, str_eq, eq_iff, Bool-cases, In, Text, some, Option-cases, length, ==_iff, map,
}
use plaiflowapp.Sql.{guard_passed, bind_passed, commit, rollback, query_row}
use plaiflowapp.Sql.Rows.{All-In}
use plaiflowapp.Jobs.{
  Job, is_running, is_completed, Store, lease_lost, invalid_hash, ArtifactRow, ExportArtifact,
  LeaseCommand, holds_lease,
}
use plaiflowapp.Jobs.Rows.{IsConsistent, IsCoherent, query_row-found, unique_row}
use plaiflowapp.Jobs.Leases.{heartbeat_job, FailureCommand, fail_job}
use plaiflowapp.Jobs.Exports.{
  after_publication, CompleteExportCommand, complete_row, complete_export, publish, artifact_by_job,
  artifact_of, artifact_row, scanned, decoded, fits_payload, checks_snapshot, artifact_insertable,
}
use plaiflowapp.Jobs.Exports.Hex.{decode_hex, lower, encode_hex-decode_hex}
use plaiflowapp.Jobs.Changes.{Changes, update_at-Changes, same_at}
use plaiflowapp.Jobs.Leases.Transitions.{
  stale_lease_refused, complete_row-IsConsistent, lease_running, lease_at_id,
}

-- Everything that a publication has passed; `hash` is the list of bytes of the command's hash.
pub record Published (lease_hash : String → String) (snapshot_valid : String → String → Bool)
    (timestamptz : ℕ → ℕ) (c : CompleteExportCommand) (hash : List ℕ) (r : Job) (s : Store)
    : Type 0 where
  pub fits : fits_payload c r.payload ≡ true
  pub snapshot :
      (not (checks_snapshot r.payload) || snapshot_valid c.command.job_id r.organization_id) ≡ true
  pub holds : holds_lease lease_hash c.command r ≡ true
  pub bytes : decode_hex c.sha256 ≡ some hash
  pub size : length hash ≡ 32
  pub insertable : artifact_insertable timestamptz c s.artifacts ≡ true

decoded-decode_hex :
    (text : Text) (hash : List ℕ) → decoded text ≡ commit hash → decode_hex text ≡ some hash
decoded-decode_hex text hash h = elim (Option-cases (decode_hex text)) [
  | inl e ↦ let h' : rollback invalid_hash ≡ commit hash = rw (decoded, e) at h in absurd (cc)
  | inr (bytes, e) ↦
      let h' : commit bytes ≡ commit hash = rw (decoded, e) at h in
      let same : bytes ≡ hash = cc in e ∙ ap some same
]

-- The newest artifact is found by its job.
newest_artifact :
    (a : ArtifactRow) (older rows : List ArtifactRow) (k : String)
    → rows ≡ a ∷ older
    → str_eq a.job_id k ≡ true
    → artifact_by_job k rows ≡ commit (scanned a)
unfolding artifact_by_job query_row
newest_artifact a older rows k same e = rw same (rw (e, artifact_by_job))

-- In a table where the job `k` is completed no lease on it is current.
completed_lease_gone :
    (lease_hash : String → String) (d : LeaseCommand) (rows : List Job) (r : Job)
    → IsCoherent rows
    → In r rows
    → str_eq r.id d.job_id ≡ true
    → is_running r.status ≡ false
    → (x : Job) → In x rows
    → holds_lease lease_hash d x ≡ false
completed_lease_gone lease_hash d rows r table i e done x j =
    elim (Bool-cases (holds_lease lease_hash d x)) [
      | inr m ↦ m
      | inl held ↦
          let same =
            unique_row rows table.unique j i
              (same_at d.job_id x r (lease_at_id lease_hash d x held) e) in
          absurd (
            false≢true (
              sym done
              ∙ ap (λ (y : Job). is_running y.status) (sym same)
              ∙ lease_running lease_hash d x held))
    ]

module _ (lease_hash : String → String) (snapshot_valid : String → String → Bool)
    (timestamptz : ℕ → ℕ) where
  publish_ok :
      (c : CompleteExportCommand) (r : Job) (s s' : Store) (a : ExportArtifact)
      → publish lease_hash snapshot_valid timestamptz c r s ≡ commit (s', a)
      → (hash : List ℕ) × Published lease_hash snapshot_valid timestamptz c hash r s
        × (s' ≡ after_publication timestamptz c hash r s)
        × (a ≡ artifact_of c r)
  unfolding publish
  publish_ok c r s s' a h =
      let (fits, h₁) = guard_passed _ _ _ h in
      let (snapshot, h₂) = guard_passed _ _ _ h₁ in
      let (holds, h₃) = guard_passed _ _ _ h₂ in
      let (hash, bytes, h₄) = bind_passed (decoded c.sha256) _ h₃ in
      let (size, h₅) = guard_passed _ _ _ h₄ in
      let (insertable, h₆) = guard_passed _ _ _ h₅ in
      (
        hash,
        record {
          fits = fits;
          snapshot = snapshot;
          holds = holds;
          bytes = decoded-decode_hex c.sha256 hash bytes;
          size = (==_iff (length hash) 32).0 size;
          insertable = insertable;
        },
        cc,
        cc,
      )

  -- The row that a completion speaks of, while it is not completed.
  module _ (c : CompleteExportCommand) (r : Job) (s : Store) (table : IsCoherent s.jobs)
      (i : In r s.jobs) (here : str_eq r.id c.command.job_id ≡ true)
      (live : is_completed r.status ≡ false) where
    complete_publishes :
        complete_export lease_hash snapshot_valid timestamptz c s
        ≡ publish lease_hash snapshot_valid timestamptz c r s
    unfolding complete_export
    complete_publishes =
        let found =
          query_row-found c.command.job_id (λ (x : Job). str_eq x.id c.command.job_id) (λ x e. e)
            s.jobs table.unique i here in
        rw (found, complete_export) (rw live)

    -- The completion publishes.
    pub complete_export-Changes :
        {s' : Store} {a : ExportArtifact}
        → complete_export lease_hash snapshot_valid timestamptz c s ≡ commit (s', a)
        → (hash : List ℕ) × Published lease_hash snapshot_valid timestamptz c hash r s
          × Changes s.jobs r (complete_row c r) s'.jobs
          × (a ≡ artifact_of c r)
          × (s'.artifacts ≡ artifact_row timestamptz c hash r ∷ s.artifacts)
    complete_export-Changes {s'} {a} h =
        let (hash, p, es, ea) = publish_ok c r s s' a (sym complete_publishes ∙ h) in
        let row =
          complete_row-IsConsistent c r (lease_running lease_hash c.command r p.holds)
            (All-In IsConsistent s.jobs table.valid i) in
        let k = c.command.job_id in
        (
          hash,
          p,
          rw es (
              update_at-Changes table i (λ x. str_eq x.id k) (complete_row c)
                (λ x e. same_at k x r e here) here (λ x. unfold complete_row in refl) row),
          ea,
          rw es refl,
        )

    -- On a well-formed table, where the job of a completion is not completed and the completion
    -- succeeds, the worker may repeat it: the repetition succeeds, nothing changes, and the worker
    -- gets the artifact again, with the hash in lower case and the expiry as the column keeps it.
    pub complete_export_again :
        {s' : Store} {a : ExportArtifact}
        → complete_export lease_hash snapshot_valid timestamptz c s ≡ commit (s', a)
        → complete_export lease_hash snapshot_valid timestamptz c s'
          ≡ commit
              (s', record a { sha256 = map lower c.sha256; expires_at = timestamptz c.expires_at })
    unfolding complete_export complete_row
    complete_export_again {s'} {a} h =
        let (hash, p, ch, ea, stored) = complete_export-Changes h in
        let k = c.command.job_id in
        let found =
          query_row-found k (λ (x : Job). str_eq x.id k) (λ x e. e) s'.jobs ch.still.unique
            ch.changed here in
        let attempt : str_eq c.command.attempt_id c.command.attempt_id ≡ true =
          (eq_iff _ _).1 refl in
        let key : str_eq k k ≡ true = (eq_iff k k).1 refl in
        let out =
          newest_artifact (artifact_row timestamptz c hash r) s.artifacts s'.artifacts k stored
            key in
        let text = encode_hex-decode_hex c.sha256 hash p.bytes in
        rw (found, complete_export) (rw attempt (rw out (rw (text, ea) refl)))

    -- On a well-formed table, after the completion of a job that was not completed before, every lease
    -- on it is gone: no heartbeat and no failure report of any worker changes the tables.
    pub completed_refuses :
        (random : Option (ℕ × ℕ)) (d : FailureCommand) (lease : ℕ) {s' : Store} {a : ExportArtifact}
        → complete_export lease_hash snapshot_valid timestamptz c s ≡ commit (s', a)
        → d.command.job_id ≡ c.command.job_id
        → (heartbeat_job lease_hash d.command lease s' ≡ rollback lease_lost)
          × (fail_job lease_hash random d s' ≡ rollback lease_lost)
    unfolding complete_row
    completed_refuses random d lease {s'} h same =
        let (hash, p, ch, ea, stored) = complete_export-Changes h in
        stale_lease_refused lease_hash s' ch.still random d lease (
          completed_lease_gone lease_hash d.command s'.jobs (complete_row c r) ch.still ch.changed
            (rw same here) refl)
