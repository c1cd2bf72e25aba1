-- ===== src/Jobs/Exports/Outcome.antt =====
-- The two ways in which `CompleteExport` of api/internal/postgres/jobs.go succeeds.
use plaiflowapp.Base.{
  ℕ, Bool, true, false, ◌≡◌, refl, sym, some, none, ◌∙◌, inl, inr, List, ◌∷◌, String, str_eq,
  eq_iff, Bool-cases, In, Option-cases, ◌⊎◌,
}
use plaiflowapp.Sql.{bind_passed, Tx, commit, rollback, query_row, ◌>>=◌}
use plaiflowapp.Sql.Rows.{query_row-In}
use plaiflowapp.Jobs.{
  Job, is_completed, Store, Error, lease_lost, no_rows, ArtifactRow, ExportArtifact,
}
use plaiflowapp.Jobs.Rows.{IsCoherent}
use plaiflowapp.Jobs.Exports.{
  CompleteExportCommand, complete_row, complete_export, artifact_by_job, artifact_of, artifact_row,
  scanned,
}
use plaiflowapp.Jobs.Changes.{Changes}
use plaiflowapp.Jobs.Leases.Completion.{Published, complete_export-Changes}

artifact_by_job-scanned :
    (k : String) (rows : List ArtifactRow) (a : ExportArtifact)
    → artifact_by_job k rows ≡ commit a
    → (row : ArtifactRow) × In row rows × (str_eq row.job_id k ≡ true) × (a ≡ scanned row)
unfolding artifact_by_job
artifact_by_job-scanned k rows a h =
    let here = λ (x : ArtifactRow). str_eq x.job_id k in
    elim (Option-cases (query_row here rows)) [
      | inl e ↦ let h' : rollback no_rows ≡ commit a = rw (artifact_by_job, e) at h in absurd (cc)
      | inr (row, e) ↦
          let h' : commit (scanned row) ≡ commit a = rw (artifact_by_job, e) at h in
          let (i, at) = query_row-In here rows e in (row, i, at, cc)
    ]

module _ (lease_hash : String → String) (snapshot_valid : String → String → Bool)
    (timestamptz : ℕ → ℕ) where
  -- What a completion that succeeds has done, for the row `r` of its job.
  pub record PublishedNow (c : CompleteExportCommand) (r : Job) (s s' : Store) (a : ExportArtifact)
      : Type 0 where
    pub was_open : is_completed r.status ≡ false
    pub hash : List ℕ
    pub passed : Published lease_hash snapshot_valid timestamptz c hash r s
    pub jobs : Changes s.jobs r (complete_row c r) s'.jobs
    pub completed : is_completed (complete_row c r).status ≡ true
    pub attempt : (complete_row c r).result_attempt ≡ c.command.attempt_id
    pub finished : (complete_row c r).completed_at ≡ some c.command.now
    pub released : (complete_row c r).lease_token_hash ≡ none
    pub told : a ≡ artifact_of c r
    pub stored : s'.artifacts ≡ artifact_row timestamptz c hash r ∷ s.artifacts

  -- On a well-formed table a completion that succeeds speaks of a job of the table. Either the
  -- job was not completed: then the worker holds its lease, the metadata fit the payload and the
  -- snapshot is valid where it is checked, the job is completed by this attempt at the time of
  -- the command, without a lease, no other job changes, and the artifact that the worker is told
  -- of is stored with the 32 bytes of its hash and with its times as the column keeps them; or
  -- the same attempt had completed the job: then nothing changes, and the artifact comes from a
  -- stored row of this job.
  pub complete_export_lem :
      (c : CompleteExportCommand) (s s' : Store) (a : ExportArtifact)
      → IsCoherent s.jobs
      → complete_export lease_hash snapshot_valid timestamptz c s ≡ commit (s', a)
      → (r : Job) × In r s.jobs
        × (str_eq r.id c.command.job_id ≡ true)
        × (PublishedNow c r s s' a
            ⊎ ((is_completed r.status ≡ true)
                × (r.result_attempt ≡ c.command.attempt_id)
                × (s' ≡ s)
                × ((row : ArtifactRow) × In row s.artifacts
                    × (str_eq row.job_id c.command.job_id ≡ true)
                    × (a ≡ scanned row))))
  unfolding complete_export artifact_by_job complete_row
  complete_export_lem c s s' a table h =
      let k = c.command.job_id in
      elim (Option-cases (query_row (λ (x : Job). str_eq x.id k) s.jobs)) [
        | inl e ↦
            let h' : rollback lease_lost ≡ commit (s', a) = rw (complete_export, e) at h in
            absurd (cc)
        | inr (r, e) ↦
            let (i, here) = query_row-In (λ (x : Job). str_eq x.id k) s.jobs e in
            elim (Bool-cases (is_completed r.status)) [
              | inr live ↦
                  let (hash, p, ch, ea, stored) =
                    complete_export-Changes lease_hash snapshot_valid timestamptz c r s table i here
                      live h in
                  (
                    r,
                    i,
                    here,
                    inl (record {
                      was_open = live;
                      hash = hash;
                      passed = p;
                      jobs = ch;
                      completed = refl;
                      attempt = refl;
                      finished = refl;
                      released = refl;
                      told = ea;
                      stored = stored;
                    }),
                  )
              | inl done ↦ elim (Bool-cases (str_eq r.result_attempt c.command.attempt_id)) [
                | inr other ↦
                    let h' : rollback lease_lost ≡ commit (s', a) =
                      rw (complete_export, e, done, other) at h in
                    absurd (cc)
                | inl same ↦
                    let h' : (artifact_by_job k s.artifacts >>= λ (x : ExportArtifact).
                    commit (s, x))
                        ≡ commit (s', a) =
                      rw (complete_export, e, done, same) at h in
                    let (x, got, out) = bind_passed (artifact_by_job k s.artifacts) _ h' in
                    let (row, j, at, told) = artifact_by_job-scanned k s.artifacts x got in
                    (
                      r,
                      i,
                      here,
                      inr (
                        done,
                        (eq_iff _ _).0 same,
                        told_first out,
                        (row, j, at, sym (told_last out) ∙ told),
                      ),
                    )
              ]
            ]
      ]
    where
      told_last :
          {x : ExportArtifact}
          → ◌≡◌ {A = Tx Error (Store × ExportArtifact)} (commit (s, x)) (commit (s', a))
          → x ≡ a
      told_last out = cc

      told_first :
          {x : ExportArtifact}
          → ◌≡◌ {A = Tx Error (Store × ExportArtifact)} (commit (s, x)) (commit (s', a))
          → s' ≡ s
      told_first out = cc
