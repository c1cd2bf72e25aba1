-- ===== src/Jobs/Leases/Failing.antt =====
-- Which failures are tried again (`FailJob` of api/internal/postgres/jobs.go).
use Prim.Native.Nat.{min}
use plaiflowapp.Base.{◌+◌, ◌*◌, ◌^◌, ◌≤◌, ◌<◌, ◌≡◌, none, some, String, ◌⊎◌}
use plaiflowapp.Jobs.{Job, queued, failed, second}
use plaiflowapp.Jobs.Changes.{Changes}
use plaiflowapp.Jobs.Leases.{FailureCommand}

-- The codes of a failure that may pass.
abbrev pub IsTemporary : String → Type 0
IsTemporary code =
    (code ≡ "temporary_upstream") ⊎ (code ≡ "rate_limited") ⊎ (code ≡ "artifact_upload_failed")

-- What becomes of the row `r` of a failed attempt.
pub data Verdict (c : FailureCommand) (r r' : Job) : Type 0 where
  again :
      IsTemporary c.code
      → r.attempt_count < r.max_attempts
      → r'.status ≡ queued
      → r'.failed_at ≡ none
      → c.command.now + 2 ^ min r.attempt_count 8 * second ≤ r'.available_at
      → c.command.now + c.retry_after ≤ r'.available_at
      → Verdict c r r'
  ended :
      (¬ IsTemporary c.code) ⊎ (r.max_attempts ≤ r.attempt_count)
      → r'.status ≡ failed
      → r'.failed_at ≡ some c.command.now
      → Verdict c r r'
