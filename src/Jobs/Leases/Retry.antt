-- ===== src/Jobs/Leases/Retry.antt =====
-- The delay before a failed job's next attempt.
use Prim.Native.Nat.{min}
use plaiflowapp.Base.{ℕ, zero, suc, ◌*◌, ◌^◌, ◌≤◌, ◌<◌, ◌≡◌, arith, Option, none, some, ◌⊎◌}
use plaiflowapp.Jobs.{second}
use plaiflowapp.Jobs.Leases.{backoff, retry_jitter}

-- The exponential part takes nine values.
pow_table : (k : ℕ) → k ≤ 8 → (1 ≤ 2 ^ k) × (2 ^ k ≤ 256)
pow_table zero h = omega arith
pow_table (suc zero) h = omega arith
pow_table (suc (suc zero)) h = omega arith
pow_table (suc (suc (suc zero))) h = omega arith
pow_table (suc (suc (suc (suc zero)))) h = omega arith
pow_table (suc (suc (suc (suc (suc zero))))) h = omega arith
pow_table (suc (suc (suc (suc (suc (suc zero)))))) h = omega arith
pow_table (suc (suc (suc (suc (suc (suc (suc zero))))))) h = omega arith
pow_table (suc (suc (suc (suc (suc (suc (suc (suc zero)))))))) h = omega arith
pow_table (suc (suc (suc (suc (suc (suc (suc (suc (suc k))))))))) h = absurd (omega arith)

jitter_small : (random : Option (ℕ × ℕ)) → retry_jitter random < second
unfolding retry_jitter
jitter_small none = omega arith
jitter_small (some (high, low)) = omega arith

-- The delay is at least a second, at least the exponential part and at least what the provider
-- asked for, and at most 257 seconds unless the provider asked for more.
pub backoff_bounds :
    (attempt_count : ℕ) (random : Option (ℕ × ℕ)) (retry_after : ℕ)
    → let delay = backoff attempt_count (retry_jitter random) retry_after in
      (second ≤ delay)
      × (2 ^ min attempt_count 8 * second ≤ delay)
      × (retry_after ≤ delay)
      × ((delay ≡ retry_after) ⊎ (delay < 257 * second))
unfolding backoff
backoff_bounds a random retry_after =
    let (low, high) = pow_table (min a 8) (omega arith) in ground (arith, jitter_small random)
