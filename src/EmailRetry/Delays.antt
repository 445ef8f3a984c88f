-- ===== src/EmailRetry/Delays.antt =====
-- How long the service waits before it tries again.
use Prim.Native.Nat.{◌^◌}
use codelab_auth_service.Common.{ℕ, ◌+◌, ◌*◌, ◌≤◌, ◌<◌, min, arith}
use codelab_auth_service.EmailRetry.{draws, calculate_backoff}

scaled_bounds :
    (b d k : ℕ)
    → k < d
    → 0 < b
    → (9 * (b * d) ≤ b * (9 * d + 2 * k)) × (b * (9 * d + 2 * k) < 11 * (b * d))
scaled_bounds b d k small pos = grind arith

pub scaled_le : (b d k : ℕ) → b ≤ 300 → k < d → b * (9 * d + 2 * k) ≤ 3300 * d
scaled_le b d k short small = grind arith

min_pos : (a b : ℕ) → 0 < a → 0 < b → 0 < min a b
min_pos a b h g = omega arith

-- The delay before the next attempt: the base doubled for each attempt so far, at most
-- `max_backoff`, lessened by at most a tenth, and lengthened by less than a tenth.
pub backoff_bounds :
    (attempt base_delay max_backoff k : ℕ)
    → k < draws
    → 0 < base_delay * 2 ^ attempt
    → 0 < max_backoff
    → (9 * (min (base_delay * 2 ^ attempt) max_backoff * draws)
        ≤ calculate_backoff attempt base_delay max_backoff k)
      × (calculate_backoff attempt base_delay max_backoff k
          < 11 * (min (base_delay * 2 ^ attempt) max_backoff * draws))
unfolding calculate_backoff
backoff_bounds attempt base_delay max_backoff k small base pos =
    scaled_bounds (min (base_delay * 2 ^ attempt) max_backoff) draws k small
      (min_pos (base_delay * 2 ^ attempt) max_backoff base pos)
