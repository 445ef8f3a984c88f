-- ===== src/EmailRetry.antt =====
-- app/services/email_retry.py: `class EmailRetryService`, over any sender. The loggers are left out.
-- `random.random()` is k / 2^53 for a drawn k; a delay is the exact value of the formula, without
-- the rounding of floats, in units of 1 / (10 * 2^53) seconds.
pub mod Delays
pub mod Attempts
pub mod Bounds
mod Tests
use codelab_auth_service.Common.{
  ℕ, zero, suc, ◌+◌, ◌*◌, min, Bool, true, false, not, ◌&&◌, Option, leb, ltb, if◌then◌else◌,
}
use Prim.Native.Nat.{◌^◌}
use codelab_auth_service.Settings.{Settings}
use codelab_auth_service.EmailSender.{
  Failure, auth_failed, response, timed_out, connection_lost, unexpected, Outcome, done, raised,
  or_default,
}

-- How many values `random.random()` takes.
abbrev pub draws : ℕ
draws = 2 ^ 53

-- The unit of the delays: a second is so many of them.
abbrev pub second : ℕ
second = 10 * draws

-- backoff + backoff * 0.1 * (2 * k / 2^53 - 1)
unfoldable pub calculate_backoff : ℕ → ℕ → ℕ → ℕ → ℕ
calculate_backoff attempt base_delay max_backoff k =
    min (base_delay * 2 ^ attempt) max_backoff * (9 * draws + 2 * k)

unfoldable pub should_retry : Failure → Bool
should_retry (auth_failed code) = leb 400 code && ltb code 500
should_retry (response code) = leb 400 code && ltb code 500
should_retry timed_out = true
should_retry connection_lost = true
should_retry unexpected = false

-- What the loop works on: the sender, the random numbers and the clock of the event loop.
pub record World : Type 1 where
  pub State : Type 0
  pub send : State → Outcome Bool × State
  pub random : State → ℕ × State
  pub sleep : ℕ → State → State

module _ (w : World) (max_retries base_delay : ℕ) where
  -- `backoff = …; await asyncio.sleep(backoff)`
  unfoldable pub pause : ℕ → w.State → w.State
  unfolding calculate_backoff
  pause attempt s =
      let (k, s') = w.random s in w.sleep (calculate_backoff attempt base_delay 300 k) s'

  -- The loop over the attempts, by the number of rounds that `range` has left.
  unfoldable pub attempts : ℕ → ℕ → w.State → Bool × w.State
  unfolding pause should_retry
  attempts zero attempt s = (false, s)
  attempts (suc rounds) attempt s =
      let (outcome, s1) = w.send s in
      elim outcome [
        | done success ↦ (success, s1)
        | raised error ↦ elim (should_retry error && not (leb max_retries attempt)) [
          | true ↦ attempts rounds (attempt + 1) (pause attempt s1)
          | false ↦ (false, s1)
        ]
      ]

unfoldable pub send_with_retry : (w : World) → Settings → Option ℕ → ℕ → w.State → Bool × w.State
unfolding attempts
send_with_retry w settings max_retries base_delay =
    let retries = or_default max_retries settings.smtp_max_retries in
    attempts w retries base_delay (retries + 1) 0
