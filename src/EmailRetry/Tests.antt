-- ===== src/EmailRetry/Tests.antt =====
-- Runs of the retry service and of the masking of addresses, and the theorems at concrete data.
use codelab_auth_service.Common.{
  ℕ, zero, suc, ◌*◌, ◌≤◌, ◌<◌, ◌≡◌, ◌↔◌, refl, Bool, true, none, some, arith,
}
use codelab_auth_service.Settings.{default_settings}
use codelab_auth_service.EmailSender.{Outcome, done, raised, timed_out, response, mask_email}
use codelab_auth_service.EmailRetry.{send_with_retry, calculate_backoff, draws, second}
use codelab_auth_service.EmailRetry.Attempts.{IsTransient, sent_run, success_iff}
use codelab_auth_service.EmailRetry.Delays.{backoff_bounds}
use codelab_auth_service.EmailRetry.Bounds.{attempts_bounded}

-- A time-out, a temporary refusal, and then success.
abbrev script : ℕ → Outcome Bool
script zero = raised timed_out
script (suc zero) = raised (response 421)
script (suc (suc n)) = done true

third_attempt : (sent_run script (λ n. 0) default_settings none 2).1.sent ≡ 3
unfolding send_with_retry
third_attempt = refl

success_iff_example :
    ((sent_run script (λ n. 0) default_settings (some 5) 2).0 ≡ true)
    ↔ ((i : ℕ) × (i ≤ 5) × (script i ≡ done true) × ((j : ℕ) → j < i → IsTransient (script j)))
success_iff_example = success_iff script (λ n. 0) default_settings (some 5) 2

attempts_bounded_example :
    (0 < (sent_run script (λ n. 7) default_settings none 2).1.sent)
    × ((sent_run script (λ n. 7) default_settings none 2).1.sent ≤ 4)
    × ((sent_run script (λ n. 7) default_settings none 2).1.slept ≤ 330 * second * 3)
attempts_bounded_example =
    attempts_bounded script (λ n. 7) default_settings none 2 (λ n. omega arith)

backoff_bounds_example :
    (9 * (16 * draws) ≤ calculate_backoff 3 2 300 5)
    × (calculate_backoff 3 2 300 5 < 11 * (16 * draws))
backoff_bounds_example = backoff_bounds 3 2 300 5 (omega arith) (omega arith) (omega arith)

masked : mask_email "ann@example.org" ≡ "a**@example.org"
unfolding mask_email
masked = refl

masked_letter : mask_email "a@b@c" ≡ "*@b@c"
unfolding mask_email
masked_letter = refl
