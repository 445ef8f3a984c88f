-- ===== src/EmailRetry/Bounds.antt =====
-- How often a message is tried, and for how long the service sleeps.
use Prim.Native.Nat.{◌^◌}
use codelab_auth_service.Common.{
  ℕ, zero, suc, ◌+◌, ◌*◌, ◌≤◌, ◌<◌, min, ◌≡◌, inl, inr, subst, Bool, not, ◌&&◌, Bool-cases, Option,
  arith, leb,
}
use codelab_auth_service.Settings.{Settings}
use codelab_auth_service.EmailSender.{Outcome}
use codelab_auth_service.EmailRetry.{
  draws, second, calculate_backoff, should_retry, pause, send_with_retry,
}
use codelab_auth_service.EmailRetry.Delays.{scaled_le}
use codelab_auth_service.EmailRetry.Attempts.{
  Log, Outcome-cases, run, paused, run_done, run_stops, run_goes_on, sent_run, retries,
}

suc_eq : (n : ℕ) → suc n ≡ n + 1
suc_eq n = omega arith

module _ (script : ℕ → Outcome Bool) (drawn : ℕ → ℕ) (max_retries base_delay : ℕ) where
  -- At most so many delays of less than 330 seconds each.
  paused_slept :
      (s : Log)
      → drawn (s.sent + 1) < draws
      → (paused script drawn max_retries base_delay s.sent s).slept ≤ s.slept + 330 * second
  unfolding pause calculate_backoff
  paused_slept s small =
      let b = min (base_delay * 2 ^ s.sent) 300 in
      let short : b ≤ 300 = omega arith in
      omega (arith, scaled_le b draws (drawn (s.sent + 1)) short small)

  -- How much a run from a state on may send and sleep.
  abbrev WithinBounds : Log → Log → Type 0
  WithinBounds s s' =
      (s.sent < s'.sent)
      × (s'.sent ≤ max_retries + 1)
      × (s'.slept + 330 * second * s.sent ≤ s.slept + 330 * second * max_retries)

  -- One attempt, after which the loop ends or goes on.
  step_bounds :
      (rounds : ℕ) (s : Log)
      → rounds + s.sent ≡ max_retries
      → ((n : ℕ) → drawn n < draws)
      → (s.sent < max_retries
          → WithinBounds
              (paused script drawn max_retries base_delay s.sent s)
              (run script drawn max_retries base_delay rounds
                (s.sent + 1)
                (paused script drawn max_retries base_delay s.sent s)).1)
      → WithinBounds s (run script drawn max_retries base_delay (suc rounds) s.sent s).1
  unfolding pause
  step_bounds rounds s end small later = elim (Outcome-cases (script s.sent)) [
    | inl (b, e) ↦
        rw (run_done script drawn max_retries base_delay rounds s.sent s b e)
          (omega arith, omega arith, omega arith)
    | inr (f, e) ↦ elim (Bool-cases (should_retry f && not (leb max_retries s.sent))) [
      | inl on ↦
          let h = later (ground arith) in
          let short = paused_slept s (small (s.sent + 1)) in
          rw (run_goes_on script drawn max_retries base_delay rounds s.sent s f e on)
            (omega arith, h.1, omega (arith, h.2, short))
      | inr stop ↦
          rw (run_stops script drawn max_retries base_delay rounds s.sent s f e stop)
            (omega arith, omega arith, omega arith)
    ]
  ]

  run_bounds :
      (rounds : ℕ) (s : Log)
      → rounds + s.sent ≡ max_retries
      → ((n : ℕ) → drawn n < draws)
      → WithinBounds s (run script drawn max_retries base_delay (suc rounds) s.sent s).1
  unfolding pause
  run_bounds zero s end small = step_bounds zero s end small (λ lt. absurd (omega arith))
  run_bounds (suc rounds) s end small = step_bounds (suc rounds) s end small (λ lt.
      run_bounds rounds (paused script drawn max_retries base_delay s.sent s) (omega arith) small)

module _ (script : ℕ → Outcome Bool) (drawn : ℕ → ℕ) (settings : Settings) (max_retries : Option ℕ)
    (base_delay : ℕ) where
  -- For any sequence of outcomes of the sender and any random numbers: `send_with_retry` ends after
  -- one attempt at least and one more than the retries at most, and has slept for at most 330
  -- seconds for each retry.
  pub attempts_bounded :
      ((n : ℕ) → drawn n < draws)
      → (0 < (sent_run script drawn settings max_retries base_delay).1.sent)
        × ((sent_run script drawn settings max_retries base_delay).1.sent
            ≤ (retries settings max_retries) + 1)
        × ((sent_run script drawn settings max_retries base_delay).1.slept
            ≤ 330 * second * (retries settings max_retries))
  unfolding send_with_retry
  attempts_bounded small =
      let unsent : Log = record { sent = 0; slept = 0 } in
      let h =
        subst
          (λ n.
            WithinBounds script drawn (retries settings max_retries) base_delay unsent
              (run script drawn (retries settings max_retries) base_delay n 0 unsent).1)
          (suc_eq (retries settings max_retries))
          (run_bounds script drawn (retries settings max_retries) base_delay
            (retries settings max_retries) unsent (omega arith) small) in
      (h.0, h.1, omega (arith, h.2))
