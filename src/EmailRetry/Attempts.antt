-- ===== src/EmailRetry/Attempts.antt =====
-- When the service reports success.
use codelab_auth_service.Common.{
  ℕ, zero, suc, ◌+◌, ◌≤◌, ◌<◌, ◌≡◌, ◌≢◌, ◌↔◌, ◌⊎◌, inl, inr, refl, ap, subst, ◌∙◌, Bool, true,
  false, not, ◌&&◌, Bool-cases, Option, arith, leb,
}
use codelab_auth_service.Settings.{Settings}
use codelab_auth_service.EmailSender.{Failure, Outcome, done, raised, or_default}
use codelab_auth_service.EmailRetry.{should_retry, World, pause, attempts, send_with_retry}

-- A world whose sender gives any sequence of outcomes and any random numbers, and which counts the
-- messages and adds up the delays.
pub record Log : Type 0 where
  pub sent : ℕ
  pub slept : ℕ

abbrev pub scripted : (ℕ → Outcome Bool) → (ℕ → ℕ) → World
scripted script drawn = record {
  State = Log;
  send = λ s. (script s.sent, record s { sent = s.sent + 1 });
  random = λ s. (drawn s.sent, s);
  sleep = λ d s. record s { slept = s.slept + d };
}

-- An attempt that raised what is worth another attempt.
abbrev pub IsTransient : Outcome Bool → Type 0
IsTransient o = (e : Failure) × (o ≡ raised e) × (should_retry e ≡ true)

pub Outcome-cases :
    (o : Outcome Bool) → ((b : Bool) × (o ≡ done b)) ⊎ ((e : Failure) × (o ≡ raised e))
Outcome-cases (done b) = inl (b, refl)
Outcome-cases (raised e) = inr (e, refl)

module _ (script : ℕ → Outcome Bool) (drawn : ℕ → ℕ) (max_retries base_delay : ℕ) where
  abbrev pub run : ℕ → ℕ → Log → Bool × Log
  run rounds attempt s = attempts (scripted script drawn) max_retries base_delay rounds attempt s

  -- An attempt from `a` on succeeds, and all from `a` to it are worth another.
  abbrev SentFrom : ℕ → Type 0
  SentFrom a =
      (i : ℕ) × (a ≤ i)
      × (i ≤ max_retries)
      × (script i ≡ done true)
      × ((j : ℕ) → a ≤ j → j < i → IsTransient (script j))

  success_now : (a : ℕ) → a ≤ max_retries → script a ≡ done true → SentFrom a
  success_now a le e = (a, omega arith, le, e, (λ j h g. absurd (omega arith)))

  -- After an attempt that does not end the loop, all depends on the later ones.
  success_later : (a : ℕ) → IsTransient (script a) → SentFrom (a + 1) → SentFrom a
  success_later a t (i, ge, le, e, before) = (
    i,
    omega arith,
    le,
    e,
    (λ j h g. elim (split_le a j h) [
      | inl same ↦ subst (λ x. IsTransient (script x)) same t
      | inr after ↦ before j after g
    ]),
  )
    where
      split_le : (a j : ℕ) → a ≤ j → (a ≡ j) ⊎ (a + 1 ≤ j)
      split_le a j h = ground arith

  -- Without success at `a` itself.
  success_split :
      (a : ℕ) → script a ≢ done true → SentFrom a → IsTransient (script a) × SentFrom (a + 1)
  success_split a other (i, ge, le, e, before) =
      let gt : a < i = later_than a i ge (λ same. other (ap script same ∙ e)) in
      (before a (omega arith) gt, (i, omega arith, le, e, (λ j h g. before j (omega arith) g)))
    where
      later_than : (a i : ℕ) → a ≤ i → a ≢ i → a < i
      later_than a i h n = ground arith

  -- The state after an attempt, and after the pause that may follow it.
  abbrev pub tried : Log → Log
  tried s = record s { sent = s.sent + 1 }

  abbrev pub paused : ℕ → Log → Log
  paused a s = pause (scripted script drawn) max_retries base_delay a (tried s)

  pub run_done :
      (rounds a : ℕ) (s : Log) (b : Bool)
      → script s.sent ≡ done b
      → run (suc rounds) a s ≡ (b, tried s)
  unfolding attempts
  run_done rounds a s b e = rw (e, attempts) refl

  pub run_stops :
      (rounds a : ℕ) (s : Log) (e : Failure)
      → script s.sent ≡ raised e
      → (should_retry e && not (leb max_retries a)) ≡ false
      → run (suc rounds) a s ≡ (false, tried s)
  unfolding attempts
  run_stops rounds a s e o stop = rw (o, stop) refl

  pub run_goes_on :
      (rounds a : ℕ) (s : Log) (e : Failure)
      → script s.sent ≡ raised e
      → (should_retry e && not (leb max_retries a)) ≡ true
      → run (suc rounds) a s ≡ run rounds (a + 1) (paused a s)
  unfolding attempts
  run_goes_on rounds a s e o on = rw (o, on) refl

  last_attempt :
      (s : Log) (b : Bool)
      → script s.sent ≡ done b
      → s.sent ≤ max_retries
      → (b ≡ true) ↔ SentFrom s.sent
  last_attempt s true e le = ((λ _. success_now s.sent le e), (λ _. refl))
  last_attempt s false e le =
      ((λ h. cc), (λ d. let (t, later) = success_split s.sent (λ h. cc (h, e)) d in cc (t.1, e)))

  success_from_iff :
      (rounds : ℕ) (s : Log)
      → rounds + s.sent ≡ max_retries + 1
      → ((run rounds s.sent s).0 ≡ true) ↔ SentFrom s.sent
  unfolding pause
  success_from_iff zero s end =
      unfold attempts in ((λ e. cc), (λ d. absurd (omega (arith, d.1, d.2))))
  success_from_iff (suc rounds) s end = elim (Outcome-cases (script s.sent)) [
    | inl (b, e) ↦ rw (run_done rounds s.sent s b e) (last_attempt s b e (omega arith))
    | inr (f, e) ↦ elim (Bool-cases (should_retry f && not (leb max_retries s.sent))) [
      | inl on ↦
          let h = success_from_iff rounds (paused s.sent s) (omega arith) in
          let t : IsTransient (script s.sent) = (f, e, ground arith) in
          rw (run_goes_on rounds s.sent s f e on) (
            (λ g. success_later s.sent t (h.0 g)),
            (λ d. h.1 (success_split s.sent (λ g. cc (g, e)) d).1),
          )
      | inr stop ↦ rw (run_stops rounds s.sent s f e stop) (
        (λ g. cc),
        (λ d.
            let (t, later) = success_split s.sent (λ g. cc (g, e)) d in
            absurd (not_after f s.sent e stop t later)),
      )
    ]
  ]
    where
      not_after :
          (f : Failure) (a : ℕ)
          → script a ≡ raised f
          → (should_retry f && not (leb max_retries a)) ≡ false
          → IsTransient (script a)
          → SentFrom (a + 1)
          → ⊥
      not_after f a e stop t later =
          let same : f ≡ t.0 = cc (e, t.1) in
          let retry : should_retry f ≡ true = ap should_retry same ∙ t.2 in
          ground (arith, later.1, later.2)

-- The retries that a call allows.
abbrev pub retries : Settings → Option ℕ → ℕ
retries settings max_retries = or_default max_retries settings.smtp_max_retries

module _ (script : ℕ → Outcome Bool) (drawn : ℕ → ℕ) (settings : Settings) (max_retries : Option ℕ)
    (base_delay : ℕ) where
  abbrev pub sent_run : Bool × Log
  unfolding send_with_retry
  sent_run =
      send_with_retry (scripted script drawn) settings max_retries base_delay
        (record { sent = 0; slept = 0 })

  -- For any sequence of outcomes of the sender: `send_with_retry` answers true exactly if some
  -- attempt, the first or one of the retries, is answered true and every attempt before it raised an
  -- error that is worth a retry.
  pub success_iff : (sent_run.0 ≡ true) ↔ (
      (i : ℕ) × (i ≤ retries settings max_retries)
      × (script i ≡ done true)
      × ((j : ℕ) → j < i → IsTransient (script j)))
  unfolding send_with_retry
  success_iff =
      let h =
        success_from_iff script drawn (retries settings max_retries) base_delay
          ((retries settings max_retries) + 1) (record { sent = 0; slept = 0 }) (omega arith) in
      (
        (λ e.
            let (i, ge, le, sent, before) = h.0 e in
            (i, le, sent, λ j lt. before j (omega arith) lt)),
        (λ d. h.1 (d.0, omega arith, d.1, d.2, λ j ge lt. d.3 j lt)),
      )
