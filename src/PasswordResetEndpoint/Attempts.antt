-- ===== src/PasswordResetEndpoint/Attempts.antt =====
-- Confirmations with a bad token, one after another: what they leave on the server.
use codelab_auth_service.Common.{
  ℕ, suc, ◌+◌, ◌-◌, ◌≤◌, ◌<◌, String, ◌≡◌, ◌≢◌, refl, sym, subst, ◌∙◌, Bool, true, false, Option,
  none, some, List, [], ◌∷◌, arith, length, All, leb, if◌then◌else◌,
}
use codelab_auth_service.AuditService.{Details, log}
use codelab_auth_service.BruteForce.{is_locked_out, record_failed_attempt}
use codelab_auth_service.BruteForce.Climb.{IsClimb, step-IsClimb}
use codelab_auth_service.Commands.{pure, or_else_state, Keeps, >>=-Keeps, >>=-reply}
use codelab_auth_service.Database.{on_resets, logged}
use codelab_auth_service.Handlers.{Reply, reply, State, on_db, log_and_reply}
use codelab_auth_service.Handlers.Frames.{IsFramed-refl, log-IsFramed, log-logged}
use codelab_auth_service.PasswordReset.{ResetTable, verify_token}
use codelab_auth_service.Redis.Interface.{Redis, IsLawful}
use codelab_auth_service.Settings.{Settings}
use codelab_auth_service.TokenEndpoint.{HttpRequest, ip_of, or_text}
use codelab_auth_service.Validators.{Reason, validate_password}
use codelab_auth_service.PasswordResetEndpoint.{
  PasswordResetConfirm, passwords_match, bad_token, server_error, refuse_token, confirm_token,
  confirm_unlocked, confirm_valid, confirm_password_reset,
}

-- One confirmation, and the seconds after it.
pub record Attempt : Type 0 where
  pub request : HttpRequest
  pub clock : ℕ → ℕ
  pub draw : ℕ → String
  pub form : PasswordResetConfirm
  pub pause : ℕ

abbrev pub lasting : List Attempt → ℕ
lasting [] = 0
lasting (a ∷ rest) = a.pause + lasting rest

module _ (r : Redis) (settings : Settings) (sha256 hash : String → String)
    (text_of_reason : Reason → String) where
  abbrev pub confirm_once : Attempt → State r → Reply × State r
  confirm_once a =
      confirm_password_reset r settings sha256 hash a.request a.clock a.draw text_of_reason a.form

  unfoldable pub confirm_all : List Attempt → State r → State r
  confirm_all [] s = s
  confirm_all (a ∷ rest) s =
      let s' = (confirm_once a s).1 in confirm_all rest (r.wait a.pause s'.0, s'.1)

module _ (r : Redis) (settings : Settings) (sha256 hash : String → String)
    (text_of_reason : Reason → String) (entry_id : String) where
  -- The form is in order, its token is good for nobody, and its audit entry is not `entry_id`.
  pub record IsBad (rows : ResetTable) (a : Attempt) : Type 0 where
    pub same : passwords_match a.form ≡ true
    pub strong : validate_password settings a.form.password ≡ none
    pub bad : (verify_token sha256 (a.clock 0) a.form.token rows).0 ≡ some none
    pub apart : a.draw 0 ≢ entry_id

  verify_token-same :
      (now : ℕ) (token : String) (rows : ResetTable) → (verify_token sha256 now token rows).1 ≡ rows
  unfolding verify_token
  verify_token-same now token rows = ground arith

  -- The server is in this state, the tokens of the resets are these, and no entry is `entry_id`.
  abbrev Holds : r.State → ResetTable → State r → Type 0
  Holds redis rows s = (s.0 ≡ redis) × (s.1.resets ≡ rows) × (logged entry_id s.1.audits ≡ false)

  logging-Keeps :
      (id : String) (now : ℕ) (event_type : String) (details : Details) (answer : Reply)
      (redis : r.State) (rows : ResetTable)
      → id ≢ entry_id
      → Keeps (Holds redis rows) (log_and_reply r id now event_type none details answer)
  logging-Keeps id now event_type details answer redis rows other =
      >>=-Keeps (Holds redis rows) (λ _. pure answer) (λ e s h. h)
        (on_db r (log id now event_type none none (some details)))
        (λ s (here, resets_are, free). (
          here,
          (log-IsFramed id now event_type none details s.1 s.1 (IsFramed-refl s.1)).same_resets
              ∙ resets_are,
          log-logged id now event_type none details entry_id s.1 other free,
        ))

  module _ (request : HttpRequest) (clock : ℕ → ℕ) (draw : ℕ → String) (form : PasswordResetConfirm)
      (other : draw 0 ≢ entry_id) where
    recorded : r.State → r.State
    recorded redis = (record_failed_attempt r settings "password_reset" (ip_of request) redis).1

    refused :
        (s : State r)
        → logged entry_id s.1.audits ≡ false
        → Holds
            (recorded s.0)
            s.1.resets
            (refuse_token r settings sha256 hash request clock draw s).1
    unfolding refuse_token recorded
    refused s free =
        logging-Keeps (draw 0) (clock 1) "PASSWORD_RESET_INVALID_TOKEN"
          (("reason", some "invalid_or_expired_token") ∷ ("client_ip", some (ip_of request)) ∷ [])
          bad_token (recorded s.0) s.1.resets other (recorded s.0, s.1) (refl, refl, free)

    by_lockout :
        (locked : Bool × Option String) (s : State r)
        → (verify_token sha256 (clock 0) form.token s.1.resets).0 ≡ some none
        → logged entry_id s.1.audits ≡ false
        → Holds
            (if locked.0 then s.0 else recorded s.0)
            s.1.resets
            (confirm_unlocked r settings sha256 hash request clock draw form locked s).1
    unfolding confirm_unlocked
    by_lockout (true, msg) s bad free =
        logging-Keeps (draw 0) (clock 0) "PASSWORD_RESET_BRUTE_FORCE_DETECTED"
          (("client_ip", some (ip_of request)) ∷ [])
          (reply 429 (or_text msg "Too many reset attempts")) s.0 s.1.resets other s
          (refl, refl, free)
    by_lockout (false, msg) s bad free =
        rw
          (>>=-reply (on_db r (on_resets (verify_token sha256 (clock 0) form.token)))
            (confirm_token r settings sha256 hash request clock draw form) s s none
            (rw (bad, verify_token-same (clock 0) form.token s.1.resets) refl))
          (unfold confirm_token in refused s free)

  -- What one attempt leaves: it is recorded unless it is locked out.
  attempted :
      (a : Attempt) (s : State r)
      → IsBad s.1.resets a
      → logged entry_id s.1.audits ≡ false
      → let lock = is_locked_out r settings "password_reset" (ip_of a.request) s.0 in
        Holds
          (if lock.0.0
            then lock.1
            else (record_failed_attempt r settings "password_reset" (ip_of a.request) lock.1).1)
          s.1.resets
          (confirm_once r settings sha256 hash text_of_reason a s).1
  unfolding confirm_password_reset confirm_valid recorded
  attempted a s b free =
      let lock = is_locked_out r settings "password_reset" (ip_of a.request) s.0 in
      rw
        (
          b.same,
          b.strong,
          or_else_state server_error (
              confirm_unlocked r settings sha256 hash a.request a.clock a.draw a.form lock.0
                (lock.1, s.1)),
        )
        (by_lockout a.request a.clock a.draw a.form b.apart lock.0 (lock.1, s.1) b.bad free)

  -- As many attempts as the threshold, and any further ones, leave the counters at the threshold.
  pub attempts-IsClimb :
      (lawful : IsLawful r) (attempts : List Attempt) (n left : ℕ) (rows : ResetTable) (s : State r)
      → 0 < settings.brute_force_lockout_duration
      → 0 < settings.brute_force_threshold
      → n ≤ settings.brute_force_threshold
      → settings.brute_force_threshold ≤ n + length attempts
      → lasting attempts < left
      → s.1.resets ≡ rows
      → All (IsBad rows) attempts
      → logged entry_id s.1.audits ≡ false
      → IsClimb r lawful settings "password_reset" n left s.0
      → (left' : ℕ) × IsClimb r lawful settings "password_reset" settings.brute_force_threshold
          left'
          (confirm_all r settings sha256 hash text_of_reason attempts s).0
        × (logged entry_id (confirm_all r settings sha256 hash text_of_reason attempts s).1.audits
            ≡ false)
  unfolding confirm_all
  attempts-IsClimb lawful [] n left rows s pos some_needed most enough lt kept bad free c =
      let all : n ≡ settings.brute_force_threshold = omega arith in
      (left, subst (λ m. IsClimb r lawful settings "password_reset" m left s.0) all c, free)
  attempts-IsClimb lawful (a ∷ rest) n left rows s pos some_needed most enough lt kept bad free c =
      let s' = (confirm_once r settings sha256 hash text_of_reason a s).1 in
      let (redis_is, resets_are, free') =
        attempted a s (subst (λ (x : ResetTable). IsBad x a) (sym kept) bad.0) free in
      let c' =
        subst
          (λ (x : r.State).
            IsClimb r lawful settings "password_reset"
              (if leb settings.brute_force_threshold n then n else suc n) (left - a.pause)
              (r.wait a.pause x))
          (sym redis_is)
          (step-IsClimb r lawful settings "password_reset" (ip_of a.request) a.pause n left s.0 pos
            some_needed most (omega arith) c) in
      attempts-IsClimb lawful rest (if leb settings.brute_force_threshold n then n else suc n)
        (left - a.pause) rows (r.wait a.pause s'.0, s'.1) pos some_needed (ground arith)
        (ground arith) (omega arith) (resets_are ∙ kept) bad.1 free' c'
