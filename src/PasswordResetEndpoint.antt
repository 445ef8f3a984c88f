-- ===== src/PasswordResetEndpoint.antt =====
-- app/api/v1/password_reset.py: the two handlers. The loggers are left out. The mail that the
-- request's handler sends in the background, an address with a token, is part of its answer.
-- `clock k` is the reading of the clock in the k-th call that reads it, and `draw k` the k-th value
-- that is drawn.
pub mod Requests
pub mod Confirmation
pub mod Outcome
pub mod Attempts
pub mod SharedLockout
mod Tests
use codelab_auth_service.Common.{
  ℕ, String, Bool, true, false, not, Option, none, some, List, [], ◌∷◌, ◌==◌, if◌then◌else◌, truthy,
}
use codelab_auth_service.BruteForce.{is_locked_out, record_failed_attempt, reset_failed_attempts}
use codelab_auth_service.Commands.{◌>>=◌, ◌>>◌, pure, or_else}
use codelab_auth_service.AuditService.{log}
use codelab_auth_service.Database.{Database, on_users, on_resets}
use codelab_auth_service.Handlers.{Reply, reply, State, on_redis, on_db, log_and_reply}
use codelab_auth_service.PasswordReset.{create_token, verify_token, mark_token_used}
use codelab_auth_service.RateLimiter.{check_rate_limit_username}
use codelab_auth_service.Redis.Interface.{Redis}
use codelab_auth_service.Settings.{Settings}
use codelab_auth_service.TokenEndpoint.{HttpRequest, ip_of, or_text}
use codelab_auth_service.User.{User}
use codelab_auth_service.UserService.{get_by_id, get_by_email, store_user}
use codelab_auth_service.Validators.{Reason, validate_password}

pub record PasswordResetConfirm : Type 0 where
  pub token : String
  pub password : String
  pub password_confirm : String

-- `PasswordResetConfirm.validate`
abbrev pub passwords_match : PasswordResetConfirm → Bool
passwords_match form = form.password == form.password_confirm

-- The address of a mail, and the token in it.
abbrev pub Mail : Type 0
Mail = String × String

abbrev pub sent_text : String
sent_text = "If an account with that email exists, you will receive password reset instructions."

abbrev pub bad_token : Reply
bad_token = reply 400 "Invalid or expired password reset token"

abbrev pub server_error : Reply
server_error = reply 500 "Internal server error"

module _ (r : Redis) (settings : Settings) (sha256 hash : String → String) (request : HttpRequest)
    (clock : ℕ → ℕ) (draw : ℕ → String) where
  -- The inner `try` of the request: the token, the audit entry and the mail.
  issue : User → State r → Option Mail × State r
  issue user = do
    token ← on_db r (on_resets (create_token sha256 user.id (draw 0) (draw 1) (clock 0)))
    entry ← on_db r (
        log (draw 2) (clock 1) "PASSWORD_RESET_REQUESTED" (some user.id) none
          (some (("email", some user.email) ∷ ("client_ip", some (ip_of request)) ∷ [])))
    pure (user.email, token)

  -- Its handler passes over every exception.
  try_issue : Option User → State r → Option (Option Mail) × State r
  unfolding issue
  try_issue none s = (some none, s)
  try_issue (some user) s = let (sent, s') = issue user s in (some sent, s')

  -- After the user has been looked up.
  finish_request : Option User → State r → Option (Reply × Option Mail) × State r
  unfolding try_issue
  finish_request user = do sent ← try_issue user; pure (reply 200 sent_text, sent)

  -- After the rate limiter's answer.
  continue_request : String → Bool × ℕ → State r → Option (Reply × Option Mail) × State r
  unfolding finish_request
  continue_request email (false, remaining) =
      log_and_reply r (draw 0) (clock 0) "PASSWORD_RESET_RATE_LIMIT_EXCEEDED" none
        (("email", some email) ∷ ("client_ip", some (ip_of request)) ∷ [])
        (reply 429 "Too many password reset requests. Try again later.")
      >>= λ answer. pure (answer, none)
  continue_request email (true, remaining) = do
    user ← on_db r (on_users (get_by_email email))
    finish_request user

  pub request_password_reset : String → State r → (Reply × Option Mail) × State r
  unfolding continue_request
  request_password_reset email s =
      or_else (server_error, none)
        ((do
          verdict ← on_redis r (
              check_rate_limit_username r settings email
                (some settings.password_reset_request_limit) 3600)
          continue_request email verdict)
          s)

  -- The confirmation, in reverse order. The inner `try`: the new hash, which the commit writes with
  -- the column's `onupdate`, the token's mark, the counters, and the audit entry.
  pub set_password : PasswordResetConfirm → User → State r → Option Reply × State r
  set_password form user = do
    stored ← on_db r (
        on_users
          (store_user (record user { password_hash = hash form.password; updated_at = clock 1 })))
    marked ← on_db r (on_resets (mark_token_used sha256 (clock 2) form.token))
    on_redis r (reset_failed_attempts r "password_reset" (ip_of request))
    log_and_reply r (draw 0) (clock 3) "PASSWORD_RESET_SUCCESS" (some user.id)
        (("username", some user.username) ∷ ("client_ip", some (ip_of request)) ∷ [])
        (reply 200 "Password successfully reset")

  -- The user behind the token.
  pub confirm_user : PasswordResetConfirm → Option User → State r → Option Reply × State r
  unfolding set_password
  confirm_user form none = pure bad_token
  confirm_user form (some user) = set_password form user

  -- A token that is not good.
  pub refuse_token : State r → Option Reply × State r
  refuse_token = do
    on_redis r (record_failed_attempt r settings "password_reset" (ip_of request))
    log_and_reply r (draw 0) (clock 1) "PASSWORD_RESET_INVALID_TOKEN" none
        (("reason", some "invalid_or_expired_token") ∷ ("client_ip", some (ip_of request)) ∷ [])
        bad_token

  -- What `verify_token` has found.
  pub confirm_token : PasswordResetConfirm → Option String → State r → Option Reply × State r
  unfolding confirm_user refuse_token
  confirm_token form found = elim found [
    | none ↦ refuse_token
    | some user_id ↦
        if user_id == ""
        then refuse_token
        else (do user ← on_db r (on_users (get_by_id user_id)); confirm_user form user)
  ]

  -- The answer of the brute-force protection.
  pub confirm_unlocked :
      PasswordResetConfirm → Bool × Option String → State r → Option Reply × State r
  unfolding confirm_token
  confirm_unlocked form (true, lockout_msg) =
      log_and_reply r (draw 0) (clock 0) "PASSWORD_RESET_BRUTE_FORCE_DETECTED" none
        (("client_ip", some (ip_of request)) ∷ [])
        (reply 429 (or_text lockout_msg "Too many reset attempts"))
  confirm_unlocked form (false, lockout_msg) = do
    user_id ← on_db r (on_resets (verify_token sha256 (clock 0) form.token))
    confirm_token form user_id

  pub confirm_valid : PasswordResetConfirm → State r → Option Reply × State r
  unfolding confirm_unlocked
  confirm_valid form = do
    locked ← on_redis r (is_locked_out r settings "password_reset" (ip_of request))
    confirm_unlocked form locked

  -- The text of a refused password is the reason's.
  pub confirm_password_reset : (Reason → String) → PasswordResetConfirm → State r → Reply × State r
  unfolding confirm_valid
  confirm_password_reset text_of_reason form s = or_else server_error (
      if not (passwords_match form)
      then log_and_reply r (draw 0) (clock 0) "PASSWORD_RESET_VALIDATION_FAILED" none
          (("reason", some "passwords_mismatch") ∷ ("client_ip", some (ip_of request)) ∷ [])
          (reply 400 "Passwords do not match") s
      else elim (validate_password settings form.password) [
        | some reason ↦
            log_and_reply r (draw 0) (clock 0) "PASSWORD_RESET_VALIDATION_FAILED" none
              (("reason", some "weak_password") ∷ ("client_ip", some (ip_of request)) ∷ [])
              (reply 400 (text_of_reason reason)) s
        | none ↦ confirm_valid form s
      ])
