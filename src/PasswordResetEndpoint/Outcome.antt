-- ===== src/PasswordResetEndpoint/Outcome.antt =====
-- Nothing but a good token changes a password.
use codelab_auth_service.Common.{
  ℕ, String, ◌≡◌, ◌⊎◌, refl, ap, ◌∙◌, Bool, Bool-cases, inl, inr, true, false, Option, Option-cases,
  none, some, List, [], ◌∷◌, arith,
}
use codelab_auth_service.BruteForce.{is_locked_out, record_failed_attempt}
use codelab_auth_service.Commands.{◌>>=◌, or_else, or_else_state, Keeps, >>=-Keeps, >>=-reply}
use codelab_auth_service.Database.{on_resets}
use codelab_auth_service.Handlers.{Reply, reply, State, on_redis, on_db, log_and_reply}
use codelab_auth_service.Handlers.Frames.{IsFramed-refl, log_and_reply-Keeps}
use codelab_auth_service.PasswordReset.{verify_token}
use codelab_auth_service.Redis.Interface.{Redis}
use codelab_auth_service.Settings.{Settings}
use codelab_auth_service.TokenEndpoint.{HttpRequest, ip_of, or_text}
use codelab_auth_service.User.{UserTable}
use codelab_auth_service.Validators.{Reason, validate_password}
use codelab_auth_service.PasswordResetEndpoint.{
  PasswordResetConfirm, passwords_match, bad_token, server_error, refuse_token, confirm_token,
  confirm_unlocked, confirm_valid, confirm_password_reset,
}

module _ (r : Redis) (settings : Settings) (sha256 hash : String → String) (request : HttpRequest)
    (clock : ℕ → ℕ) (draw : ℕ → String) (text_of_reason : Reason → String)
    (form : PasswordResetConfirm) where
  -- The table of users is one that it was before.
  abbrev HasUsers : UserTable → State r → Type 0
  HasUsers users s = s.1.users ≡ users

  logging-Keeps :
      (id : String) (now : ℕ) (event_type : String) (user_id : Option String)
      (details : List (String × Option String)) (answer : Reply) (users : UserTable)
      → Keeps (HasUsers users) (log_and_reply r id now event_type user_id details answer)
  logging-Keeps id now event_type user_id details answer users s h =
      (log_and_reply-Keeps id now event_type user_id details r answer s.1 s
        (IsFramed-refl s.1)).same_users
      ∙ h

  refuse_token-Keeps :
      (users : UserTable)
      → Keeps (HasUsers users) (refuse_token r settings sha256 hash request clock draw)
  unfolding refuse_token
  refuse_token-Keeps users =
      >>=-Keeps (HasUsers users)
        (λ _.
          log_and_reply r (draw 0) (clock 1) "PASSWORD_RESET_INVALID_TOKEN" none
            (("reason", some "invalid_or_expired_token") ∷ ("client_ip", some (ip_of request)) ∷ [])
            bad_token)
        (λ _.
          logging-Keeps (draw 0) (clock 1) "PASSWORD_RESET_INVALID_TOKEN" none
            (("reason", some "invalid_or_expired_token") ∷ ("client_ip", some (ip_of request)) ∷ [])
            bad_token users)
        (on_redis r (record_failed_attempt r settings "password_reset" (ip_of request))) (λ s h. h)

  -- The token is good for somebody.
  abbrev IsGood : State r → Type 0
  IsGood s =
      (uid : String) × ((verify_token sha256 (clock 0) form.token s.1.resets).0 ≡ some (some uid))

  looked_up :
      (s : State r)
      → ((do
        user_id ← on_db r (on_resets (verify_token sha256 (clock 0) form.token))
        confirm_token r settings sha256 hash request clock draw form user_id)
            s).1.1.users
          ≡ s.1.users
        ⊎ IsGood s
  looked_up s = elim (Option-cases (verify_token sha256 (clock 0) form.token s.1.resets).0) [
    | inl raised ↦ inl (ground arith)
    | inr (none, bad) ↦ inl (
        ap (λ (x : Option Reply × State r). x.1.1.users)
          (>>=-reply (on_db r (on_resets (verify_token sha256 (clock 0) form.token)))
            (confirm_token r settings sha256 hash request clock draw form) s
            (on_db r (on_resets (verify_token sha256 (clock 0) form.token)) s).1 none
            (ground arith))
        ∙ unfold confirm_token in
          refuse_token-Keeps s.1.users
            (on_db r (on_resets (verify_token sha256 (clock 0) form.token)) s).1 refl)
    | inr (some uid, good) ↦ inr (uid, good)
  ]

  by_lockout :
      (locked : Bool × Option String) (s : State r)
      → (confirm_unlocked r settings sha256 hash request clock draw form locked s).1.1.users
          ≡ s.1.users
        ⊎ (locked.0 ≡ false) × IsGood s
  unfolding confirm_unlocked
  by_lockout (true, msg) s = inl (
      logging-Keeps (draw 0) (clock 0) "PASSWORD_RESET_BRUTE_FORCE_DETECTED" none
        (("client_ip", some (ip_of request)) ∷ [])
        (reply 429 (or_text msg "Too many reset attempts")) s.1.users s refl)
  by_lockout (false, msg) s = elim (looked_up s) [
    | inl same ↦ inl same
    | inr good ↦ inr (refl, good)
  ]

  abbrev lockout : State r → (Bool × Option String) × r.State
  lockout s = is_locked_out r settings "password_reset" (ip_of request) s.0

  by_form :
      (s : State r)
      → (confirm_valid r settings sha256 hash request clock draw form s).1.1.users ≡ s.1.users
        ⊎ ((lockout s).0.0 ≡ false) × IsGood s
  unfolding confirm_valid
  by_form s = by_lockout (lockout s).0 ((lockout s).1, s.1)

  refusal :
      (reason : String) (answer : Reply) (s : State r)
      → (or_else server_error (
          log_and_reply r
            (draw 0)
            (clock 0)
            "PASSWORD_RESET_VALIDATION_FAILED"
            none
            (("reason", some reason) ∷ ("client_ip", some (ip_of request)) ∷ [])
            answer
            s)).1.1.users
        ≡ s.1.users
  refusal reason answer s =
      ap (λ (t : State r). t.1.users)
        (or_else_state server_error (
          log_and_reply r (draw 0) (clock 0) "PASSWORD_RESET_VALIDATION_FAILED" none
            (("reason", some reason) ∷ ("client_ip", some (ip_of request)) ∷ []) answer s))
      ∙ logging-Keeps (draw 0) (clock 0) "PASSWORD_RESET_VALIDATION_FAILED" none
          (("reason", some reason) ∷ ("client_ip", some (ip_of request)) ∷ []) answer s.1.users s
          refl

  -- A confirmation leaves the table of users as it is, whatever it answers, unless the two passwords
  -- match and pass the rules, the address is not locked out, and the token is good for some user.
  pub password_needs_token :
      (s : State r)
      → (confirm_password_reset r settings sha256 hash request clock draw text_of_reason form
            s).1.1.users
          ≡ s.1.users
        ⊎ (passwords_match form ≡ true)
          × (validate_password settings form.password ≡ none)
          × ((is_locked_out r settings "password_reset" (ip_of request) s.0).0.0 ≡ false)
          × ((uid : String) × ((verify_token sha256 (clock 0) form.token s.1.resets).0
                ≡ some (some uid)))
  unfolding confirm_password_reset
  password_needs_token s = elim (Bool-cases (passwords_match form)) [
    | inr differ ↦
        rw differ (inl (refusal "passwords_mismatch" (reply 400 "Passwords do not match") s))
    | inl same ↦ elim (Option-cases (validate_password settings form.password)) [
      | inr (reason, weak) ↦
          rw (same, weak) (inl (refusal "weak_password" (reply 400 (text_of_reason reason)) s))
      | inl strong ↦ elim (by_form s) [
        | inl kept ↦
            rw (same, strong)
              (inl (
                ap (λ (t : State r). t.1.users)
                  (or_else_state server_error
                    (confirm_valid r settings sha256 hash request clock draw form s))
                ∙ kept))
        | inr (unlocked, good) ↦ inr (same, strong, unlocked, good)
      ]
    ]
  ]
