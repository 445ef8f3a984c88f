-- ===== src/PasswordResetEndpoint/SharedLockout.antt =====
-- The lockout of the confirmation is one for all addresses.
use codelab_auth_service.Common.{
  ℕ, ◌≤◌, ◌<◌, String, ◌≡◌, refl, ap, List, All, length, Bool, true, false, Option, none, some, [],
  ◌∷◌, arith,
}
use codelab_auth_service.BruteForce.{is_locked_out, failed_username_key, failed_ip_key}
use codelab_auth_service.BruteForce.Climb.{IsClimb, locked-IsClimb}
use codelab_auth_service.Commands.{or_else_reply}
use codelab_auth_service.Database.{Database, logged}
use codelab_auth_service.Handlers.{Reply, reply, State}
use codelab_auth_service.Handlers.Frames.{log-replies}
use codelab_auth_service.Redis.Interface.{Redis, IsLawful}
use codelab_auth_service.Settings.{Settings}
use codelab_auth_service.TokenEndpoint.{HttpRequest, ip_of, or_text}
use codelab_auth_service.Validators.{Reason, validate_password}
use codelab_auth_service.PasswordResetEndpoint.{
  PasswordResetConfirm, passwords_match, server_error, confirm_unlocked, confirm_valid,
  confirm_password_reset,
}
use codelab_auth_service.PasswordResetEndpoint.Attempts.{
  Attempt, lasting, confirm_all, IsBad, attempts-IsClimb,
}

module _ (r : Redis) (settings : Settings) (sha256 hash : String → String) (request : HttpRequest)
    (clock : ℕ → ℕ) (draw : ℕ → String) (text_of_reason : Reason → String)
    (form : PasswordResetConfirm) where
  locked_answer :
      (locked : Bool × Option String) (s : State r)
      → locked.0 ≡ true
      → logged (draw 0) s.1.audits ≡ false
      → (confirm_unlocked r settings sha256 hash request clock draw form locked s).0
        ≡ some (reply 429 (or_text locked.1 "Too many reset attempts"))
  unfolding confirm_unlocked
  locked_answer (true, msg) s e free =
      log-replies (draw 0) (clock 0) "PASSWORD_RESET_BRUTE_FORCE_DETECTED" none
        (("client_ip", some (ip_of request)) ∷ []) r
        (reply 429 (or_text msg "Too many reset attempts")) s free
  locked_answer (false, msg) s e free = cc e

  -- While the Redis server answers, for a threshold and a lockout duration above 0, and from a time
  -- when neither the confirmation nor any address had a counter of failures: confirmations from
  -- whatever addresses, each with two matching passwords that pass the rules and a token that is good
  -- for nobody at that time, as many as the threshold or more and within the lockout duration, lock the
  -- confirmation for everybody. One more, from any address, its token good or bad, is answered 429 if
  -- its two passwords match and pass the rules. The identifier of its audit entry is fresh, and none of
  -- the attempts' is the same.
  pub failures_lock_everyone :
      IsLawful r
      → (attempts : List Attempt) (redis : r.State) (db : Database) → r.up redis ≡ true
      → 0 < settings.brute_force_lockout_duration
      → 0 < settings.brute_force_threshold
      → r.peek redis (failed_username_key "password_reset") ≡ none
      → ((ip_address : String) → r.peek redis (failed_ip_key ip_address) ≡ none)
      → All (IsBad r settings sha256 hash text_of_reason (draw 0) db.resets) attempts
      → settings.brute_force_threshold ≤ length attempts
      → lasting attempts < settings.brute_force_lockout_duration
      → passwords_match form ≡ true
      → validate_password settings form.password ≡ none
      → logged (draw 0) db.audits ≡ false
      → let s = confirm_all r settings sha256 hash text_of_reason attempts (redis, db) in
        (confirm_password_reset r settings sha256 hash request clock draw text_of_reason form
          s).0.status_code
        ≡ 429
  unfolding confirm_password_reset confirm_valid
  failures_lock_everyone lawful attempts redis db up pos some_needed eu ei bad many lt same strong
        free =
      let s = confirm_all r settings sha256 hash text_of_reason attempts (redis, db) in
      let duration = settings.brute_force_lockout_duration in
      let start : IsClimb r lawful settings "password_reset" 0 duration redis = record {
        is_up = up;
        named = eu;
        fresh = ground arith;
        bounded = λ i. rw (ei i) refl;
      } in
      let (left, c, free') =
        attempts-IsClimb r settings sha256 hash text_of_reason (draw 0) lawful attempts 0 duration
          db.resets (redis, db) pos some_needed (omega arith) (omega arith) lt refl bad free
          start in
      let lock = is_locked_out r settings "password_reset" (ip_of request) s.0 in
      let locked : lock.0.0 ≡ true = ground (
        arith,
        locked-IsClimb r lawful settings "password_reset" (ip_of request)
            settings.brute_force_threshold left s.0 some_needed (omega arith) c,
      ) in
      let after =
        confirm_unlocked r settings sha256 hash request clock draw form lock.0 (lock.1, s.1) in
      rw (same, strong)
        (ap (λ (a : Reply). a.status_code)
          (or_else_reply server_error (reply 429 (or_text lock.0.1 "Too many reset attempts")) after
            (locked_answer lock.0 (lock.1, s.1) locked free')))
