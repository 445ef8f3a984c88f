-- ===== src/PasswordResetEndpoint/Confirmation.antt =====
-- A confirmation with a good token sets the password, and the token is spent.
use codelab_auth_service.Common.{
  ℕ, String, ◌≡◌, ◌≢◌, refl, ap, ◌∙◌, Bool, true, false, Option, none, some, [], ◌∷◌, arith, ◌==◌,
  eq_refl, eq-false_of_ne,
}
use codelab_auth_service.AuditService.{log}
use codelab_auth_service.BruteForce.{is_locked_out}
use codelab_auth_service.Commands.{or_else_state, or_else_reply}
use codelab_auth_service.Database.{Database, logged, log_event}
use codelab_auth_service.Handlers.{reply, State}
use codelab_auth_service.PasswordReset.{ResetTable, verify_token, mark_token_used}
use codelab_auth_service.PasswordReset.Rows.{IsKeyed}
use codelab_auth_service.PasswordReset.Use.{verify-find, mark-replies, used_once}
use codelab_auth_service.Redis.Interface.{Redis}
use codelab_auth_service.Settings.{Settings}
use codelab_auth_service.TokenEndpoint.{HttpRequest, ip_of}
use codelab_auth_service.User.{User, UserTable}
use codelab_auth_service.UserService.{store_user, write_row, conflicts}
use codelab_auth_service.UserService.Keys.{IsUnique}
use codelab_auth_service.UserService.Lookups
use codelab_auth_service.UserService.Lookups.{get_by_id-find, find-In}
use codelab_auth_service.UserService.Named.{conflicts-In}
use codelab_auth_service.Validators.{Reason, validate_password}
use codelab_auth_service.PasswordResetEndpoint.{
  PasswordResetConfirm, passwords_match, server_error, set_password, confirm_user, confirm_token,
  confirm_unlocked, confirm_valid, confirm_password_reset,
}

-- The user with a new hash.
abbrev pub with_password : String → ℕ → User → User
with_password password_hash now u = record u { password_hash = password_hash; updated_at = now }

conflicts-with_password :
    (password_hash : String) (now : ℕ) (u : User) (users : UserTable)
    → conflicts (with_password password_hash now u) users ≡ conflicts u users
unfolding conflicts
conflicts-with_password password_hash now u [] = refl
conflicts-with_password password_hash now u (v ∷ vs) =
    rw (conflicts-with_password password_hash now u vs) refl

module _ (r : Redis) (settings : Settings) (sha256 hash : String → String) (request : HttpRequest)
    (clock : ℕ → ℕ) (draw : ℕ → String) (text_of_reason : Reason → String)
    (form : PasswordResetConfirm) where
  abbrev pub new_row : User → User
  new_row u = with_password (hash form.password) (clock 1) u

  password_is_set :
      (u : User) (redis : r.State) (db : Database)
      → store_user (new_row u) db.users ≡ (some (new_row u), write_row (new_row u) db.users)
      → (marked : Bool) → (mark_token_used sha256 (clock 2) form.token db.resets).0 ≡ some marked
      → logged (draw 0) db.audits ≡ false
      → let (answer, s') =
          set_password r settings sha256 hash request clock draw form u (redis, db) in
        (answer ≡ some (reply 200 "Password successfully reset"))
        × (s'.1.users ≡ write_row (new_row u) db.users)
        × (s'.1.resets ≡ (mark_token_used sha256 (clock 2) form.token db.resets).1)
        × (s'.1.tokens ≡ db.tokens)
  unfolding set_password log log_event
  password_is_set u redis db stored marked mark free =
      (ground arith, ground arith, ground arith, ground arith)

  -- The stages before it, each by the answer that it waits for.
  reaches_token :
      (redis : r.State) (db : Database) (msg : Option String) (uid : Option String)
      → IsKeyed db.resets
      → (is_locked_out r settings "password_reset" (ip_of request) redis).0 ≡ (false, msg)
      → (verify_token sha256 (clock 0) form.token db.resets).0 ≡ some uid
      → confirm_valid r settings sha256 hash request clock draw form (redis, db)
        ≡ confirm_token r settings sha256 hash request clock draw form uid
            ((is_locked_out r settings "password_reset" (ip_of request) redis).1, db)
  unfolding confirm_valid confirm_unlocked
  reaches_token redis db msg uid keyed unlocked good =
      ground (arith, verify-find sha256 (clock 0) form.token db.resets keyed)

  reaches_user :
      (s : State r) (uid : String) (u : User)
      → IsUnique s.1.users
      → uid ≢ ""
      → Lookups.find (λ v. v.id == uid) s.1.users ≡ some u
      → confirm_token r settings sha256 hash request clock draw form (some uid) s
        ≡ set_password r settings sha256 hash request clock draw form u s
  unfolding confirm_token confirm_user
  reaches_user s uid u k filled known =
      ground (arith, get_by_id-find uid s.1.users k, eq-false_of_ne uid "" filled)

  no_conflict :
      (uid : String) (u : User) (users : UserTable)
      → IsUnique users
      → Lookups.find (λ v. v.id == uid) users ≡ some u
      → conflicts (new_row u) users ≡ false
  no_conflict uid u users k known =
      conflicts-with_password (hash form.password) (clock 1) u users
      ∙ conflicts-In u users (find-In (λ v. v.id == uid) users u known) k

  -- On tables with unique columns and with a fresh identifier of the audit entry: if the passwords
  -- match and pass the rules, the address is not locked out, and the token, not empty, is good for a
  -- user that there is, the answer is 200. The user has the hash of the new password and a new time
  -- of change, every other row of the table of users and every refresh token is as it was, and the
  -- reset token is good at no time any more.
  pub password_reset_once :
      (redis : r.State) (db : Database) (msg : Option String) (uid : String) (u : User)
      → IsUnique db.users
      → IsKeyed db.resets
      → passwords_match form ≡ true
      → validate_password settings form.password ≡ none
      → (is_locked_out r settings "password_reset" (ip_of request) redis).0 ≡ (false, msg)
      → (verify_token sha256 (clock 0) form.token db.resets).0 ≡ some (some uid)
      → form.token ≢ ""
      → uid ≢ ""
      → Lookups.find (λ v. v.id == uid) db.users ≡ some u
      → logged (draw 0) db.audits ≡ false
      → (later : ℕ)
      → let (answer, s') =
          confirm_password_reset r settings sha256 hash request clock draw text_of_reason form
            (redis, db) in
        (answer ≡ reply 200 "Password successfully reset")
        × (s'.1.users ≡ write_row (new_row u) db.users)
        × (s'.1.tokens ≡ db.tokens)
        × ((verify_token sha256 later form.token s'.1.resets).0 ≡ some none)
  unfolding confirm_password_reset
  password_reset_once redis db msg uid u k keyed same strong unlocked good filled known_id known
        free later =
      let redis' = (is_locked_out r settings "password_reset" (ip_of request) redis).1 in
      let stored : store_user (new_row u) db.users
          ≡ (some (new_row u), write_row (new_row u) db.users) =
        unfold store_user in rw (no_conflict uid u db.users k known) refl in
      let (marked, mark) =
        mark-replies sha256 (clock 2) form.token db.resets keyed
          (eq-false_of_ne form.token "" filled) in
      let (ok, rows, resets, kept) = password_is_set u redis' db stored marked mark free in
      let after = set_password r settings sha256 hash request clock draw form u (redis', db) in
      let left = or_else_state server_error after in
      let spent = used_once sha256 (clock 2) form.token db.resets keyed filled later form.token in
      rw
        (
          same,
          strong,
          reaches_token redis db msg (some uid) keyed unlocked good,
          reaches_user (redis', db) uid u k known_id known,
        )
        (
          or_else_reply server_error (reply 200 "Password successfully reset") after ok,
          ap (λ (s : State r). s.1.users) left ∙ rows,
          ap (λ (s : State r). s.1.tokens) left ∙ kept,
          ap (λ (s : State r). (verify_token sha256 later form.token s.1.resets).0) left
              ∙ ap (λ (t : ResetTable). (verify_token sha256 later form.token t).0) resets
              ∙ spent
              ∙ rw (eq_refl (sha256 form.token)) refl,
        )
