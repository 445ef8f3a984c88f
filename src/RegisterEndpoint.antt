-- ===== src/RegisterEndpoint.antt =====
-- app/api/v1/register.py: the two handlers. The loggers are left out. The event that `register` puts
-- into the Redis stream, whose failure is passed over, and the tasks that it starts in the background
-- are part of its answer. `clock k` are the readings of the clock in the k-th call, `draw k` is the
-- k-th value that is drawn, and `driver_text` the text of the database's IntegrityError. The answer
-- of `register` is `none` where an exception leaves the handler.
pub mod Outcome
pub mod Confirmation
pub mod Journey
mod Tests
use codelab_auth_service.Common.{
  ℕ, String, Bool, true, Option, none, some, List, [], ◌∷◌, ◌++◌, if◌then◌else◌,
}
use codelab_auth_service.AuditService.{log}
use codelab_auth_service.Commands.{◌>>=◌, pure, or_else}
use codelab_auth_service.Database.{AuditLog, Database, on_users}
use codelab_auth_service.EmailService.{save_confirmation_token, verify_confirmation_token}
use codelab_auth_service.Settings.{Settings}
use codelab_auth_service.Text.Chars.{codes, lower_codes, within_codes}
use codelab_auth_service.TokenEndpoint.{HttpRequest, ip_of}
use codelab_auth_service.User.{User, UserCreate}
use codelab_auth_service.UserService.{Registration, register_user, store_user}

pub record UserRegistrationResponse : Type 0 where
  pub id : String
  pub email : String
  pub username : String
  pub created_at : ℕ

-- The event "user.created": what its data hold.
pub record UserCreated : Type 0 where
  pub user_id : String
  pub username : String
  pub email : String
  pub is_active : Bool
  pub is_verified : Bool
  pub created_at : ℕ

pub data Task : Type 0 where
  welcome_email : User → Task
  confirmation_email : User → String → Task

pub data Answer : Type 0 where
  created : UserRegistrationResponse → UserCreated → List Task → Answer
  confirmed : (user_id : String) → Answer
  refused : ℕ → String → Answer

-- `request.headers.get("user-agent", "unknown")`
abbrev pub agent_of : HttpRequest → String
agent_of request = elim request.user_agent [ none ↦ "unknown" | some agent ↦ agent ]

-- `word in text.lower()`
abbrev pub mentions : String → String → Bool
mentions word text = within_codes (codes word) (lower_codes text)

-- The text of the RuntimeError that `register_user` makes of an IntegrityError.
unfoldable pub runtime_text : String → String
runtime_text driver_text =
    if mentions "unique constraint" driver_text
    then if mentions "email" driver_text
      then "Email already registered (race condition)"
      else if mentions "username" driver_text
      then "Username already taken (race condition)"
      else "Database error during registration"
    else "Database error during registration"

abbrev pub response_of : User → UserRegistrationResponse
response_of user = record {
  id = user.id;
  email = user.email;
  username = user.username;
  created_at = user.created_at;
}

abbrev pub event_of : User → UserCreated
event_of user = record {
  user_id = user.id;
  username = user.username;
  email = user.email;
  is_active = user.is_active;
  is_verified = user.is_verified;
  created_at = user.created_at;
}

-- The answer to a ValueError.
abbrev pub conflict_answer : String → Answer
conflict_answer error_msg =
    refused 409
      (if mentions "email" error_msg then "Email already registered" else "Username already taken")

-- The answer to a RuntimeError.
abbrev pub failure_answer : String → Answer
failure_answer error_msg =
    if mentions "race condition" error_msg
    then refused 409 (
        if mentions "email" error_msg then "Email already registered" else "Username already taken")
    else refused 500 "An error occurred during registration"

-- The confirmation: the flag is set, and the column's `onupdate` sets the time where the row changes.
abbrev pub with_confirmed : ℕ → User → User
with_confirmed now user =
    if user.email_confirmed then user else record user { email_confirmed = true; updated_at = now }

abbrev pub welcome : Settings → User → List Task
welcome settings user = if settings.send_welcome_email then welcome_email user ∷ [] else []

module _ (settings : Settings) (clock : ℕ → ℕ → ℕ) (draw : ℕ → String) where
  -- The tasks for mails, with the token of a confirmation saved before its mail is sent.
  abbrev pub schedule : User → Database → List Task × Database
  schedule user db =
      if settings.require_email_confirmation
      then (let (saved, rows) =
            save_confirmation_token user.id (draw 2) 24 (draw 3) (clock 2) db.confirmations in
          (
            welcome settings user ++ (if saved then confirmation_email user (draw 2) ∷ [] else []),
            record db { confirmations = rows },
          ))
      else (welcome settings user, db)

  -- After the audit entry of a registration.
  abbrev pub finish_registration : User → Database → Option Answer × Database
  finish_registration user db =
      let (tasks, db') = schedule user db in
      (some (created (response_of user) (event_of user) tasks), db')

  module _ (driver_text : String) (request : HttpRequest) where
    -- The audit entries of the outcomes.
    abbrev pub success_entry : User → Database → Option AuditLog × Database
    success_entry user =
        log (draw 1) (clock 1 0) "REGISTRATION_ATTEMPT_SUCCESS" (some user.id) none (
          some (
            ("email", some user.email)
            ∷ ("username", some user.username)
            ∷ ("client_ip", some (ip_of request))
            ∷ ("user_agent", some (agent_of request))
            ∷ []))

    abbrev pub conflict_entry : UserCreate → String → Database → Option AuditLog × Database
    conflict_entry user_data error_msg =
        log (draw 1) (clock 1 0)
          (if mentions "email" error_msg
            then "REGISTRATION_DUPLICATE_EMAIL"
            else "REGISTRATION_DUPLICATE_USERNAME")
          none none
          (some (
            ("attempted_email", if mentions "email" error_msg then some user_data.email else none)
            ∷ (
              "attempted_username",
              if mentions "username" error_msg then some user_data.username else none,
            )
            ∷ ("client_ip", some (ip_of request))
            ∷ ("user_agent", some (agent_of request))
            ∷ []))

    abbrev pub failure_entry : UserCreate → String → Database → Option AuditLog × Database
    failure_entry user_data error_msg =
        log (draw 1) (clock 1 0) "REGISTRATION_ATTEMPT_FAILED" none none (
          some (
            ("email", some user_data.email)
            ∷ ("username", some user_data.username)
            ∷ ("failure_reason", some error_msg)
            ∷ ("client_ip", some (ip_of request))
            ∷ ("user_agent", some (agent_of request))
            ∷ []))

    unfoldable pub after_registration :
        UserCreate → Registration → Database → Option Answer × Database
    after_registration user_data (Registration.registered user) =
        success_entry user >>= λ _. finish_registration user
    after_registration user_data (Registration.value_error error_msg) =
        conflict_entry user_data error_msg >>= λ _. pure (conflict_answer error_msg)
    after_registration user_data Registration.integrity_error =
        failure_entry user_data (runtime_text driver_text) >>= λ _.
        pure (failure_answer (runtime_text driver_text))
    after_registration user_data Registration.raised = λ db. (none, db)

    unfoldable pub register : (String → String) → UserCreate → Database → Option Answer × Database
    unfolding after_registration
    register hash user_data db =
        let (outcome, users) = register_user settings hash user_data (draw 0) (clock 0) db.users in
        after_registration user_data outcome (record db { users = users })

-- The confirmation. The audit entry of the handler is the second one that is drawn.
module _ (request : HttpRequest) (clock : ℕ → ℕ) (draw : ℕ → String) where
  abbrev pub confirmed_entry : User → Database → Option AuditLog × Database
  confirmed_entry user = log (draw 1) (clock 3) "EMAIL_CONFIRMED" (some user.id) none (
      some (
        ("email", some user.email)
        ∷ ("client_ip", some (ip_of request))
        ∷ ("user_agent", some (agent_of request))
        ∷ []))

  abbrev pub unconfirmed_entry : Database → Option AuditLog × Database
  unconfirmed_entry = log (draw 1) (clock 2) "EMAIL_CONFIRMATION_FAILED" none none (
      some (
        ("reason", some "invalid_or_expired_token")
        ∷ ("client_ip", some (ip_of request))
        ∷ ("user_agent", some (agent_of request))
        ∷ []))

  unfoldable pub set_confirmed : User → Database → Option Answer × Database
  set_confirmed user = do
    stored ← on_users (store_user (with_confirmed (clock 2) user))
    entry ← confirmed_entry user
    pure (confirmed user.id)

  unfoldable pub confirm_found : Option User → Database → Option Answer × Database
  unfolding set_confirmed
  confirm_found none =
      unconfirmed_entry >>= λ _. pure (refused 400 "Invalid or expired confirmation token")
  confirm_found (some user) = set_confirmed user

  unfoldable pub confirm_email : String → Database → Answer × Database
  unfolding confirm_found verify_confirmation_token
  confirm_email token db =
      let (user, db') = verify_confirmation_token (draw 0) (clock 0) (clock 1) token db in
      or_else (refused 500 "An error occurred during email confirmation") (confirm_found user db')
