-- ===== src/RegisterEndpoint/Tests.antt =====
-- The theorems on registration and confirmation at concrete data.
use codelab_auth_service.Common.{
  ℕ, ◌+◌, String, ◌<>◌, ◌≡◌, refl, true, false, Option, none, some, [], ◌∷◌, ◌++◌, eqb, eq_iff,
  select, if◌then◌else◌,
}
use codelab_auth_service.ConfirmationToken.{is_taken}
use codelab_auth_service.Database.{Database, logged, log_event}
use codelab_auth_service.AuditService.{log}
use codelab_auth_service.Settings.{default_settings}
use codelab_auth_service.TokenEndpoint.{HttpRequest}
use codelab_auth_service.User.{UserTable, UserCreate, occupied}
use codelab_auth_service.User.Examples.{users}
use codelab_auth_service.UserService.{register_user, get_by_email, get_by_username}
use codelab_auth_service.UserService.Keys.{IsUnique}
use codelab_auth_service.UserService.Lookups.{find}
use codelab_auth_service.EmailService.{save_confirmation_token}
use codelab_auth_service.RegisterEndpoint.{
  Answer, created, welcome_email, confirmed, refused, confirmation_email, response_of, event_of,
  register, confirm_email, after_registration, runtime_text, failure_answer,
}
use codelab_auth_service.RegisterEndpoint.Outcome.{newcomer, register_answers}
use codelab_auth_service.RegisterEndpoint.Journey.{registered_then_confirmed}
use codelab_auth_service.Text.Chars.{within_codes, begins_codes, codes, lower_codes}

abbrev browser : HttpRequest
browser = record { host = some "10.0.0.1"; user_agent = none }

abbrev hashed : String → String
hashed p = "hash of " <> p

abbrev clock : ℕ → ℕ → ℕ
clock k i = 1000 + k + i

abbrev later : ℕ → ℕ
later k = 5000 + k

abbrev draw : ℕ → String
draw k = if eqb k 0 then "cleo" else if eqb k 1 then "entry" else if eqb k 2 then "token" else "row"

abbrev draw_later : ℕ → String
draw_later k = if eqb k 0 then "second-entry" else "third-entry"

abbrev accounts : Database
accounts = record {
  clients = [];
  users = users;
  tokens = [];
  resets = [];
  confirmations = [];
  audits = [];
}

abbrev cleo : UserCreate
cleo = record { username = "cleo"; email = "cleo@example.org"; password = "secret-C1" }

abbrev ann_again : UserCreate
ann_again = record { username = "ann2"; email = "ann@example.org"; password = "secret-C1" }

users-IsUnique : IsUnique users
unfolding occupied
users-IsUnique = (refl, (refl, tt))

register_answers_example :
    let (answer, db') = register default_settings clock draw "" browser hashed ann_again accounts in
    let result : Option Answer × UserTable = (answer, db'.users) in
    result ≡ (some (refused 409 "Email already registered"), users)
unfolding find logged
register_answers_example =
    register_answers default_settings hashed "" browser clock draw ann_again accounts users-IsUnique
      refl refl

registered_then_confirmed_example :
    let (answer, db') = register default_settings clock draw "" browser hashed cleo accounts in
    let (reply, db'') = confirm_email browser later draw_later "token" db' in
    let u = newcomer default_settings hashed clock draw cleo in
    (answer
      ≡ some (
          created
            (response_of u)
            (event_of u)
            (welcome_email u ∷ confirmation_email u "token" ∷ [])))
    × (db'.users ≡ users ++ u ∷ [])
    × (u.email_confirmed ≡ false)
    × (reply ≡ confirmed "cleo")
    × (db''.users ≡ users ++ record u { email_confirmed = true; updated_at = 5002 } ∷ [])
unfolding find logged is_taken register register_user get_by_email get_by_username log log_event
    after_registration save_confirmation_token select occupied
registered_then_confirmed_example =
    registered_then_confirmed default_settings hashed "" browser clock draw browser later draw_later
      cleo accounts users-IsUnique refl refl refl refl refl refl refl
      (λ e. cc ((eq_iff "third-entry" "second-entry").1 e))

-- A race on a user name is reported as one on the address: the text of the error names the columns.
race_reported :
    failure_answer (
      runtime_text
        "UNIQUE constraint failed: users.username [SQL: INSERT INTO users (id, username, email)]")
    ≡ refused 409 "Email already registered"
unfolding runtime_text within_codes begins_codes codes lower_codes
race_reported = refl
