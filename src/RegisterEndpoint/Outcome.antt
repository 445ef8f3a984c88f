-- ===== src/RegisterEndpoint/Outcome.antt =====
-- What a registration answers, and what it writes.
use codelab_auth_service.Common.{
  ℕ, String, ◌≡◌, refl, ap, ◌∙◌, Bool-cases, inl, inr, true, false, not, ◌&&◌, if◌then◌else◌, List,
  Option, Option-cases, none, some, [], ◌∷◌, ◌++◌, arith, ◌==◌, eq_iff, eq_refl,
}
use codelab_auth_service.Commands.{>>=-reply, pure}
use codelab_auth_service.Database.{AuditLog, Database, logged}
use codelab_auth_service.Handlers.Frames.{log-writes}
use codelab_auth_service.ConfirmationToken.{is_taken}
use codelab_auth_service.EmailService.{new_confirmation, save_confirmation_token}
use codelab_auth_service.Settings.{Settings}
use codelab_auth_service.Text.Chars.{within_codes, begins_codes, codes, lower_codes}
use codelab_auth_service.TokenEndpoint.{HttpRequest}
use codelab_auth_service.User.{User, UserTable, UserCreate, occupied}
use codelab_auth_service.UserService.{Registration, new_user, register_user}
use codelab_auth_service.UserService.Keys.{IsUnique}
use codelab_auth_service.UserService.Lookups.{find, get_by_email-find, get_by_username-find}
use codelab_auth_service.RegisterEndpoint.{
  Answer, created, refused, response_of, event_of, finish_registration, conflict_entry,
  success_entry, conflict_answer, after_registration, register, Task, welcome_email,
  confirmation_email, UserRegistrationResponse, UserCreated,
}

-- What is found nowhere is not occupied.
pub free_row :
    (u : User) (users : UserTable)
    → find (λ v. v.id == u.id) users ≡ none
    → find (λ v. v.username == u.username) users ≡ none
    → find (λ v. v.email == u.email) users ≡ none
    → occupied u users ≡ false
unfolding find occupied
free_row u [] id name email = refl
free_row u (v ∷ vs) id name email = ground (
  arith,
  free_row u vs,
  eq_iff u.id v.id,
  eq_iff v.id u.id,
  eq_iff u.username v.username,
  eq_iff v.username u.username,
  eq_iff u.email v.email,
  eq_iff v.email u.email,
  eq_refl v.id,
  eq_refl v.username,
  eq_refl v.email,
)

email_conflict : conflict_answer "Email already registered" ≡ refused 409 "Email already registered"
unfolding within_codes begins_codes codes lower_codes
email_conflict = refl

username_conflict : conflict_answer "Username already taken" ≡ refused 409 "Username already taken"
unfolding within_codes begins_codes codes lower_codes
username_conflict = refl

-- The user that a registration adds.
abbrev pub newcomer : Settings → (String → String) → (ℕ → ℕ → ℕ) → (ℕ → String) → UserCreate → User
newcomer settings hash clock draw user_data =
    new_user hash user_data (not settings.require_email_confirmation) (draw 0) (clock 0)

module _ (settings : Settings) (hash : String → String) (driver_text : String)
    (request : HttpRequest) (clock : ℕ → ℕ → ℕ) (draw : ℕ → String) where
  outcome :
      (user_data : UserCreate) (users : UserTable)
      → IsUnique users
      → find (λ v. v.id == draw 0) users ≡ none
      → register_user settings hash user_data (draw 0) (clock 0) users
        ≡ elim (find (λ v. v.email == user_data.email) users) [
          | some _ ↦ (Registration.value_error "Email already registered", users)
          | none ↦ elim (find (λ v. v.username == user_data.username) users) [
            | some _ ↦ (Registration.value_error "Username already taken", users)
            | none ↦ (
              Registration.registered (newcomer settings hash clock draw user_data),
              users ++ newcomer settings hash clock draw user_data ∷ [],
            )
          ]
        ]
  unfolding register_user
  outcome user_data users k fresh = ground (
    arith,
    get_by_email-find user_data.email users k,
    get_by_username-find user_data.username users k,
    free_row (newcomer settings hash clock draw user_data) users,
  )

  -- What follows each outcome, with a fresh identifier of the audit entry.
  refusal :
      (user_data : UserCreate) (error_msg : String) (db : Database)
      → logged (draw 1) db.audits ≡ false
      → (entry : AuditLog) × (after_registration settings clock draw driver_text request user_data
            (Registration.value_error error_msg)
            db
          ≡ (some (conflict_answer error_msg), record db { audits = db.audits ++ entry ∷ [] }))
  unfolding after_registration
  refusal user_data error_msg db free =
      let (entry, e) = log-writes (draw 1) _ _ none _ db free in
      (
        entry,
        >>=-reply (conflict_entry settings clock draw driver_text request user_data error_msg)
            (λ _. pure (conflict_answer error_msg)) db
            (record db { audits = db.audits ++ entry ∷ [] }) entry e,
      )

  pub creation :
      (user_data : UserCreate) (u : User) (db : Database)
      → logged (draw 1) db.audits ≡ false
      → (entry : AuditLog) × (after_registration settings clock draw driver_text request user_data
            (Registration.registered u)
            db
          ≡ finish_registration settings clock draw u
              (record db { audits = db.audits ++ entry ∷ [] }))
  unfolding after_registration
  creation user_data u db free =
      let (entry, e) = log-writes (draw 1) _ _ (some u.id) _ db free in
      (
        entry,
        >>=-reply (success_entry settings clock draw driver_text request u)
            (λ _. finish_registration settings clock draw u) db
            (record db { audits = db.audits ++ entry ∷ [] }) entry e,
      )

  pub register_new :
      (user_data : UserCreate) (db : Database)
      → IsUnique db.users
      → find (λ v. v.id == draw 0) db.users ≡ none
      → logged (draw 1) db.audits ≡ false
      → find (λ v. v.email == user_data.email) db.users ≡ none
      → find (λ v. v.username == user_data.username) db.users ≡ none
      → (entry : AuditLog) × (register settings clock draw driver_text request hash user_data db
          ≡ finish_registration settings clock draw
              (newcomer settings hash clock draw user_data)
              (record db {
                users = db.users ++ newcomer settings hash clock draw user_data ∷ [];
                audits = db.audits ++ entry ∷ [];
              }))
  unfolding register
  register_new user_data db k fresh free new named =
      let u = newcomer settings hash clock draw user_data in
      let step : register_user settings hash user_data (draw 0) (clock 0) db.users
          ≡ (Registration.registered u, db.users ++ u ∷ []) =
        outcome user_data db.users k fresh ∙ rw (new, named) refl in
      let (entry, e) = creation user_data u (record db { users = db.users ++ u ∷ [] }) free in
      (entry, rw step e)

  -- The tasks of a registration: the welcome, and the confirmation where its token is saved.
  abbrev tasks_of : User → Database → List Task
  tasks_of u db =
      (if settings.send_welcome_email then welcome_email u ∷ [] else [])
      ++ (if settings.require_email_confirmation
            && not
                (is_taken (new_confirmation u.id (draw 2) 24 (draw 3) (clock 2)) db.confirmations)
          then confirmation_email u (draw 2) ∷ []
          else [])

  finished :
      (u : User) (db : Database) (entry : AuditLog)
      → let (answer, db') =
          finish_registration settings clock draw u
            (record db { users = db.users ++ u ∷ []; audits = db.audits ++ entry ∷ [] }) in
        ◌≡◌ {A = Option Answer × UserTable}
          (answer, db'.users)
          (some (created (response_of u) (event_of u) (tasks_of u db)), db.users ++ u ∷ [])
  unfolding save_confirmation_token
  finished u db entry =
      let row = new_confirmation u.id (draw 2) 24 (draw 3) (clock 2) in
      elim (Bool-cases settings.require_email_confirmation) [
        | inl asked ↦ elim (Bool-cases (is_taken row db.confirmations)) [
          | inl full ↦ rw (asked, full) refl
          | inr room ↦ rw (asked, room) refl
        ]
        | inr spared ↦ elim (Bool-cases settings.send_welcome_email) [
          | inl greeted ↦ rw (spared, greeted) refl
          | inr silent ↦ rw (spared, silent) refl
        ]
      ]

  -- The answer and the table of users after a registration on a table with unique columns, with fresh
  -- identifiers of the user and of the audit entry. An address that is known is refused with 409, and
  -- else a user name that is known; the two texts differ, and no user is added. In the third case the
  -- new user is the one row more, active and not verified, and confirmed exactly if the settings ask
  -- for no confirmation. The answer is 201 with its data, and its event is published. A welcome is
  -- mailed exactly if the settings ask for it, and after it a confirmation with the drawn token
  -- exactly if they ask for one and the columns of the token's row are free.
  pub register_answers :
      (user_data : UserCreate) (db : Database)
      → IsUnique db.users
      → find (λ v. v.id == draw 0) db.users ≡ none
      → logged (draw 1) db.audits ≡ false
      → let (answer, db') = register settings clock draw driver_text request hash user_data db in
        let u : User = record {
          id = draw 0;
          username = user_data.username;
          email = user_data.email;
          password_hash = hash user_data.password;
          is_active = true;
          is_verified = false;
          email_confirmed = not settings.require_email_confirmation;
          created_at = clock 0 0;
          updated_at = clock 0 1;
          last_login_at = none;
          is_deleted = false;
          deleted_at = none;
          deletion_reason = none;
        } in
        let row = new_confirmation u.id (draw 2) 24 (draw 3) (clock 2) in
        let tasks : List Task =
          (if settings.send_welcome_email then welcome_email u ∷ [] else [])
          ++ (if settings.require_email_confirmation && not (is_taken row db.confirmations)
              then confirmation_email u (draw 2) ∷ []
              else []) in
        let response : UserRegistrationResponse = record {
          id = u.id;
          email = u.email;
          username = u.username;
          created_at = u.created_at;
        } in
        let event : UserCreated = record {
          user_id = u.id;
          username = u.username;
          email = u.email;
          is_active = u.is_active;
          is_verified = u.is_verified;
          created_at = u.created_at;
        } in
        let unchanged : Option Answer → Option Answer × UserTable = λ a. (a, db.users) in
        let made : Option Answer × UserTable =
          (some (created response event tasks), db.users ++ u ∷ []) in
        let result : Option Answer × UserTable = (answer, db'.users) in
        result ≡ elim (find (λ v. v.email == user_data.email) db.users) [
          | some _ ↦ unchanged (some (refused 409 "Email already registered"))
          | none ↦ elim (find (λ v. v.username == user_data.username) db.users) [
            | some _ ↦ unchanged (some (refused 409 "Username already taken"))
            | none ↦ made
          ]
        ]
  unfolding register
  register_answers user_data db k fresh free =
      elim (Option-cases (find (λ v. v.email == user_data.email) db.users)) [
        | inr (v, taken) ↦
            let step : register_user settings hash user_data (draw 0) (clock 0) db.users
                ≡ (Registration.value_error "Email already registered", db.users) =
              outcome user_data db.users k fresh ∙ rw taken refl in
            let (_, e) = refusal user_data "Email already registered" db free in
            rw (step, taken, e, email_conflict) refl
        | inl new ↦ elim (Option-cases (find (λ v. v.username == user_data.username) db.users)) [
          | inr (v, taken) ↦
              let step : register_user settings hash user_data (draw 0) (clock 0) db.users
                  ≡ (Registration.value_error "Username already taken", db.users) =
                outcome user_data db.users k fresh ∙ rw (new, taken) refl in
              let (_, e) = refusal user_data "Username already taken" db free in
              rw (step, new, taken, e, username_conflict) refl
          | inl named ↦
              let (entry, e) = register_new user_data db k fresh free new named in
              rw (new, named)
                (ap (λ (x : Option Answer × Database). (x.0, x.1.users)) e
                  ∙ finished (newcomer settings hash clock draw user_data) db entry)
        ]
      ]
