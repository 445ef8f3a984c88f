-- ===== src/RegisterEndpoint/Journey.antt =====
-- From the registration of a user to the confirmation of the address.
use codelab_auth_service.Common.{
  ℕ, ◌+◌, ◌*◌, String, ◌≡◌, ◌≢◌, refl, sym, ap, ◌∙◌, Bool, not, Bool-cases, inl, inr, true, false,
  Option, none, some, [], ◌∷◌, ◌++◌, arith, ltb, leb, ◌==◌, eq_refl, if◌then◌else◌,
}
use codelab_auth_service.ConfirmationToken.{EmailConfirmationToken, is_taken}
use codelab_auth_service.Database.{Database, logged}
use codelab_auth_service.EmailService.{new_confirmation, save_confirmation_token}
use codelab_auth_service.EmailService.Tokens.{first-append}
use codelab_auth_service.RefreshTokenService.{second}
use codelab_auth_service.Settings.{Settings}
use codelab_auth_service.TokenEndpoint.{HttpRequest}
use codelab_auth_service.User.{User, UserTable, UserCreate}
use codelab_auth_service.UserService.{write_row}
use codelab_auth_service.UserService.Keys.{IsUnique, append-IsUnique}
use codelab_auth_service.UserService.Lookups.{find}
use codelab_auth_service.RegisterEndpoint.{
  Answer, UserRegistrationResponse, UserCreated, created, welcome_email, confirmed, refused,
  confirmation_email, response_of, event_of, welcome, with_confirmed, finish_registration, register,
  confirm_email,
}
use codelab_auth_service.RegisterEndpoint.Outcome.{newcomer, register_new, free_row}
use codelab_auth_service.RegisterEndpoint.Confirmation.{confirm_email_lem}

find-last :
    (u : User) (users : UserTable)
    → find (λ v. v.id == u.id) users ≡ none
    → find (λ v. v.id == u.id) (users ++ u ∷ []) ≡ some u
unfolding find
find-last u [] fresh = ground (arith, eq_refl u.id)
find-last u (v ∷ vs) fresh = ground (arith, find-last u vs)

write_row-last :
    (u u' : User) (users : UserTable)
    → u'.id ≡ u.id
    → find (λ v. v.id == u.id) users ≡ none
    → write_row u' (users ++ u ∷ []) ≡ users ++ u' ∷ []
unfolding find write_row
write_row-last u u' [] same fresh = ground (arith, eq_refl u.id)
write_row-last u u' (v ∷ vs) same fresh = ground (arith, write_row-last u u' vs same)

abbrev pair : Answer → UserTable → Answer × UserTable
pair answer users = (answer, users)

-- The answer and the users after a confirmation by the last of them, by the expiry of the token.
by_expiry :
    (expiry today : ℕ) (u u' : User) (users : UserTable) (late timely : Answer)
    (result : Answer × UserTable)
    → u'.id ≡ u.id
    → find (λ v. v.id == u.id) users ≡ none
    → result ≡ (
        if ltb expiry today
        then (late, users ++ u ∷ [])
        else (timely, write_row u' (users ++ u ∷ [])))
    → (result.0 ≡ (if leb today expiry then timely else late))
      × (result.1 ≡ users ++ (if leb today expiry then u' else u) ∷ [])
by_expiry expiry today u u' users late timely result same fresh e =
    elim (Bool-cases (ltb expiry today)) [
      | inl over ↦
          let over' : leb today expiry ≡ false = ground arith in
          let e' : result ≡ (late, users ++ u ∷ []) = e ∙ rw over refl in
          rw (e', over') (refl, refl)
      | inr good ↦
          let good' : leb today expiry ≡ true = ground arith in
          let e' : result ≡ (timely, write_row u' (users ++ u ∷ [])) = e ∙ rw good refl in
          rw (e', good') (refl, write_row-last u u' users same fresh)
    ]

-- What a registration writes and starts where a confirmation is required.
module _ (settings : Settings) (clock : ℕ → ℕ → ℕ) (draw : ℕ → String) where
  abbrev row_of : User → EmailConfirmationToken
  row_of u = new_confirmation u.id (draw 2) 24 (draw 3) (clock 2)

  finishes :
      (u : User) (db : Database)
      → settings.require_email_confirmation ≡ true
      → is_taken (row_of u) db.confirmations ≡ false
      → finish_registration settings clock draw u db ≡ (
        some (
            created
              (response_of u)
              (event_of u)
              (welcome settings u ++ confirmation_email u (draw 2) ∷ [])),
        record db { confirmations = db.confirmations ++ row_of u ∷ [] },
      )
  unfolding save_confirmation_token
  finishes u db asked free = rw (asked, free) refl

module _ (settings : Settings) (hash : String → String) (driver_text : String)
    (request : HttpRequest) (clock : ℕ → ℕ → ℕ) (draw : ℕ → String) (request' : HttpRequest)
    (clock' : ℕ → ℕ) (draw' : ℕ → String) where
  -- Where the settings ask for a confirmation, on a table of users with unique columns, for a new
  -- address and a new user name and with fresh draws: the registration answers 201 and starts a mail
  -- with a token, after the welcome if the settings ask for one, and adds one user, active and not
  -- confirmed. A later request with this token within twenty-four hours sets the flag of this user
  -- and the time of the update and changes no other user, and one after that is refused with 400 and
  -- leaves the table of users as the registration left it.
  pub registered_then_confirmed :
      (user_data : UserCreate) (db : Database)
      → IsUnique db.users
      → find (λ v. v.id == draw 0) db.users ≡ none
      → logged (draw 1) db.audits ≡ false
      → find (λ v. v.email == user_data.email) db.users ≡ none
      → find (λ v. v.username == user_data.username) db.users ≡ none
      → settings.require_email_confirmation ≡ true
      → is_taken (new_confirmation (draw 0) (draw 2) 24 (draw 3) (clock 2)) db.confirmations ≡ false
      → logged
          (draw' 1)
          (register settings clock draw driver_text request hash user_data db).1.audits
        ≡ false
      → draw' 1 ≢ draw' 0
      → let (answer, db') = register settings clock draw driver_text request hash user_data db in
        let (reply, db'') = confirm_email request' clock' draw' (draw 2) db' in
        let u : User = record {
          id = draw 0;
          username = user_data.username;
          email = user_data.email;
          password_hash = hash user_data.password;
          is_active = true;
          is_verified = false;
          email_confirmed = not settings.require_email_confirmation;
          created_at = clock 0 0;
          updated_at = clock 0 1;
          last_login_at = none;
          is_deleted = false;
          deleted_at = none;
          deletion_reason = none;
        } in
        let expiry = clock 2 0 + 24 * 3600 * second in
        let confirmed_user : User = record u { email_confirmed = true; updated_at = clock' 2 } in
        let response : UserRegistrationResponse = record {
          id = u.id;
          email = u.email;
          username = u.username;
          created_at = u.created_at;
        } in
        let event : UserCreated = record {
          user_id = u.id;
          username = u.username;
          email = u.email;
          is_active = true;
          is_verified = false;
          created_at = u.created_at;
        } in
        (answer
          ≡ some (
              created response event (
                (if settings.send_welcome_email then welcome_email u ∷ [] else [])
                ++ confirmation_email u (draw 2) ∷ [])))
        × (db'.users ≡ db.users ++ u ∷ [])
        × (u.email_confirmed ≡ false)
        × (reply ≡ (
            if leb (clock' 0) expiry
            then confirmed u.id
            else refused 400 "Invalid or expired confirmation token"))
        × (db''.users ≡ db.users ++ (if leb (clock' 0) expiry then confirmed_user else u) ∷ [])
  registered_then_confirmed user_data db k fresh free new named asked room free' apart =
      let u = newcomer settings hash clock draw user_data in
      let (entry, e) =
        register_new settings hash driver_text request clock draw user_data db k fresh free new
          named in
      let made = record db { users = db.users ++ u ∷ []; audits = db.audits ++ entry ∷ [] } in
      let e' = e ∙ finishes settings clock draw u made asked room in
      let row = row_of settings clock draw u in
      let mailed = record made { confirmations = db.confirmations ++ row ∷ [] } in
      let c =
        confirm_email_lem request' clock' draw' (draw 2) mailed row u
          (append-IsUnique u db.users (free_row u db.users fresh named new) k)
          (first-append row db.confirmations room) (find-last u db.users fresh)
          (sym (ap (λ (x : Option Answer × Database). logged (draw' 1) x.1.audits) e') ∙ free')
          apart in
      let expiry = clock 2 0 + 24 * 3600 * second in
      let confirmed_user : User = record u { email_confirmed = true; updated_at = clock' 2 } in
      let is : with_confirmed (clock' 2) u ≡ confirmed_user =
        ap (λ (b : Bool). if not b then u else confirmed_user) asked in
      let users = db.users ++ u ∷ [] in
      let late = refused 400 "Invalid or expired confirmation token" in
      let settled =
        ap
          (λ (v : User).
            if ltb expiry (clock' 0)
            then pair late users
            else pair (confirmed u.id) (write_row v users))
          is in
      let (reply_is, row_is) =
        by_expiry expiry (clock' 0) u confirmed_user db.users late (confirmed u.id) _ refl fresh
          (c ∙ settled) in
      rw e' (refl, refl, ap (λ (b : Bool). not b) asked, reply_is, row_is)
