-- ===== src/RegisterEndpoint/Confirmation.antt =====
-- What a confirmation answers, and what it writes.
use codelab_auth_service.Common.{
  ℕ, String, ◌≡◌, ◌≢◌, refl, ap, ◌∙◌, Bool-cases, inl, inr, false, Option, none, some, List, [],
  ◌∷◌, ◌++◌, arith, select, first, ltb, ◌==◌, eq-false_of_ne, if◌then◌else◌,
}
use codelab_auth_service.AuditService.{
  log_email_confirmation_failed, log_email_confirmation_token_generated,
}
use codelab_auth_service.Commands.{>>=-reply, pure, ◌>>=◌}
use codelab_auth_service.ConfirmationToken.{EmailConfirmationToken}
use codelab_auth_service.Database.{AuditLog, Database, log_event, logged, on_users}
use codelab_auth_service.EmailService.{verify_confirmation_token}
use codelab_auth_service.EmailService.Tokens.{first-find}
use codelab_auth_service.Handlers.Frames.{logged-append, log-writes}
use codelab_auth_service.TokenEndpoint.{HttpRequest}
use codelab_auth_service.User.{User, UserTable}
use codelab_auth_service.UserService.{conflicts, store_user, write_row}
use codelab_auth_service.UserService.Keys.{IsUnique}
use codelab_auth_service.UserService.Lookups.{find, find-In}
use codelab_auth_service.UserService.Named.{conflicts-In}
use codelab_auth_service.RegisterEndpoint.{
  Answer, confirmed, refused, with_confirmed, confirmed_entry, unconfirmed_entry, set_confirmed,
  confirm_found, confirm_email,
}

-- After an audit entry, written or not, another identifier is as fresh as it was.
noted :
    (entry : AuditLog) (other : String) (db : Database)
    → logged other db.audits ≡ false
    → (other == entry.id) ≡ false
    → (audits : List AuditLog) × ((log_event entry db).1 ≡ record db { audits = audits })
      × (logged other audits ≡ false)
unfolding log_event
noted entry other db free apart = elim (Bool-cases (logged entry.id db.audits)) [
  | inl taken ↦ (db.audits, rw taken refl, free)
  | inr new ↦
      (db.audits ++ entry ∷ [], rw new refl, ground (arith, logged-append other entry db.audits))
]

conflicts-with_confirmed :
    (now : ℕ) (u : User) (users : UserTable)
    → conflicts (with_confirmed now u) users ≡ conflicts u users
unfolding conflicts
conflicts-with_confirmed now u [] = refl
conflicts-with_confirmed now u (v ∷ vs) = elim (Bool-cases u.email_confirmed) [
  | inl already ↦ rw (conflicts-with_confirmed now u vs, already) refl
  | inr unconfirmed ↦ ground (arith, conflicts-with_confirmed now u vs)
]

abbrev pair : Option User → Database → Option User × Database
pair user db = (user, db)

-- The two entries that a verification of a known token may write.
module _ (id : String) (now : ℕ) (other : String) (db : Database)
    (free : logged other db.audits ≡ false) (apart : other ≢ id) where
  failure_noted :
      (reason : String)
      → (audits : List AuditLog) × ((log_email_confirmation_failed id now reason db).1
          ≡ record db { audits = audits })
        × (logged other audits ≡ false)
  unfolding log_email_confirmation_failed
  failure_noted reason = noted _ other db free (eq-false_of_ne other id apart)

  success_noted :
      (user_id : String)
      → (audits : List AuditLog) × ((log_email_confirmation_token_generated id now user_id db).1
          ≡ record db { audits = audits })
        × (logged other audits ≡ false)
  unfolding log_email_confirmation_token_generated
  success_noted user_id = noted _ other db free (eq-false_of_ne other id apart)

-- What a verification gives on a row and the user that it names.
verified :
    (id : String) (today now : ℕ) (token other : String) (db : Database)
    (t : EmailConfirmationToken) (u : User)
    → first (select (λ v. v.token == token) db.confirmations) ≡ some t
    → find (λ v. v.id == t.user_id) db.users ≡ some u
    → logged other db.audits ≡ false
    → other ≢ id
    → (audits : List AuditLog) × (verify_confirmation_token id today now token db
        ≡ (if ltb t.expires_at today then none else some u, record db { audits = audits }))
      × (logged other audits ≡ false)
unfolding verify_confirmation_token
verified id today now token other db t u row known free apart =
    elim (Bool-cases (ltb t.expires_at today)) [
      | inl late ↦
          let (audits, e, free') = failure_noted id now other db free apart "token_expired" in
          (audits, rw (row, late) (ap (λ (d : Database). pair none d) e), free')
      | inr timely ↦
          let (audits, e, free') = success_noted id now other db free apart u.id in
          (
            audits,
            rw (row, timely, first-find t.user_id db.users, known)
                (ap (λ (d : Database). pair (some u) d) e),
            free',
          )
    ]

module _ (request : HttpRequest) (clock : ℕ → ℕ) (draw : ℕ → String) where
  refusal :
      (db : Database)
      → logged (draw 1) db.audits ≡ false
      → (entry : AuditLog) × (confirm_found request clock draw none db ≡ (
        some (refused 400 "Invalid or expired confirmation token"),
        record db { audits = db.audits ++ entry ∷ [] },
      ))
  unfolding confirm_found
  refusal db free =
      let (entry, e) = log-writes (draw 1) _ _ none _ db free in
      (
        entry,
        >>=-reply (unconfirmed_entry request clock draw)
            (λ _. pure (refused 400 "Invalid or expired confirmation token")) db
            (record db { audits = db.audits ++ entry ∷ [] }) entry e,
      )

  -- The commit of a row of the table.
  stored :
      (u : User) (id : String) (db : Database)
      → IsUnique db.users
      → find (λ v. v.id == id) db.users ≡ some u
      → on_users (store_user (with_confirmed (clock 2) u)) db ≡ (
        some (with_confirmed (clock 2) u),
        record db { users = write_row (with_confirmed (clock 2) u) db.users },
      )
  unfolding store_user
  stored u id db k known =
      let free : conflicts (with_confirmed (clock 2) u) db.users ≡ false =
        conflicts-with_confirmed (clock 2) u db.users
        ∙ conflicts-In u db.users (find-In (λ v. v.id == id) db.users u known) k in
      rw free refl

  success :
      (u : User) (id : String) (db : Database)
      → IsUnique db.users
      → find (λ v. v.id == id) db.users ≡ some u
      → logged (draw 1) db.audits ≡ false
      → (entry : AuditLog) × (confirm_found request clock draw (some u) db ≡ (
        some (confirmed u.id),
        record db {
          users = write_row (with_confirmed (clock 2) u) db.users;
          audits = db.audits ++ entry ∷ [];
        },
      ))
  unfolding confirm_found set_confirmed
  success u id db k known free =
      let db' = record db { users = write_row (with_confirmed (clock 2) u) db.users } in
      let (entry, e) = log-writes (draw 1) _ _ (some u.id) _ db' free in
      let last = λ (_ : AuditLog). pure {S = Database} (confirmed u.id) in
      (
        entry,
        >>=-reply (on_users (store_user (with_confirmed (clock 2) u)))
              (λ _. confirmed_entry request clock draw u >>= last) db db'
              (with_confirmed (clock 2) u) (stored u id db k known)
            ∙ >>=-reply (confirmed_entry request clock draw u) last db'
                (record db' { audits = db.audits ++ entry ∷ [] }) entry e,
      )

  -- The answer and the table of users after a confirmation with the token of a row, by its expiry.
  pub confirm_email_lem :
      (token : String) (db : Database) (t : EmailConfirmationToken) (u : User)
      → IsUnique db.users
      → first (select (λ v. v.token == token) db.confirmations) ≡ some t
      → find (λ v. v.id == t.user_id) db.users ≡ some u
      → logged (draw 1) db.audits ≡ false
      → draw 1 ≢ draw 0
      → let (answer, db') = confirm_email request clock draw token db in
        let result : Answer × UserTable = (answer, db'.users) in
        result ≡ (
          if ltb t.expires_at (clock 0)
          then (refused 400 "Invalid or expired confirmation token", db.users)
          else (confirmed u.id, write_row (with_confirmed (clock 2) u) db.users))
  unfolding confirm_email
  confirm_email_lem token db t u k row known free apart =
      let (audits, e, free') =
        verified (draw 0) (clock 0) (clock 1) token (draw 1) db t u row known free apart in
      elim (Bool-cases (ltb t.expires_at (clock 0))) [
        | inl late ↦
            let (_, after) = refusal (record db { audits = audits }) free' in
            rw (e, late, after) refl
        | inr timely ↦
            let (_, after) = success u t.user_id (record db { audits = audits }) k known free' in
            rw (e, timely, after) refl
      ]
