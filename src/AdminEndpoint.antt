-- ===== src/AdminEndpoint.antt =====
-- app/api/v1/admin.py: the two handlers, over any Redis server and any stream of events. The loggers
-- are left out. `clock k` is the reading of the clock in the k-th place that reads it. The blacklist
-- and the publisher are set up. A time in an answer is the number, where the source prints it.
pub mod Active
pub mod Deletion
mod Tests
use codelab_auth_service.Common.{
  ℕ, ◌+◌, String, Bool, true, not, ◌&&◌, Option, none, some, List, [], ◌∷◌, ltb, ◌==◌, select,
  if◌then◌else◌,
}
use codelab_auth_service.Commands.{◌>>=◌, ◌>>◌, pure, or_else}
use codelab_auth_service.Database.{Database, on_users}
use codelab_auth_service.EventPublisher.{Envelope, publish_user_deleted}
use codelab_auth_service.Redis.Store.{Store}
use codelab_auth_service.RefreshToken.{RefreshToken, Table}
use codelab_auth_service.TokenBlacklist.{revoke_all_user_tokens}
use codelab_auth_service.TokenService.{timestamp}
use codelab_auth_service.User.{User, UserTable}
use codelab_auth_service.UserService.{get_by_id, store_user}

pub record DeleteUserResponse : Type 0 where
  pub status : String
  pub user_id : String
  pub tokens_revoked : ℕ
  pub event_id : String
  pub deleted_at : ℕ
  pub cascade_status : String

pub data DeletionAnswer : Type 0 where
  deleted : DeleteUserResponse → DeletionAnswer
  refused : ℕ → String → DeletionAnswer

-- The tokens that the deletion looks up.
abbrev pub is_live : String → ℕ → RefreshToken → Bool
is_live user_id now t = t.user_id == user_id && (ltb now t.expires_at && not t.revoked)

-- The list that goes to the blacklist: the primary key stands where the JTI should.
unfoldable pub token_list : Table → List (String × ℕ)
token_list [] = []
token_list (t ∷ ts) = (t.id, timestamp t.expires_at) ∷ token_list ts

-- The user's row after the deletion; `updated_at` is set by the column's `onupdate`.
abbrev pub with_deleted : ℕ → ℕ → User → User
with_deleted deleted_at now user = record user {
  is_deleted = true;
  deleted_at = some deleted_at;
  deletion_reason = some "admin_deletion";
  updated_at = now;
}

-- What `get_user` answers of a row.
pub record UserDetails : Type 0 where
  pub id : String
  pub username : String
  pub email : String
  pub is_active : Bool
  pub is_deleted : Bool
  pub deleted_at : Option ℕ
  pub deletion_reason : Option String
  pub created_at : ℕ
  pub updated_at : ℕ

abbrev pub details_of : User → UserDetails
details_of user = record {
  id = user.id;
  username = user.username;
  email = user.email;
  is_active = user.is_active;
  is_deleted = user.is_deleted;
  deleted_at = user.deleted_at;
  deletion_reason = user.deletion_reason;
  created_at = user.created_at;
  updated_at = user.updated_at;
}

-- The details; the inner `none` is the answer 404, and the outer one an exception of the lookup.
pub get_user : String → UserTable → Option (Option UserDetails) × UserTable
unfolding get_by_id
get_user user_id = do
  user ← get_by_id user_id
  pure (elim user [ none ↦ none | some u ↦ some (details_of u) ])

module _ (r : Store) {E : Type 0} (xadd : Envelope → E → Option String × E) (isoformat : ℕ → String)
    (event_id : String) (clock : ℕ → ℕ) (user_id : String) where
  abbrev pub State : Type 0
  State = r.State × E × Database

  -- Phases 4 and 5: the event and the answer.
  pub publish : User → ℕ → State → Option DeletionAnswer × State
  unfolding publish_user_deleted
  publish user tokens_revoked (redis, stream, db) =
      let (message_id, stream') =
        publish_user_deleted xadd isoformat event_id (λ i. clock (4 + i)) user_id (some user.email)
          "admin_deletion" none (some (isoformat (clock 2))) none stream in
      (
        some (elim message_id [
          | none ↦ refused 500 "Deletion successful but event publishing failed"
          | some id ↦ deleted record {
            status = "deleted";
            user_id = user_id;
            tokens_revoked = tokens_revoked;
            event_id = id;
            deleted_at = clock 2;
            cascade_status = "pending";
          }
        ]),
        (redis, stream', db),
      )

  -- The call of the table of users.
  abbrev pub on_database :
      {A : Type 0} → (Database → Option A × Database) → State → Option A × State
  on_database m (redis, stream, db) = let (reply, db') = m db in (reply, (redis, stream, db'))

  -- Phase 3: the user is marked.
  pub mark_deleted : User → ℕ → State → Option DeletionAnswer × State
  unfolding publish
  mark_deleted user tokens_revoked = do
    stored ← on_database (on_users (store_user (with_deleted (clock 2) (clock 3) user)))
    publish stored tokens_revoked

  -- Phase 2: the blacklist, which is called if there is a token.
  pub revoke_listed : User → List (String × ℕ) → State → Option DeletionAnswer × State
  unfolding mark_deleted
  revoke_listed user [] s = mark_deleted user 0 s
  revoke_listed user (t ∷ ts) (redis, stream, db) =
      let (count, redis') =
        revoke_all_user_tokens r user_id "user_deleted" none (timestamp (clock 1)) (t ∷ ts) redis in
      elim count [
        | none ↦ (some (refused 500 "Failed to revoke user tokens"), (redis', stream, db))
        | some n ↦ mark_deleted user n (redis', stream, db)
      ]

  -- Phase 1: what the lookup has found.
  pub delete_known : Option User → State → Option DeletionAnswer × State
  unfolding revoke_listed
  delete_known none s = (some (refused 404 "User not found"), s)
  delete_known (some user) (redis, stream, db) =
      if user.is_deleted
      then (some (refused 400 "User is already deleted"), (redis, stream, db))
      else revoke_listed user (token_list (select (is_live user_id (clock 0)) db.tokens))
          (redis, stream, db)

  pub delete_user : State → DeletionAnswer × State
  unfolding delete_known
  delete_user s =
      or_else (refused 500 "Internal server error during user deletion")
        ((do user ← on_database (on_users (get_by_id user_id)); delete_known user) s)
