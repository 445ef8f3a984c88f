-- ===== src/AdminEndpoint/Tests.antt =====
-- The theorem on the deletion of a user at concrete data.
use codelab_auth_service.Common.{
  ◌==◌, if◌then◌else◌, ℕ, ◌+◌, String, ◌≡◌, refl, true, false, Option, some, List, [], ◌∷◌, select,
}
use codelab_auth_service.Database.{Database}
use codelab_auth_service.EventPublisher.{Envelope, publish_user_deleted, publish_event}
use codelab_auth_service.Redis.StoreMemory.{shelf, shelf-IsLawful, empty_shelf}
use codelab_auth_service.RefreshToken.Examples
use codelab_auth_service.RefreshToken.Examples.{active_row}
use codelab_auth_service.TokenBlacklist.{is_token_revoked}
use codelab_auth_service.Settings.{default_settings}
use codelab_auth_service.User.{occupied}
use codelab_auth_service.User.Examples.{ann, users}
use codelab_auth_service.UserService.{admits}
use codelab_auth_service.UserService.Keys.{IsUnique}
use codelab_auth_service.UserService.Lookups.{find}
use codelab_auth_service.AdminEndpoint.{token_list, deleted, with_deleted, delete_user}
use codelab_auth_service.AdminEndpoint.Deletion.{deletion_marks}

abbrev xadd : Envelope → List Envelope → Option String × List Envelope
xadd e stream = (some "1-0", e ∷ stream)

abbrev isoformat : ℕ → String
isoformat t = "now"

abbrev clock : ℕ → ℕ
clock k = 5 + k

abbrev accounts : Database
accounts = record {
  clients = [];
  users = users;
  tokens = Examples.rows;
  resets = [];
  confirmations = [];
  audits = [];
}

users-IsUnique : IsUnique users
unfolding occupied
users-IsUnique = (refl, (refl, tt))

deletion_marks_example :
    let (answer, s') =
      delete_user shelf xadd isoformat "event" clock "ann" (empty_shelf, [], accounts) in
    (answer
      ≡ deleted record {
        status = "deleted";
        user_id = "ann";
        tokens_revoked = 1;
        event_id = "1-0";
        deleted_at = 7;
        cascade_status = "pending";
      })
    × ((id : String)
        → find (λ v. v.id == id) s'.2.users ≡ (
            if id == "ann"
            then some (record ann {
              is_deleted = true;
              deleted_at = some 7;
              deletion_reason = some "admin_deletion";
              updated_at = 8;
            })
            else find (λ v. v.id == id) users))
    × (s'.2.tokens ≡ Examples.rows)
    × ((is_token_revoked shelf active_row.id s'.0).0 ≡ some true)
unfolding find is_token_revoked publish_user_deleted publish_event token_list select
deletion_marks_example =
    deletion_marks shelf shelf-IsLawful xadd isoformat "event" clock "ann" empty_shelf [] accounts
      ann "1-0" "1" false users-IsUnique refl refl refl refl refl refl refl

-- The tests of a login do not read the mark: a deleted user is admitted.
deleted_admitted :
    admits default_settings (λ password hash. some true) "secret-a" (with_deleted 7 8 ann)
    ≡ some true
unfolding admits
deleted_admitted = refl
