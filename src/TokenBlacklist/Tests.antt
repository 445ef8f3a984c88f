-- ===== src/TokenBlacklist/Tests.antt =====
-- Runs of the blacklist on the server in memory, and its theorems at concrete data.
use codelab_auth_service.Common.{◌≡◌, refl, true, false, none, some, [], ◌∷◌, ◌==◌, if◌then◌else◌}
use codelab_auth_service.Redis.Interface.{listed}
use codelab_auth_service.Redis.Store.{Json, text, one, document}
use codelab_auth_service.Redis.StoreMemory.{Shelf, shelf, shelf-IsLawful, empty_shelf}
use codelab_auth_service.TokenBlacklist.{
  revoke_token, revoke_all_user_tokens, is_token_revoked, get_token_metadata, cleanup_user_tokens,
  user_tokens_key, blacklist_key,
}
use codelab_auth_service.TokenBlacklist.Batch.{all_live_revoked}
use codelab_auth_service.TokenBlacklist.Cleanup.{cleanup_keeps_blacklisted, is_blacklisted}

metadata_read :
    (get_token_metadata shelf "t1"
      (revoke_token shelf "t1" "u1" 8200 "leak"
        (some "admin")
        (some (("reason", text "r") ∷ []))
        1000
        empty_shelf).1).0
    ≡ some (
        some (
          document (
            ("user_id", text "u1")
            ∷ ("reason", text "r")
            ∷ ("revoked_at", Json.number 1000)
            ∷ ("admin_id", text "admin")
            ∷ [])))
unfolding get_token_metadata revoke_token
metadata_read = refl

all_live_revoked_example :
    ((revoke_all_user_tokens shelf "u1" "user_deleted" none 1000
        (("t1", 900) ∷ ("t2", 5000) ∷ [])
        empty_shelf).0
      ≡ some 1)
    × ((is_token_revoked shelf "t2"
          (revoke_all_user_tokens shelf "u1" "user_deleted" none 1000
            (("t1", 900) ∷ ("t2", 5000) ∷ [])
            empty_shelf).1).0
        ≡ some true)
unfolding is_token_revoked
all_live_revoked_example =
    all_live_revoked shelf shelf-IsLawful "u1" "user_deleted" none 1000
      (("t1", 900) ∷ ("t2", 5000) ∷ []) "t2" empty_shelf refl refl refl false refl

-- One token of the user whose entry has lapsed, and one that still has its entry.
abbrev half_lapsed : Shelf
half_lapsed = record {
  texts = λ k. if blacklist_key "t2" == k then some (one, 60) else none;
  sets = λ k. if user_tokens_key "u1" == k then "t1" ∷ "t2" ∷ [] else [];
  reachable = true;
}

cleanup_keeps_blacklisted_example :
    ((cleanup_user_tokens shelf "u1" half_lapsed).0 ≡ some 1)
    × (listed "t1"
          (shelf.members (cleanup_user_tokens shelf "u1" half_lapsed).1 (user_tokens_key "u1"))
        ≡ false)
    × (is_blacklisted shelf "t1" (cleanup_user_tokens shelf "u1" half_lapsed).1 ≡ false)
cleanup_keeps_blacklisted_example =
    cleanup_keeps_blacklisted shelf shelf-IsLawful "u1" half_lapsed "t1" refl refl
