-- ===== src/TokenBlacklist/Revocation.antt =====
-- What `revoke_token` promises `is_token_revoked`.
use codelab_auth_service.Common.{ℕ, ◌<◌, String, ◌≡◌, true, Option, none, [], ◌∷◌}
use codelab_auth_service.Redis.Store.{Value, one, document, Store, IsLawful}
use codelab_auth_service.TokenBlacklist.{
  Dict, blacklist_key, user_tokens_key, metadata_key, ttl_of, metadata_dict, with_metadata,
}

module _ (r : Store) (lawful : IsLawful r) where
  module _ (jti user_id : String) (exp : ℕ) (reason : String) (admin_id : Option String)
      (metadata : Option Dict) (now : ℕ) (s : r.State) (up : r.up s ≡ true)
      (free : r.lookup s (user_tokens_key user_id) ≡ none) (live : now < exp) where
    abbrev s1 : r.State
    s1 = (r.setex (blacklist_key jti) (ttl_of now exp) one s).1

    abbrev s2 : r.State
    s2 = (r.sadd (user_tokens_key user_id) (jti ∷ []) s1).1

    abbrev s3 : r.State
    s3 = (r.expire (user_tokens_key user_id) (ttl_of now exp) s2).1

    abbrev info : Value
    unfolding metadata_dict with_metadata
    info = document (with_metadata metadata (metadata_dict user_id reason now admin_id))

    abbrev s4 : r.State
    s4 = (r.setex (metadata_key jti) (ttl_of now exp) info s3).1
