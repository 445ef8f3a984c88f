-- ===== src/TokenBlacklist/Index.antt =====
-- The commands of `revoke_all_user_tokens` for the user's set.
use codelab_auth_service.Common.{ℕ, String, ◌≡◌, ◌∙◌, true, none, List, [], arith}
use codelab_auth_service.Redis.Store.{Store, IsLawful, run_all, all_reply}
use codelab_auth_service.TokenBlacklist.{
  blacklist_key, user_tokens_key, ttl_of, jtis_of, max_exp, index_commands,
}
use codelab_auth_service.TokenBlacklist.Keys.{user_tokens-apart_blacklist, ttl_pos}

module _ (r : Store) (lawful : IsLawful r) (user_id : String) (now : ℕ) where
  -- The commands for the user's set leave the blacklist as it is.
  pub index_reply :
      (l : List (String × ℕ)) (n : ℕ) (s : r.State)
      → r.up s ≡ true
      → r.lookup s (user_tokens_key user_id) ≡ none
      → all_reply (index_commands r user_id l now n) s ≡ true
  unfolding index_commands all_reply
  index_reply l n s up free = ground (
    arith,
    lawful.sadd_reply (user_tokens_key user_id) (jtis_of r l) s up free,
    lawful.expire_reply (user_tokens_key user_id) (ttl_of now (max_exp r l))
        (r.sadd (user_tokens_key user_id) (jtis_of r l) s).1
        (lawful.sadd_up (user_tokens_key user_id) (jtis_of r l) s ∙ up),
  )

  pub index_up :
      (l : List (String × ℕ)) (n : ℕ) (s : r.State)
      → r.up s ≡ true
      → r.up (run_all (index_commands r user_id l now n) s) ≡ true
  unfolding index_commands run_all
  index_up l n s up = ground (
    arith,
    lawful.sadd_up (user_tokens_key user_id) (jtis_of r l) s,
    lawful.expire_up (user_tokens_key user_id) (ttl_of now (max_exp r l))
        (r.sadd (user_tokens_key user_id) (jtis_of r l) s).1,
  )

  pub index_lookup :
      (l : List (String × ℕ)) (n : ℕ) (s : r.State) (j : String)
      → r.up s ≡ true
      → r.lookup (run_all (index_commands r user_id l now n) s) (blacklist_key j)
        ≡ r.lookup s (blacklist_key j)
  unfolding index_commands run_all
  index_lookup l n s j up = ground (
    arith,
    lawful.sadd_lookup (user_tokens_key user_id) (blacklist_key j) (jtis_of r l) s,
    lawful.sadd_up (user_tokens_key user_id) (jtis_of r l) s,
    lawful.expire_lookup (user_tokens_key user_id) (blacklist_key j) (ttl_of now (max_exp r l))
        (r.sadd (user_tokens_key user_id) (jtis_of r l) s).1,
    ttl_pos now (max_exp r l),
    user_tokens-apart_blacklist user_id j,
  )

  pub index_members :
      (l : List (String × ℕ)) (n : ℕ) (s : r.State) (j : String)
      → r.members s (blacklist_key j) ≡ []
      → r.members (run_all (index_commands r user_id l now n) s) (blacklist_key j) ≡ []
  unfolding index_commands run_all
  index_members l n s j e = ground (
    arith,
    lawful.sadd_members (user_tokens_key user_id) (blacklist_key j) (jtis_of r l) s
        (user_tokens-apart_blacklist user_id j),
    lawful.expire_members (user_tokens_key user_id) (blacklist_key j) (ttl_of now (max_exp r l))
        (r.sadd (user_tokens_key user_id) (jtis_of r l) s).1,
    ttl_pos now (max_exp r l),
  )
