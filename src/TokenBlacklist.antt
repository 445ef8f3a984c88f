-- ===== src/TokenBlacklist.antt =====
-- app/services/token_blacklist_service.py: `class TokenBlacklistService`, over any Redis server.
-- The loggers and the metrics are left out. `none` is an exception of the server, which every method
-- passes on. `now` is `int(time.time())`.
pub mod Keys
pub mod Revocation
pub mod Index
pub mod Batch
pub mod Cleanup
mod Tests
use codelab_auth_service.Common.{
  ℕ, suc, ◌+◌, ◌-◌, String, ◌<>◌, Bool, true, false, not, Option, none, some, List, [], ◌∷◌, ◌++◌,
  leb, ltb, ◌==◌, if◌then◌else◌, truthy,
}
use codelab_auth_service.Commands.{◌>>=◌, ◌>>◌, pure}
use codelab_auth_service.Redis.Store.{Json, null, text, number, Value, one, document, Store}

abbrev pub blacklist_key : String → String
blacklist_key token_jti = "token_blacklist:" <> token_jti

abbrev pub user_tokens_key : String → String
user_tokens_key user_id = "user_tokens:" <> user_id

abbrev pub metadata_key : String → String
metadata_key token_jti = "token_metadata:" <> token_jti

-- `ttl = exp_timestamp - now; if ttl < 3600: ttl = 3600`
abbrev pub ttl_of : ℕ → ℕ → ℕ
ttl_of now exp_timestamp = if ltb (exp_timestamp - now) 3600 then 3600 else exp_timestamp - now

abbrev pub Dict : Type 0
Dict = List (String × Json)

-- `dict[key] = value`: the entry is replaced, or added at the end.
put : String → Json → Dict → Dict
put key value [] = (key, value) ∷ []
put key value ((k, v) ∷ rest) =
    let rest' = put key value rest in if k == key then (key, value) ∷ rest else (k, v) ∷ rest'

-- `metadata_dict.update(metadata)`
update_dict : Dict → Dict → Dict
unfolding put
update_dict dict [] = dict
update_dict dict ((k, v) ∷ rest) = update_dict (put k v dict) rest

abbrev pub or_null : Option String → Json
or_null none = null
or_null (some s) = if s == "" then null else text s

metadata_dict : String → String → ℕ → Option String → Dict
metadata_dict user_id reason now admin_id =
    ("user_id", text user_id)
    ∷ ("reason", text reason)
    ∷ ("revoked_at", number now)
    ∷ ("admin_id", or_null admin_id)
    ∷ []

-- `if metadata: metadata_dict.update(metadata)`
with_metadata : Option Dict → Dict → Dict
unfolding update_dict
with_metadata none dict = dict
with_metadata (some metadata) dict = update_dict dict metadata

module _ (r : Store) where
  module _ (token_jti user_id : String) (exp_timestamp : ℕ) (reason : String)
      (admin_id : Option String) (metadata : Option Dict) (now : ℕ) where
    pub revoke_token : r.State → Option Bool × r.State
    unfolding metadata_dict with_metadata
    revoke_token = if leb exp_timestamp now then pure false else (do
      r.setex (blacklist_key token_jti) (ttl_of now exp_timestamp) one
      r.sadd (user_tokens_key user_id) (token_jti ∷ [])
      r.expire (user_tokens_key user_id) (ttl_of now exp_timestamp)
      r.setex (metadata_key token_jti) (ttl_of now exp_timestamp)
          (document (with_metadata metadata (metadata_dict user_id reason now admin_id)))
      pure true)

  abbrev pub Command : Type 0
  Command = r.State → Option (Unit {0}) × r.State

  module _ (user_id reason : String) (admin_id : Option String) (now : ℕ) where
    -- The loop over `token_list`: the commands put into the pipeline, and `revoked_count`.
    pub batch : List (String × ℕ) → List Command × ℕ
    unfolding metadata_dict
    batch [] = ([], 0)
    batch ((jti, exp_timestamp) ∷ rest) =
        let (commands, revoked_count) = batch rest in
        if leb exp_timestamp now then (commands, revoked_count) else (
          r.setex (blacklist_key jti) (ttl_of now exp_timestamp) one
              ∷ r.setex (metadata_key jti) (ttl_of now exp_timestamp)
                  (document (metadata_dict user_id reason now admin_id))
              ∷ commands,
          suc revoked_count,
        )

  abbrev pub jtis_of : List (String × ℕ) → List String
  jtis_of [] = []
  jtis_of ((jti, exp) ∷ rest) = jti ∷ jtis_of rest

  -- `max(exp for _, exp in token_list)`
  abbrev pub max_exp : List (String × ℕ) → ℕ
  max_exp [] = 0
  max_exp ((jti, exp) ∷ rest) = if ltb exp (max_exp rest) then max_exp rest else exp

  -- `if revoked_count > 0: …`
  pub index_commands : String → List (String × ℕ) → ℕ → ℕ → List Command
  index_commands user_id token_list now revoked_count =
      if ltb 0 revoked_count
      then r.sadd (user_tokens_key user_id) (jtis_of token_list)
        ∷ r.expire (user_tokens_key user_id) (ttl_of now (max_exp token_list))
        ∷ []
      else []

  module _ (user_id reason : String) (admin_id : Option String) (now : ℕ) where
    unfoldable pub revoke_all_user_tokens : List (String × ℕ) → r.State → Option ℕ × r.State
    unfolding index_commands
    revoke_all_user_tokens [] = pure 0
    revoke_all_user_tokens ((jti, exp) ∷ rest) =
        let token_list = (jti, exp) ∷ rest in
        let (commands, revoked_count) = batch user_id reason admin_id now token_list in
        r.execute (commands ++ index_commands user_id token_list now revoked_count)
        >> pure revoked_count

  unfoldable pub is_token_revoked : String → r.State → Option Bool × r.State
  is_token_revoked token_jti = r.exists (blacklist_key token_jti)

  -- `json.loads` of what `revoke_token` has stored gives the dictionary back.
  pub get_token_metadata : String → r.State → Option (Option Value) × r.State
  get_token_metadata token_jti = r.get (metadata_key token_jti)

  -- One round of the loop of `cleanup_user_tokens`.
  pub cleanup_one : String → String → ℕ → r.State → Option ℕ × r.State
  cleanup_one key jti expired_count = do
    exists ← r.exists (blacklist_key jti)
    if not exists then (do r.srem key jti; pure (expired_count + 1)) else pure expired_count

  pub cleanup_loop : String → List String → ℕ → r.State → Option ℕ × r.State
  unfolding cleanup_one
  cleanup_loop key [] expired_count = pure expired_count
  cleanup_loop key (jti ∷ jtis) expired_count =
      cleanup_one key jti expired_count >>= λ count. cleanup_loop key jtis count

  pub cleanup_user_tokens : String → r.State → Option ℕ × r.State
  unfolding cleanup_loop
  cleanup_user_tokens user_id = do
    jtis ← r.smembers (user_tokens_key user_id)
    cleanup_loop (user_tokens_key user_id) jtis 0
