-- ===== src/OauthClientService.antt =====
-- app/services/oauth_client_service.py: `class OAuthClientService`. A result is `none` where the
-- method raises. bcrypt, `hash_password` and `verify_password` of app/utils/crypto.py, is a
-- parameter; its test raises, here `none`, on a text that is not a hash.
pub mod Scopes
pub mod Checks
mod Tests
use codelab_auth_service.Common.{
  ℕ, String, Bool, true, false, not, ◌&&◌, Option, none, some, List, [], ◌∷◌, ◌++◌, all, select,
  scalar_one_or_none, truthy, ◌==◌, if◌then◌else◌,
}
use codelab_auth_service.Commands.{◌>>=◌, pure}
use codelab_auth_service.OauthClient.{
  GrantType, grant_type_value, OauthClient, OauthClientCreate, ClientTable, clashes,
}
use codelab_auth_service.Text.{split, join, contains, sorted_set}

unfoldable pub get_by_client_id : String → ClientTable → Option (Option OauthClient) × ClientTable
get_by_client_id client_id clients =
    (scalar_one_or_none (select (λ c. c.client_id == client_id) clients), clients)

-- `hash_password(client_secret) if client_secret`
abbrev pub secret_hash : (String → String) → Option String → Option String
secret_hash hash none = none
secret_hash hash (some secret) = if secret == "" then none else some (hash secret)

abbrev pub grant_type_values : List GrantType → List String
grant_type_values [] = []
grant_type_values (g ∷ gs) = grant_type_value g ∷ grant_type_values gs

-- The row that `create_client` makes, `id` being the drawn primary key.
abbrev pub new_client : (String → String) → OauthClientCreate → String → (ℕ → ℕ) → OauthClient
new_client hash client_data id clock = record {
  id = id;
  client_id = client_data.client_id;
  client_secret_hash = secret_hash hash client_data.client_secret;
  name = client_data.name;
  description = client_data.description;
  is_confidential = client_data.is_confidential;
  allowed_scopes = client_data.allowed_scopes;
  allowed_grant_types = some (grant_type_values client_data.allowed_grant_types);
  access_token_lifetime = client_data.access_token_lifetime;
  refresh_token_lifetime = client_data.refresh_token_lifetime;
  is_active = true;
  created_at = clock 0;
  updated_at = clock 1;
}

-- What `create_client` does with the client of that identifier that it has looked for.
pub create_unless :
    OauthClient → Option OauthClient → ClientTable → Option OauthClient × ClientTable
create_unless c (some existing) clients = (none, clients)
create_unless c none clients =
    if clashes c clients then (none, clients) else (some c, clients ++ (c ∷ []))

pub create_client :
    (String → String)
    → OauthClientCreate
    → String
    → (ℕ → ℕ)
    → ClientTable
    → Option OauthClient × ClientTable
unfolding get_by_client_id create_unless
create_client hash client_data id clock = do
  existing ← get_by_client_id client_data.client_id
  create_unless (new_client hash client_data id clock) existing

module _ (verify : String → Option String → Option Bool) where
  -- The test of the secret of a confidential client.
  unfoldable pub check_secret : OauthClient → Option String → Option (Option OauthClient)
  check_secret client none = some none
  check_secret client (some secret) =
      if secret == "" then some none else elim (verify secret client.client_secret_hash) [
        | none ↦ none
        | some false ↦ some none
        | some true ↦ some (some client)
      ]

  -- What `validate_client` does with the client that it has found.
  unfoldable pub check_client : Option String → Option OauthClient → Option (Option OauthClient)
  unfolding check_secret
  check_client secret none = some none
  check_client secret (some client) =
      if not client.is_active
      then some none
      else if client.is_confidential
      then check_secret client secret
      else some (some client)

  unfoldable pub validate_client :
      String → Option String → ClientTable → Option (Option OauthClient) × ClientTable
  unfolding get_by_client_id check_client
  validate_client client_id secret = do
    client ← get_by_client_id client_id
    (λ clients. (check_client secret client, clients))

unfoldable pub validate_grant_type : OauthClient → GrantType → Bool
validate_grant_type client grant_type = elim client.allowed_grant_types [
  | none ↦ false
  | some allowed ↦ contains allowed (grant_type_value grant_type)
]

-- The test that the set of the texts is a subset of the allowed ones.
abbrev pub are_allowed : List String → List String → Bool
are_allowed requested allowed = all (λ s. contains allowed s) requested

-- What `validate_scope` does with a scope that is not empty.
unfoldable pub check_scope : OauthClient → String → Bool × String
check_scope client scope =
    if are_allowed (split scope) (split client.allowed_scopes)
    then (true, join (sorted_set (split scope)))
    else (false, "")

unfoldable pub validate_scope : OauthClient → Option String → Bool × String
unfolding check_scope
validate_scope client none = (true, client.allowed_scopes)
validate_scope client (some scope) =
    if scope == "" then (true, client.allowed_scopes) else check_scope client scope
