-- ===== src/OauthClient.antt =====
-- app/models/oauth_client.py: a row of the table `oauth_clients`, and app/schemas/oauth.py:
-- `GrantType`, `OAuthClientCreate`. The column `allowed_grant_types` holds a JSON text; it is kept as
-- the array of texts that `json.loads` reads from it, or `none` where that raises.
pub mod Examples
use codelab_auth_service.Common.{ℕ, String, Bool, false, ◌||◌, Option, List, [], ◌∷◌, ◌==◌}

pub data GrantType : Type 0 where
  password refresh_token authorization_code client_credentials : GrantType

-- The value of the enumeration.
abbrev pub grant_type_value : GrantType → String
grant_type_value GrantType.password = "password"
grant_type_value GrantType.refresh_token = "refresh_token"
grant_type_value GrantType.authorization_code = "authorization_code"
grant_type_value GrantType.client_credentials = "client_credentials"

pub record OauthClient : Type 0 where
  pub id : String
  pub client_id : String
  pub client_secret_hash : Option String
  pub name : String
  pub description : Option String
  pub is_confidential : Bool
  pub allowed_scopes : String
  pub allowed_grant_types : Option (List String)
  pub access_token_lifetime : ℕ
  pub refresh_token_lifetime : ℕ
  pub is_active : Bool
  pub created_at : ℕ
  pub updated_at : ℕ

pub record OauthClientCreate : Type 0 where
  pub client_id : String
  pub client_secret : Option String
  pub name : String
  pub description : Option String
  pub is_confidential : Bool
  pub allowed_scopes : String
  pub allowed_grant_types : List GrantType
  pub access_token_lifetime : ℕ
  pub refresh_token_lifetime : ℕ

abbrev pub ClientTable : Type 0
ClientTable = List OauthClient

-- The unique columns: the primary key and `client_id`.
unfoldable pub clashes : OauthClient → ClientTable → Bool
clashes c [] = false
clashes c (d ∷ ds) = c.id == d.id || (c.client_id == d.client_id || clashes c ds)
