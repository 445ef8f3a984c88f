-- ===== src/OauthClient/Examples.antt =====
-- A public and a confidential client, for concrete runs.
use codelab_auth_service.Common.{String, Bool, true, false, Option, none, some, [], ◌∷◌, ◌==◌}
use codelab_auth_service.OauthClient.{GrantType, OauthClient, OauthClientCreate, ClientTable}

abbrev pub web : OauthClient
web = record {
  id = "1";
  client_id = "web";
  client_secret_hash = none;
  name = "Web";
  description = none;
  is_confidential = false;
  allowed_scopes = "read write";
  allowed_grant_types = some ("password" ∷ "refresh_token" ∷ []);
  access_token_lifetime = 3;
  refresh_token_lifetime = 9;
  is_active = true;
  created_at = 1;
  updated_at = 1;
}

abbrev pub clients : ClientTable
clients = web ∷ []

abbrev pub machine : OauthClientCreate
machine = record {
  client_id = "machine1";
  client_secret = some "0123456789abcdef";
  name = "Machine";
  description = none;
  is_confidential = true;
  allowed_scopes = "read";
  allowed_grant_types = GrantType.client_credentials ∷ [];
  access_token_lifetime = 900;
  refresh_token_lifetime = 900;
}

-- In place of bcrypt: the hash of a password is the password itself.
abbrev pub plain_hash : String → String
plain_hash s = s

abbrev pub plain_verify : String → Option String → Option Bool
plain_verify s none = some false
plain_verify s (some h) = some (s == h)
