-- ===== src/AuthService.antt =====
-- app/services/auth_service.py: `class AuthService`, and app/schemas/oauth.py: `TokenRequest`,
-- `TokenResponse`. A result is `none` where the method raises, and `some none` where it returns
-- `(None, None, None)`. `clock k` are the readings of the clock in the method's k-th call that
-- reads it, `jti` the drawn token identifiers.
pub mod Frames
pub mod Issued
pub mod Grants
pub mod Granting
pub mod Examples
mod Tests
use codelab_auth_service.Common.{
  ℕ, String, Bool, true, false, not, ◌&&◌, Option, none, some, truthy, ◌==◌, if◌then◌else◌,
}
use codelab_auth_service.Commands.{◌>>=◌, pure}
use codelab_auth_service.Database.{Database, on_clients, on_users}
use codelab_auth_service.Jwt.Interface.{Jwt}
use codelab_auth_service.JwtPayload.{JwtPayload}
use codelab_auth_service.OauthClient.{GrantType, OauthClient}
use codelab_auth_service.OauthClientService.{validate_client, validate_grant_type, validate_scope}
use codelab_auth_service.Settings.{Settings}
use codelab_auth_service.TokenService.{
  TokenPair, create_token_pair, validate_refresh_token, timestamp,
}
use codelab_auth_service.User.{User}
use codelab_auth_service.UserService.{authenticate, get_by_id}

pub record TokenRequest : Type 0 where
  pub grant_type : GrantType
  pub client_id : String
  pub username : Option String
  pub password : Option String
  pub refresh_token : Option String
  pub scope : Option String

abbrev pub is_password : GrantType → Bool
is_password GrantType.password = true
is_password _ = false

abbrev pub is_refresh_token : GrantType → Bool
is_refresh_token GrantType.refresh_token = true
is_refresh_token _ = false

abbrev pub validate_password_grant : TokenRequest → Bool
validate_password_grant q = is_password q.grant_type && (truthy q.username && truthy q.password)

abbrev pub validate_refresh_grant : TokenRequest → Bool
validate_refresh_grant q = is_refresh_token q.grant_type && truthy q.refresh_token

pub record TokenResponse : Type 0 where
  pub access_token : String
  pub refresh_token : String
  pub token_type : String
  pub expires_in : ℕ
  pub scope : Option String
  pub session_id : Option String

abbrev pub Granted : Type 0
Granted = TokenResponse × User × OauthClient

-- `if not x: return None, None, None`
module _ {S A B : Type 0} where
  abbrev pub if_found : Option A → (A → S → Option (Option B) × S) → S → Option (Option B) × S
  if_found none next s = (some none, s)
  if_found (some a) next s = next a s

-- A text that has been seen to be there.
abbrev pub text_of : Option String → String
text_of none = ""
text_of (some s) = s

module _ (jwt : Jwt) (settings : Settings) (verify : String → Option String → Option Bool) where
  -- The response with a new pair of tokens.
  abbrev pub issue : User → OauthClient → String → (ℕ → ℕ) → (ℕ → String) → Granted
  issue user client scope clock jti =
      let pair =
        create_token_pair jwt settings user.id client.client_id scope
          (some client.access_token_lifetime) (some client.refresh_token_lifetime) clock jti in
      (
        record {
          access_token = pair.access_token;
          refresh_token = pair.refresh_token;
          token_type = "bearer";
          expires_in = client.access_token_lifetime;
          scope = some scope;
          session_id = none;
        },
        user,
        client,
      )

  -- After the user has been authenticated.
  pub grant_scope :
      TokenRequest
      → OauthClient
      → (ℕ → ℕ)
      → (ℕ → String)
      → User
      → Database
      → Option (Option Granted) × Database
  grant_scope q client clock jti user =
      let (is_valid, scope) = validate_scope client q.scope in
      if not is_valid then pure none else pure (some (issue user client scope clock jti))

  -- After the client has been validated.
  pub grant_password :
      TokenRequest
      → (ℕ → ℕ → ℕ)
      → (ℕ → String)
      → OauthClient
      → Database
      → Option (Option Granted) × Database
  unfolding grant_scope
  grant_password q clock jti client =
      if not (validate_grant_type client GrantType.password) then pure none else (do
        user ← on_users (
            authenticate settings (λ plain hashed. verify plain (some hashed)) (clock 0)
              (text_of q.username) (text_of q.password))
        if_found user (grant_scope q client (clock 1) jti))

  pub authenticate_password_grant :
      TokenRequest → (ℕ → ℕ → ℕ) → (ℕ → String) → Database → Option (Option Granted) × Database
  unfolding grant_password
  authenticate_password_grant q clock jti =
      if not (validate_password_grant q) then pure none else (do
        client ← on_clients (validate_client verify q.client_id none)
        if_found client (grant_password q clock jti))

  -- `if not user or not user.is_active: return None, None, None`, and the new pair.
  unfoldable pub grant_user :
      JwtPayload
      → OauthClient
      → (ℕ → ℕ)
      → (ℕ → String)
      → User
      → Database
      → Option (Option Granted) × Database
  grant_user payload client clock jti user =
      if not user.is_active
      then pure none
      else pure (some (issue user client payload.scope clock jti))

  -- After the refresh token has been read.
  unfoldable pub grant_payload :
      TokenRequest
      → OauthClient
      → (ℕ → ℕ)
      → (ℕ → String)
      → JwtPayload
      → Database
      → Option (Option Granted) × Database
  unfolding grant_user
  grant_payload q client clock jti payload =
      if not (payload.client_id == q.client_id) then pure none else (do
        user ← on_users (get_by_id payload.sub)
        if_found user (grant_user payload client clock jti))

  -- After the client has been validated.
  unfoldable pub grant_refresh :
      TokenRequest
      → (ℕ → ℕ → ℕ)
      → (ℕ → String)
      → OauthClient
      → Database
      → Option (Option Granted) × Database
  unfolding grant_payload
  grant_refresh q clock jti client =
      if not (validate_grant_type client GrantType.refresh_token)
      then pure none
      else if_found
          (validate_refresh_token jwt settings (timestamp (clock 0 0)) (text_of q.refresh_token))
          (grant_payload q client (clock 1) jti)

  unfoldable pub authenticate_refresh_grant :
      TokenRequest → (ℕ → ℕ → ℕ) → (ℕ → String) → Database → Option (Option Granted) × Database
  unfolding grant_refresh
  authenticate_refresh_grant q clock jti = if not (validate_refresh_grant q) then pure none else (do
    client ← on_clients (validate_client verify q.client_id none)
    if_found client (grant_refresh q clock jti))
