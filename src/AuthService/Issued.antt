-- ===== src/AuthService/Issued.antt =====
-- What the tokens that the authentication service issues say of the user and of the client.
use codelab_auth_service.Common.{ℕ, ◌+◌, ◌*◌, ◌/◌, String, ◌≡◌, refl, Bool, Option, none, some}
use codelab_auth_service.AuthService.{Granted, issue}
use codelab_auth_service.Jwt.Interface.{Jwt}
use codelab_auth_service.JwtPayload.{JwtPayload, TokenType}
use codelab_auth_service.OauthClient.{OauthClient}
use codelab_auth_service.Settings.{Settings}
use codelab_auth_service.TokenService.{create_token_pair, create_access_token, create_refresh_token}
use codelab_auth_service.RefreshTokenService.{second}
use codelab_auth_service.User.{User}

module _ (jwt : Jwt) (settings : Settings) where
  -- The claims of a token for a user and a client, made at a time for a lifetime in seconds.
  abbrev claims_for : TokenType → User → OauthClient → String → ℕ → ℕ → String → JwtPayload
  claims_for type user client scope lifetime now jti = record {
    iss = settings.jwt_issuer;
    sub = user.id;
    aud = settings.jwt_audience;
    exp = (now + lifetime * second) / second;
    iat = now / second;
    nbf = now / second;
    jti = jti;
    type = type;
    client_id = client.client_id;
    scope = scope;
  }

  -- The response and what comes with it: the two tokens are those of the user and the client, with
  -- the scope, the lifetimes of the client, and the identifiers that are drawn.
  abbrev pub IsIssued : Granted → User → OauthClient → String → (ℕ → ℕ) → (ℕ → String) → Type 0
  IsIssued (response, granted_user, granted_client) user client scope clock jti =
      (granted_user ≡ user)
      × (granted_client ≡ client)
      × (response.access_token
          ≡ jwt.encode (
              jwt.dump (
                claims_for TokenType.access user client scope client.access_token_lifetime (clock 0)
                  (jti 0))))
      × (response.refresh_token
          ≡ jwt.encode (
              jwt.dump (
                claims_for TokenType.refresh user client scope client.refresh_token_lifetime
                  (clock 1) (jti 1))))
      × (response.token_type ≡ "bearer")
      × (response.expires_in ≡ client.access_token_lifetime)
      × (response.scope ≡ some scope)
      × (response.session_id ≡ none)

  pub issue-IsIssued :
      (verify : String → Option String → Option Bool) (user : User) (client : OauthClient)
      (scope : String) (clock : ℕ → ℕ) (jti : ℕ → String)
      → IsIssued (issue jwt settings verify user client scope clock jti) user client scope clock jti
  unfolding create_token_pair create_access_token create_refresh_token
  issue-IsIssued verify user client scope clock jti =
      (refl, refl, refl, refl, refl, refl, refl, refl)
