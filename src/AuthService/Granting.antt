-- ===== src/AuthService/Granting.antt =====
-- When the grants of the authentication service give tokens.
use codelab_auth_service.Common.{ℕ, String, ◌≡◌, Bool, true, Option, none, some, arith, ◌==◌}
use codelab_auth_service.AuthService.{
  TokenRequest, text_of, issue, validate_password_grant, grant_scope, grant_password,
  authenticate_password_grant, validate_refresh_grant, grant_user, grant_payload, grant_refresh,
  authenticate_refresh_grant,
}
use codelab_auth_service.AuthService.Grants.{IsPublicClient}
use codelab_auth_service.Database.{Database}
use codelab_auth_service.Jwt.Interface.{Jwt}
use codelab_auth_service.JwtPayload.{JwtPayload}
use codelab_auth_service.OauthClient.{GrantType, OauthClient, ClientTable}
use codelab_auth_service.OauthClientService.{
  validate_client, validate_grant_type, validate_scope, get_by_client_id, check_client,
  check_secret,
}
use codelab_auth_service.Settings.{Settings}
use codelab_auth_service.TokenService.{timestamp, validate_refresh_token}
use codelab_auth_service.User.{User, UserTable}
use codelab_auth_service.UserService.{authenticate}
use codelab_auth_service.UserService.Keys.{IsUnique}
use codelab_auth_service.UserService.Lookups
use codelab_auth_service.UserService.Lookups.{get_by_id-find}

module _ (jwt : Jwt) (settings : Settings) (verify : String → Option String → Option Bool) where
  known_client :
      (client_id : String) (clients : ClientTable) (c : OauthClient)
      → IsPublicClient jwt settings verify client_id clients c
      → validate_client verify client_id none clients ≡ (some (some c), clients)
  unfolding validate_client get_by_client_id check_client check_secret
  known_client client_id clients c (one, active, open_client) = ground arith

  pub refresh_grants :
      (q : TokenRequest) (clock : ℕ → ℕ → ℕ) (jti : ℕ → String) (db : Database) (c : OauthClient)
      (p : JwtPayload) (u : User)
      → validate_refresh_grant q ≡ true
      → IsPublicClient jwt settings verify q.client_id db.clients c
      → validate_grant_type c GrantType.refresh_token ≡ true
      → validate_refresh_token jwt settings (timestamp (clock 0 0)) (text_of q.refresh_token)
        ≡ some p
      → (p.client_id == q.client_id) ≡ true
      → IsUnique db.users
      → Lookups.find (λ v. v.id == p.sub) db.users ≡ some u
      → u.is_active ≡ true
      → authenticate_refresh_grant jwt settings verify q clock jti db
        ≡ (some (some (issue jwt settings verify u c p.scope (clock 1) jti)), db)
  unfolding authenticate_refresh_grant grant_refresh grant_payload grant_user
  refresh_grants q clock jti db c p u asked client allowed valid ours k known active =
      ground (arith, known_client q.client_id db.clients c client, get_by_id-find p.sub db.users k)

  pub password_grants :
      (q : TokenRequest) (clock : ℕ → ℕ → ℕ) (jti : ℕ → String) (db : Database) (c : OauthClient)
      (u : User) (users : UserTable) (scope : String)
      → validate_password_grant q ≡ true
      → IsPublicClient jwt settings verify q.client_id db.clients c
      → validate_grant_type c GrantType.password ≡ true
      → authenticate settings
          (λ plain hashed. verify plain (some hashed))
          (clock 0)
          (text_of q.username)
          (text_of q.password)
          db.users
        ≡ (some (some u), users)
      → validate_scope c q.scope ≡ (true, scope)
      → authenticate_password_grant jwt settings verify q clock jti db ≡ (
        some (some (issue jwt settings verify u c scope (clock 1) jti)),
        record db { users = users },
      )
  unfolding authenticate_password_grant grant_password grant_scope
  password_grants q clock jti db c u users scope asked client allowed login valid =
      ground (arith, known_client q.client_id db.clients c client)
