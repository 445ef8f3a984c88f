-- ===== src/AuthService/Frames.antt =====
-- The grants of the authentication service leave the table of refresh tokens as it is.
use codelab_auth_service.Common.{
  ℕ, String, ◌≡◌, refl, Bool, Bool-cases, inl, inr, true, false, not, Option, none, some, ◌==◌,
  if◌then◌else◌,
}
use codelab_auth_service.AuthService.{
  TokenRequest, if_found, text_of, validate_refresh_grant, grant_user, grant_payload, grant_refresh,
  authenticate_refresh_grant,
}
use codelab_auth_service.Commands.{◌>>=◌, pure, Keeps, >>=-Keeps}
use codelab_auth_service.Database.{Database, on_clients, on_users}
use codelab_auth_service.Jwt.Interface.{Jwt}
use codelab_auth_service.JwtPayload.{JwtPayload}
use codelab_auth_service.OauthClient.{GrantType, OauthClient}
use codelab_auth_service.OauthClientService.{validate_client, validate_grant_type}
use codelab_auth_service.RefreshToken.{Table}
use codelab_auth_service.Settings.{Settings}
use codelab_auth_service.TokenService.{timestamp, validate_refresh_token}
use codelab_auth_service.User.{User}
use codelab_auth_service.UserService.{get_by_id}

module _ (rows : Table) where
  abbrev HasTokens : Database → Type 0
  HasTokens db = db.tokens ≡ rows

  if_found-Keeps :
      {A B : Type 0} (found : Option A) (next : A → Database → Option (Option B) × Database)
      → ((a : A) → Keeps HasTokens (next a))
      → Keeps HasTokens (if_found found next)
  if_found-Keeps none next kn db h = h
  if_found-Keeps (some a) next kn db h = kn a db h

  if-Keeps :
      {B : Type 0} (b : Bool) (m : Database → Option (Option B) × Database)
      → Keeps HasTokens m
      → Keeps HasTokens (if b then pure none else m)
  if-Keeps true m km db h = h
  if-Keeps false m km db h = km db h

  module _ (jwt : Jwt) (settings : Settings) (verify : String → Option String → Option Bool) where
    grant_user-Keeps :
        (payload : JwtPayload) (client : OauthClient) (clock : ℕ → ℕ) (jti : ℕ → String)
        (user : User)
        → Keeps HasTokens (grant_user jwt settings verify payload client clock jti user)
    unfolding grant_user
    grant_user-Keeps payload client clock jti user db h = elim (Bool-cases user.is_active) [
      | inl e ↦ simp e h
      | inr e ↦ simp e h
    ]

    grant_payload-Keeps :
        (q : TokenRequest) (client : OauthClient) (clock : ℕ → ℕ) (jti : ℕ → String)
        (payload : JwtPayload)
        → Keeps HasTokens (grant_payload jwt settings verify q client clock jti payload)
    unfolding grant_payload
    grant_payload-Keeps q client clock jti payload =
        let next = grant_user jwt settings verify payload client clock jti in
        if-Keeps (not (payload.client_id == q.client_id))
          (on_users (get_by_id payload.sub) >>= λ user. if_found user next)
          (>>=-Keeps HasTokens (λ user. if_found user next)
            (λ user. if_found-Keeps user next (grant_user-Keeps payload client clock jti))
            (on_users (get_by_id payload.sub)) (λ db h. h))

    grant_refresh-Keeps :
        (q : TokenRequest) (clock : ℕ → ℕ → ℕ) (jti : ℕ → String) (client : OauthClient)
        → Keeps HasTokens (grant_refresh jwt settings verify q clock jti client)
    unfolding grant_refresh
    grant_refresh-Keeps q clock jti client =
        let payload =
          validate_refresh_token jwt settings (timestamp (clock 0 0)) (text_of q.refresh_token) in
        let next = grant_payload jwt settings verify q client (clock 1) jti in
        if-Keeps (not (validate_grant_type client GrantType.refresh_token)) (if_found payload next)
          (if_found-Keeps payload next (grant_payload-Keeps q client (clock 1) jti))

    authenticate_refresh_grant-Keeps :
        (q : TokenRequest) (clock : ℕ → ℕ → ℕ) (jti : ℕ → String)
        → Keeps HasTokens (authenticate_refresh_grant jwt settings verify q clock jti)
    unfolding authenticate_refresh_grant
    authenticate_refresh_grant-Keeps q clock jti =
        let next = grant_refresh jwt settings verify q clock jti in
        if-Keeps (not (validate_refresh_grant q))
          (on_clients (validate_client verify q.client_id none) >>= λ client. if_found client next)
          (>>=-Keeps HasTokens (λ client. if_found client next)
            (λ client. if_found-Keeps client next (grant_refresh-Keeps q clock jti))
            (on_clients (validate_client verify q.client_id none)) (λ db h. h))

pub authenticate_refresh_grant-tokens :
    (jwt : Jwt) (settings : Settings) (verify : String → Option String → Option Bool)
    (q : TokenRequest) (clock : ℕ → ℕ → ℕ) (jti : ℕ → String) (db : Database)
    → (authenticate_refresh_grant jwt settings verify q clock jti db).1.tokens ≡ db.tokens
authenticate_refresh_grant-tokens jwt settings verify q clock jti db =
    authenticate_refresh_grant-Keeps db.tokens jwt settings verify q clock jti db refl
