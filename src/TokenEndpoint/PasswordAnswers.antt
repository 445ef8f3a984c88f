-- ===== src/TokenEndpoint/PasswordAnswers.antt =====
-- When `_handle_password_grant` answers with tokens, and what it saves.
use codelab_auth_service.Common.{
  ℕ, String, ◌≡◌, refl, ◌∙◌, Bool, true, false, Option, none, some, [], ◌∷◌, ◌++◌, arith,
}
use codelab_auth_service.AuthService.{
  TokenRequest, Granted, authenticate_password_grant, text_of, issue, validate_password_grant,
}
use codelab_auth_service.AuthService.Grants.{IsPublicClient}
use codelab_auth_service.AuthService.Granting.{password_grants}
use codelab_auth_service.BruteForce.{is_locked_out}
use codelab_auth_service.Database.{Database, log_login_success, log_event, logged}
use codelab_auth_service.Jwt.Interface.{Jwt, IsLawful}
use codelab_auth_service.JwtPayload.{JwtPayload, TokenType}
use codelab_auth_service.OauthClient.{OauthClient, GrantType}
use codelab_auth_service.OauthClientService.{validate_grant_type, validate_scope}
use codelab_auth_service.Redis.Interface.{Redis}
use codelab_auth_service.RefreshToken.{RefreshToken, collides}
use codelab_auth_service.RefreshTokenService.{new_token, save_refresh_token, insert}
use codelab_auth_service.Settings.{Settings}
use codelab_auth_service.TokenService
use codelab_auth_service.TokenService.{
  timestamp, new_payload, create_token_pair, create_access_token, create_refresh_token,
}
use codelab_auth_service.TokenService.Lifetimes.{is_live, pair_accepted}
use codelab_auth_service.User.{User, UserTable}
use codelab_auth_service.UserService.{authenticate}
use codelab_auth_service.TokenEndpoint.{
  HttpRequest, success_response, ip_of, handle_password_grant, continue_password_grant,
  end_password_grant,
}

module _ (r : Redis) (jwt : Jwt) (settings : Settings) (sha256 : String → String)
    (verify : String → Option String → Option Bool) (request : HttpRequest) (clock : ℕ → ℕ → ℕ)
    (draw : ℕ → ℕ → String) where
  abbrev State : Type 0
  State = r.State × Database

  -- The payload of the refresh token that is issued, and its row.
  abbrev pub first_payload : User → OauthClient → String → JwtPayload
  first_payload u c scope =
      new_payload settings TokenType.refresh u.id c.client_id scope c.refresh_token_lifetime
        (clock 1 1) (draw 0 1)

  abbrev pub first_row : JwtPayload → RefreshToken
  first_row payload =
      new_token sha256 payload none (some (draw 2 0)) (some (ip_of request)) request.user_agent
        (draw 2 1) (draw 2 2) (clock 4)

  first_read :
      (laws : IsLawful jwt) (u : User) (c : OauthClient) (scope : String)
      → is_live (first_payload u c scope) (timestamp (clock 3 0)) ≡ true
      → TokenService.validate_refresh_token jwt settings
          (timestamp (clock 3 0))
          (issue jwt settings verify u c scope (clock 1) (draw 0)).0.refresh_token
        ≡ some (first_payload u c scope)
  unfolding create_token_pair create_access_token create_refresh_token
  first_read laws u c scope live =
      let (_, _, read, _) =
        pair_accepted jwt settings laws u.id c.client_id scope (some c.access_token_lifetime)
          (some c.refresh_token_lifetime) (clock 1) (draw 0) (timestamp (clock 3 0)) in
      read ∙ rw live refl

  -- The end of a grant that gives tokens.
  ends :
      (q : TokenRequest) (granted : Granted) (payload : JwtPayload) (s : State)
      → logged (draw 1 0) s.1.audits ≡ false
      → TokenService.validate_refresh_token jwt settings
          (timestamp (clock 3 0))
          granted.0.refresh_token
        ≡ some payload
      → collides (first_row payload) s.1.tokens ≡ false
      → let (reply, s') =
          end_password_grant r jwt settings sha256 verify request clock draw q (some granted) s in
        (reply ≡ some (success_response granted.0))
        × (s'.1.users ≡ s.1.users)
        × (s'.1.tokens ≡ s.1.tokens ++ first_row payload ∷ [])
  unfolding end_password_grant log_login_success log_event save_refresh_token insert
  ends q granted payload s free valid room = (ground arith, ground arith, ground arith)

  -- The stages before it.
  reaches_end :
      (q : TokenRequest) (granted : Granted) (reason : Option String) (redis : r.State)
      (db db' : Database)
      → validate_password_grant q ≡ true
      → (is_locked_out r settings (text_of q.username) (ip_of request) redis).0 ≡ (false, reason)
      → authenticate_password_grant jwt settings verify q (λ k. clock k) (draw 0) db
        ≡ (some (some granted), db')
      → handle_password_grant r jwt settings sha256 verify request clock draw q (redis, db)
        ≡ end_password_grant r jwt settings sha256 verify request clock draw q
            (some granted)
            ((is_locked_out r settings (text_of q.username) (ip_of request) redis).1, db')
  unfolding handle_password_grant continue_password_grant
  reaches_end q granted reason redis db db' asked unlocked grants = ground arith

  -- With a lawful JWT library, a password grant is answered with tokens if neither the user name nor
  -- the address is locked out, the client is active, public and allowed this grant, `authenticate`
  -- returns a user, the scope is valid, the new refresh token is alive when it is read, and the hash
  -- and the drawn identifiers are taken by no row. Then the users are those that `authenticate`
  -- leaves, and the one row more of the refresh tokens is that of the new token.
  pub password_answered :
      (laws : IsLawful jwt) (q : TokenRequest) (c : OauthClient) (u : User) (users : UserTable)
      (scope : String) (reason : Option String) (redis : r.State) (db : Database)
      → validate_password_grant q ≡ true
      → (is_locked_out r settings (text_of q.username) (ip_of request) redis).0 ≡ (false, reason)
      → IsPublicClient jwt settings verify q.client_id db.clients c
      → validate_grant_type c GrantType.password ≡ true
      → authenticate settings
          (λ plain hashed. verify plain (some hashed))
          (clock 0)
          (text_of q.username)
          (text_of q.password)
          db.users
        ≡ (some (some u), users)
      → validate_scope c q.scope ≡ (true, scope)
      → is_live (first_payload u c scope) (timestamp (clock 3 0)) ≡ true
      → collides (first_row (first_payload u c scope)) db.tokens ≡ false
      → logged (draw 1 0) db.audits ≡ false
      → let (reply, s') =
          handle_password_grant r jwt settings sha256 verify request clock draw q (redis, db) in
        (reply ≡ some (success_response (issue jwt settings verify u c scope (clock 1) (draw 0)).0))
        × (s'.1.users ≡ users)
        × (s'.1.tokens ≡ db.tokens ++ first_row (first_payload u c scope) ∷ [])
  password_answered laws q c u users scope reason redis db asked unlocked client allowed login valid
        live room free =
      let granted = issue jwt settings verify u c scope (clock 1) (draw 0) in
      let db' = record db { users = users } in
      rw
        (reaches_end q granted reason redis db db' asked unlocked (
          password_grants jwt settings verify q (λ k. clock k) (draw 0) db c u users scope asked
            client allowed login valid))
        (ends q granted (first_payload u c scope)
          ((is_locked_out r settings (text_of q.username) (ip_of request) redis).1, db') free
          (first_read laws u c scope live) room)
