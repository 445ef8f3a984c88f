-- ===== src/TokenEndpoint.antt =====
-- app/api/v1/oauth.py: the handlers of `POST /token`. `clock k` are the readings of the clock in
-- the k-th call that reads it, and `draw k` the values that the k-th call draws.
pub mod Rotation
pub mod Refresh
pub mod Replay
pub mod RotationAnswers
pub mod Answers
pub mod PasswordAnswers
mod PasswordTests
mod Tests
use codelab_auth_service.Common.{
  ℕ, ◌+◌, String, ◌<>◌, Bool, true, false, not, ◌&&◌, ◌||◌, Option, none, some, truthy, ◌==◌,
  if◌then◌else◌,
}
use codelab_auth_service.AuthService.{
  TokenRequest, TokenResponse, Granted, authenticate_password_grant, authenticate_refresh_grant,
  text_of,
}
use codelab_auth_service.BruteForce.{is_locked_out, record_failed_attempt, reset_failed_attempts}
use codelab_auth_service.Commands.{◌>>=◌, ◌>>◌, pure, or_else}
use codelab_auth_service.Database.{
  Database, on_tokens, log_login_success, log_login_failed, log_token_refresh,
}
use codelab_auth_service.Jwt.Interface.{Jwt}
use codelab_auth_service.JwtPayload.{JwtPayload}
use codelab_auth_service.OauthClient.{GrantType, grant_type_value}
use codelab_auth_service.Redis.Interface.{Redis}
use codelab_auth_service.RefreshToken.{RefreshToken}
use codelab_auth_service.RefreshTokenService
use codelab_auth_service.RefreshTokenService.{save_refresh_token, revoke_token, get_by_jti}
use codelab_auth_service.Settings.{Settings}
use codelab_auth_service.TokenService
use codelab_auth_service.TokenService.{timestamp}

-- What a handler reads of the HTTP request: the address of the client and the header `User-Agent`.
pub record HttpRequest : Type 0 where
  pub host : Option String
  pub user_agent : Option String

pub data Body : Type 0 where
  tokens : TokenResponse → Body
  failure : (error error_description : String) → Body

pub record JsonResponse : Type 0 where
  pub status_code : ℕ
  pub content : Body

abbrev pub error_response : String → String → ℕ → JsonResponse
error_response error description status_code = record {
  status_code = status_code;
  content = Body.failure error description;
}

abbrev pub success_response : TokenResponse → JsonResponse
success_response response = record { status_code = 200; content = Body.tokens response }

abbrev pub ip_of : HttpRequest → String
ip_of request = elim request.host [ none ↦ "unknown" | some host ↦ host ]

-- `error_msg or "…"`
abbrev pub or_text : Option String → String → String
or_text none default = default
or_text (some s) default = if s == "" then default else s

-- `GrantType(grant_type)`
abbrev pub grant_type_of : String → Option GrantType
grant_type_of s =
    if s == "password"
    then some GrantType.password
    else if s == "refresh_token"
    then some GrantType.refresh_token
    else if s == "authorization_code"
    then some GrantType.authorization_code
    else if s == "client_credentials"
    then some GrantType.client_credentials
    else none

-- `min_length=1` of an optional field.
abbrev pub is_filled : Option String → Bool
is_filled none = true
is_filled (some s) = not (s == "")

-- The validation of TokenRequest.
abbrev pub is_well_formed : TokenRequest → Bool
is_well_formed q =
    not (q.client_id == "")
    && (is_filled q.username && (is_filled q.password && is_filled q.refresh_token))

module _ (r : Redis) (jwt : Jwt) (settings : Settings) (sha256 : String → String)
    (verify : String → Option String → Option Bool) (request : HttpRequest) (clock : ℕ → ℕ → ℕ)
    (draw : ℕ → ℕ → String) where
  -- The server and the database behind a handler.
  abbrev pub State : Type 0
  State = r.State × Database

  -- A call of the brute-force protection, which never raises.
  abbrev pub on_redis : {A : Type 0} → (r.State → A × r.State) → State → Option A × State
  on_redis m s = let (a, redis) = m (s.0) in (some a, (redis, s.1))

  abbrev pub on_db : {A : Type 0} → (Database → Option A × Database) → State → Option A × State
  on_db m s = let (reply, db) = m (s.1) in (reply, (s.0, db))

  abbrev pub lift : {A : Type 0} → Option A → State → Option A × State
  lift reply s = (reply, s)

  -- The end of the password grant.
  pub end_password_grant : TokenRequest → Option Granted → State → Option JsonResponse × State
  end_password_grant q none = do
    on_redis (record_failed_attempt r settings (text_of q.username) (ip_of request))
    on_db (
          log_login_failed (text_of q.username) q.client_id (some (ip_of request))
            request.user_agent (some "Invalid credentials") (draw 1 0) (clock 2 0))
        >>= λ _. pure (error_response "invalid_grant" "Invalid username or password" 401)
  end_password_grant q (some (response, user, client)) = do
    on_redis (reset_failed_attempts r (text_of q.username) (ip_of request))
    on_db (
          log_login_success user.id client.client_id (some (ip_of request)) request.user_agent
            response.scope (draw 1 0) (clock 2 0))
        >>= λ _. (do
          payload ← lift (
              TokenService.validate_refresh_token jwt settings (timestamp (clock 3 0))
                response.refresh_token)
          saved ← on_db (
              on_tokens (
                save_refresh_token sha256 payload none (some (draw 2 0)) (some (ip_of request))
                  request.user_agent (draw 2 1) (draw 2 2) (clock 4)))
          pure (success_response response))

  -- After the test of the lockout.
  pub continue_password_grant :
      TokenRequest → Bool × Option String → State → Option JsonResponse × State
  unfolding end_password_grant
  continue_password_grant q (true, reason) =
      pure (error_response "invalid_grant" (or_text reason "Account temporarily locked") 429)
  continue_password_grant q (false, reason) = do
    result ← on_db (authenticate_password_grant jwt settings verify q (λ k. clock k) (draw 0))
    end_password_grant q result

  pub handle_password_grant : TokenRequest → State → Option JsonResponse × State
  unfolding continue_password_grant
  handle_password_grant q =
      if not (truthy q.username) || not (truthy q.password)
      then pure (
          error_response "invalid_request" "Missing required parameters: username and password" 400)
      else (do
        locked ← on_redis (is_locked_out r settings (text_of q.username) (ip_of request))
        continue_password_grant q locked)

  -- The rotation, after the new tokens have been issued, in reverse order: the audit and the
  -- response,
  pub report_rotation : Granted → RefreshToken → State → Option JsonResponse × State
  report_rotation (response, user, client) saved = do
    entry ← on_db (
        log_token_refresh user.id client.client_id request.host request.user_agent (draw 2 0)
          (clock 7 0))
    pure (success_response response)

  -- the row of the new token, of the session of the old one,
  pub save_rotation :
      JwtPayload → Granted → JwtPayload → Option RefreshToken → State → Option JsonResponse × State
  unfolding report_rotation
  save_rotation old granted payload old_token = do
    saved ← on_db (
        on_tokens (
          save_refresh_token sha256 payload (some old.jti)
            (elim old_token [ none ↦ none | some t ↦ some t.session_id ]) (some (ip_of request))
            request.user_agent (draw 1 0) (draw 1 1) (clock 6)))
    report_rotation granted saved

  -- the lookup of the old row,
  pub find_session : JwtPayload → Granted → JwtPayload → State → Option JsonResponse × State
  unfolding save_rotation
  find_session old granted payload = do
    old_token ← on_db (on_tokens (get_by_jti sha256 old.jti))
    save_rotation old granted payload old_token

  -- the payload of the new token,
  pub read_new_token : JwtPayload → Granted → Bool → State → Option JsonResponse × State
  unfolding find_session
  read_new_token old granted revoked = do
    payload ← lift (
        TokenService.validate_refresh_token jwt settings (timestamp (clock 5 0))
          (granted.0).refresh_token)
    find_session old granted payload

  -- and the revocation of the old token.
  pub rotate : JwtPayload → Option Granted → State → Option JsonResponse × State
  unfolding read_new_token
  rotate old none = pure (error_response "invalid_grant" "Invalid refresh token" 401)
  rotate old (some granted) = do
    revoked ← on_db (on_tokens (revoke_token sha256 (clock 4 0) old.jti))
    read_new_token old granted revoked

  -- After the token has been looked up in the table.
  pub continue_refresh_grant :
      TokenRequest → JwtPayload → Bool × Option String → State → Option JsonResponse × State
  unfolding rotate
  continue_refresh_grant q old (false, error_msg) =
      pure (error_response "invalid_grant" (or_text error_msg "Refresh token is invalid") 401)
  continue_refresh_grant q old (true, error_msg) = do
    result ← on_db (authenticate_refresh_grant jwt settings verify q (λ k. clock (k + 2)) (draw 0))
    rotate old result

  -- After the token has been decoded.
  pub check_refresh_grant : TokenRequest → Option JwtPayload → State → Option JsonResponse × State
  unfolding continue_refresh_grant
  check_refresh_grant q none =
      pure (error_response "invalid_grant" "Invalid or expired refresh token" 401)
  check_refresh_grant q (some old) = do
    validity ←
        on_db (on_tokens (RefreshTokenService.validate_refresh_token sha256 (clock 1) old.jti))
    continue_refresh_grant q old validity

  pub handle_refresh_grant : TokenRequest → State → Option JsonResponse × State
  unfolding check_refresh_grant
  handle_refresh_grant q =
      if not (truthy q.refresh_token)
      then pure (error_response "invalid_request" "Missing required parameter: refresh_token" 400)
      else check_refresh_grant q (
          TokenService.validate_refresh_token jwt settings (timestamp (clock 0 0))
            (text_of q.refresh_token))

  -- The handler of a request, of a grant type that is one of the enumeration.
  pub dispatch : TokenRequest → State → Option JsonResponse × State
  unfolding handle_password_grant handle_refresh_grant
  dispatch q = elim q.grant_type [
    | GrantType.password ↦ handle_password_grant q
    | GrantType.refresh_token ↦ handle_refresh_grant q
    | _ ↦ pure (
        error_response "unsupported_grant_type"
          ("Grant type '" <> (grant_type_value q.grant_type <> "' is not implemented")) 400)
  ]

  pub token_endpoint :
      (grant_type client_id : String) (username password refresh_token scope : Option String)
      → State
      → JsonResponse × State
  unfolding dispatch
  token_endpoint grant_type client_id username password refresh_token scope s =
      or_else (error_response "server_error" "An internal error occurred" 400)
        (elim (grant_type_of grant_type) [
          | none ↦
              pure
                (error_response "unsupported_grant_type"
                  ("Grant type '" <> (grant_type <> "' is not supported")) 400)
                s
          | some type ↦
              let q : TokenRequest = record {
                grant_type = type;
                client_id = client_id;
                username = username;
                password = password;
                refresh_token = refresh_token;
                scope = scope;
              } in
              if is_well_formed q then dispatch q s else (none, s)
        ])
