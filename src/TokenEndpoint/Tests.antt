-- ===== src/TokenEndpoint/Tests.antt =====
-- The theorems on the refresh grant at concrete data.
use codelab_auth_service.Common.{arith, String, ◌≡◌, refl, Option, none, some, [], select}
use codelab_auth_service.AuthService.{
  TokenRequest, TokenResponse, issue, grant_user, grant_payload, grant_refresh,
  authenticate_refresh_grant,
}
use codelab_auth_service.AuthService.Examples.{payload, presenting, ticks, drawn}
use codelab_auth_service.Database.{Database, logged, log_event, log_token_refresh}
use codelab_auth_service.Jwt.Plain.{
  plain, plain-IsLawful, put_type, write, with_text, with_number, read_type, with_type, read,
  accept,
}
use codelab_auth_service.Jwt.Serial.{put_text, take_text, put_number, take_number}
use codelab_auth_service.JwtPayload.{JwtPayload}
use codelab_auth_service.OauthClient.Examples.{web, clients, plain_verify}
use codelab_auth_service.OauthClientService.{
  get_by_client_id, check_secret, check_client, validate_client, validate_grant_type,
}
use codelab_auth_service.Redis.Memory.{Cells, memory, fresh}
use codelab_auth_service.RefreshToken.{RefreshToken, revoke_rows, collides}
use codelab_auth_service.RefreshToken.Examples.{active_row, used_row, rows, rows-IsKeyed, same_text}
use codelab_auth_service.RefreshToken.Rows.{find, Marked}
use codelab_auth_service.RefreshTokenService.Reuse.{in_family}
use codelab_auth_service.RefreshTokenService
use codelab_auth_service.RefreshTokenService.{
  insert, save_refresh_token, get_by_jti, judge, revoke_found, revoke_token,
}
use codelab_auth_service.Settings.{default_settings}
use codelab_auth_service.TokenService
use codelab_auth_service.TokenService.{
  create_access_token, create_refresh_token, create_token_pair, decode_token, read_as,
}
use codelab_auth_service.Text.{contains}
use codelab_auth_service.UserService.{get_by_id}
use codelab_auth_service.TokenEndpoint.{
  HttpRequest, JsonResponse, success_response, error_response, handle_refresh_grant,
  check_refresh_grant, continue_refresh_grant, rotate, read_new_token, find_session, save_rotation,
  report_rotation,
}
use codelab_auth_service.TokenEndpoint.Rotation.{IsRotated}
use codelab_auth_service.TokenEndpoint.Refresh.{IsCurrent, refresh_rotates}
use codelab_auth_service.TokenEndpoint.Replay.{replay_refused}
use codelab_auth_service.TokenEndpoint.Answers.{refresh_answered}
use codelab_auth_service.User.{occupied}
use codelab_auth_service.User.Examples.{ann, users}
use codelab_auth_service.UserService.Keys.{IsUnique}
use codelab_auth_service.UserService.Lookups

abbrev request : HttpRequest
request = record { host = some "10.0.0.1"; user_agent = none }

abbrev start : Cells × Database
start = (
  fresh,
  record {
    clients = clients;
    users = users;
    tokens = rows;
    resets = [];
    confirmations = [];
    audits = [];
  },
)

abbrev response : TokenResponse
response = (issue plain default_settings plain_verify ann web "read" (ticks 3) (drawn 0)).0

abbrev handle : TokenRequest → Cells × Database → Option JsonResponse × (Cells × Database)
handle =
    handle_refresh_grant memory plain default_settings same_text plain_verify request ticks drawn

users-IsUnique : IsUnique users
unfolding occupied
users-IsUnique = (refl, (refl, tt))

replay_refused_example :
    let (reply, s') = handle (presenting "b") start in
    (reply
      ≡ some (error_response "invalid_grant" "Refresh token has been revoked (reuse detected)" 401))
    × ((h : String) → Marked (in_family used_row) (find h rows) (find h s'.1.tokens))
unfolding find TokenService.validate_refresh_token decode_token read_as put_type write with_text
    with_number read_type with_type read accept put_text take_text put_number take_number
replay_refused_example =
    replay_refused memory plain default_settings same_text plain_verify request ticks drawn
      (presenting "b") start (payload "b") used_row rows-IsKeyed refl refl refl refl

answered : (handle (presenting "a") start).0 ≡ some (success_response response)
unfolding TokenService.validate_refresh_token decode_token read_as put_type write with_text
    with_number read_type with_type read accept put_text take_text put_number take_number
    handle_refresh_grant check_refresh_grant continue_refresh_grant rotate read_new_token
    find_session save_rotation report_rotation RefreshTokenService.validate_refresh_token insert
    save_refresh_token get_by_jti judge revoke_found revoke_token revoke_rows collides select
    grant_user grant_payload grant_refresh authenticate_refresh_grant get_by_client_id check_secret
    check_client validate_client validate_grant_type get_by_id contains logged log_event
    log_token_refresh create_token_pair create_access_token create_refresh_token
answered = refl

refresh_rotates_example :
    (old : JwtPayload) × (t : RefreshToken) × IsCurrent memory plain default_settings same_text
      plain_verify request ticks drawn
      (presenting "a")
      old
      t
      rows
    × IsRotated memory plain default_settings same_text plain_verify request ticks drawn old t
        response
        (handle (presenting "a") start).1.1.tokens
refresh_rotates_example =
    refresh_rotates memory plain default_settings same_text plain_verify request ticks drawn
      (presenting "a") start response rows-IsKeyed answered

refresh_answered_example : (handle (presenting "a") start).0 ≡ some (success_response response)
unfolding find TokenService.validate_refresh_token decode_token read_as put_type write with_text
    with_number read_type with_type read accept put_text take_text put_number take_number occupied
    Lookups.find validate_grant_type contains collides logged select
refresh_answered_example =
    refresh_answered memory plain default_settings same_text plain_verify request ticks drawn
      plain-IsLawful (presenting "a") (payload "a") active_row web ann start refl rows-IsKeyed
      users-IsUnique (refl, refl, refl, omega arith) refl (refl, refl, refl) refl refl refl refl
      refl refl refl
