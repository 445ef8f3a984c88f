-- ===== src/AuthService/Tests.antt =====
-- The theorems on the grants at concrete data.
use codelab_auth_service.Common.{◌≡◌, refl, some, [], select}
use codelab_auth_service.AuthService.{
  Granted, issue, grant_scope, grant_password, authenticate_password_grant, grant_user,
  grant_payload, grant_refresh, authenticate_refresh_grant,
}
use codelab_auth_service.AuthService.Examples.{presenting, entering, ticks, drawn}
use codelab_auth_service.AuthService.Grants.{
  IsPublicClient, IsPasswordGrant, IsRefreshGrant, password_granted, refresh_granted,
}
use codelab_auth_service.Database.{Database}
use codelab_auth_service.Jwt.Plain.{
  plain, put_type, write, with_text, with_number, read_type, with_type, read, accept,
}
use codelab_auth_service.Jwt.Serial.{put_text, take_text, put_number, take_number}
use codelab_auth_service.JwtPayload.{JwtPayload}
use codelab_auth_service.OauthClient.{OauthClient}
use codelab_auth_service.OauthClient.Examples.{web, clients, plain_verify}
use codelab_auth_service.OauthClientService.{
  get_by_client_id, check_secret, check_client, validate_client, validate_grant_type, check_scope,
  validate_scope,
}
use codelab_auth_service.Settings.{default_settings}
use codelab_auth_service.Text.{contains, is_space, scan, split, join, insert_sorted, sorted_set}
use codelab_auth_service.TokenService.{validate_refresh_token, decode_token, read_as}
use codelab_auth_service.User.{User}
use codelab_auth_service.User.Examples.{ann, users}
use codelab_auth_service.UserService.{
  get_by_id, get_by_username, get_by_email, write_row, conflicts, store_user, admits, log_in,
  or_by_email, authenticate,
}
use codelab_auth_service.UserService.Named.{logged_in}

abbrev start : Database
start = record {
  clients = clients;
  users = users;
  tokens = [];
  resets = [];
  confirmations = [];
  audits = [];
}

abbrev entered : Granted
entered =
    issue plain default_settings plain_verify (logged_in (ticks 0) ann) web "read write" (ticks 1)
      (drawn 0)

abbrev refreshed : Granted
refreshed = issue plain default_settings plain_verify ann web "read" (ticks 1) (drawn 0)

enters :
    (authenticate_password_grant plain default_settings plain_verify entering ticks
      (drawn 0)
      start).0
    ≡ some (some entered)
unfolding authenticate_password_grant grant_password grant_scope get_by_client_id check_secret
    check_client validate_client validate_grant_type check_scope validate_scope contains is_space
    scan split join insert_sorted sorted_set select get_by_username get_by_email write_row conflicts
    store_user admits log_in or_by_email authenticate
enters = refl

refreshes :
    (authenticate_refresh_grant plain default_settings plain_verify
      (presenting "a")
      ticks
      (drawn 0)
      start).0
    ≡ some (some refreshed)
unfolding authenticate_refresh_grant grant_refresh grant_payload grant_user get_by_client_id
    check_secret check_client validate_client validate_grant_type contains select get_by_id
    validate_refresh_token decode_token read_as put_type write with_text with_number read_type
    with_type read accept put_text take_text put_number take_number
refreshes = refl

password_granted_example :
    (client : OauthClient) × (user : User) × IsPublicClient plain default_settings plain_verify
      "web" clients client
    × IsPasswordGrant plain default_settings plain_verify entering ticks
        (drawn 0)
        users
        entered
        client
        user
password_granted_example =
    password_granted plain default_settings plain_verify entering ticks (drawn 0) start entered
      enters

refresh_granted_example :
    (client : OauthClient) × (user : User) × (old : JwtPayload) × IsPublicClient plain
      default_settings plain_verify "web" clients client
    × IsRefreshGrant plain default_settings plain_verify
        (presenting "a")
        ticks
        (drawn 0)
        users
        refreshed
        client
        user
        old
refresh_granted_example =
    refresh_granted plain default_settings plain_verify (presenting "a") ticks (drawn 0) start
      refreshed refreshes
