-- ===== src/TokenEndpoint/PasswordTests.antt =====
-- The theorem on the password grant at concrete data.
use codelab_auth_service.Common.{◌≡◌, refl, none, some, [], ◌∷◌, ◌++◌, select}
use codelab_auth_service.AuthService.{issue}
use codelab_auth_service.AuthService.Examples.{entering, ticks, drawn}
use codelab_auth_service.BruteForce.{is_locked_out}
use codelab_auth_service.Database.{Database, logged}
use codelab_auth_service.Jwt.Plain.{plain, plain-IsLawful}
use codelab_auth_service.OauthClient.Examples.{web, clients, plain_verify}
use codelab_auth_service.OauthClientService.{validate_grant_type, check_scope, validate_scope}
use codelab_auth_service.Redis.Memory.{memory, fresh}
use codelab_auth_service.RefreshToken.{collides}
use codelab_auth_service.RefreshToken.Examples.{rows, same_text}
use codelab_auth_service.Settings.{default_settings}
use codelab_auth_service.Text.{contains, is_space, scan, split, join, insert_sorted, sorted_set}
use codelab_auth_service.User.Examples.{ann, bob, users}
use codelab_auth_service.UserService.{
  get_by_username, get_by_email, write_row, conflicts, store_user, admits, log_in, or_by_email,
  authenticate,
}
use codelab_auth_service.UserService.Named.{logged_in}
use codelab_auth_service.TokenEndpoint.{HttpRequest, success_response, handle_password_grant}
use codelab_auth_service.TokenEndpoint.PasswordAnswers.{first_payload, first_row, password_answered}

abbrev browser : HttpRequest
browser = record { host = some "10.0.0.1"; user_agent = none }

abbrev accounts : Database
accounts = record {
  clients = clients;
  users = users;
  tokens = rows;
  resets = [];
  confirmations = [];
  audits = [];
}

password_answered_example :
    let u = logged_in (ticks 0) ann in
    let (reply, s') =
      handle_password_grant memory plain default_settings same_text plain_verify browser ticks drawn
        entering
        (fresh, accounts) in
    (reply
      ≡ some (
          success_response
            (issue plain default_settings plain_verify u web "read write" (ticks 1) (drawn 0)).0))
    × (s'.1.users ≡ u ∷ bob ∷ [])
    × (s'.1.tokens
        ≡ rows
          ++ first_row memory plain default_settings same_text plain_verify browser ticks drawn (
              first_payload memory plain default_settings same_text plain_verify browser ticks drawn
                u web "read write")
            ∷ [])
unfolding is_locked_out validate_grant_type check_scope validate_scope contains is_space scan split
    join insert_sorted sorted_set select get_by_username get_by_email write_row conflicts store_user
    admits log_in or_by_email authenticate collides logged
password_answered_example =
    let u = logged_in (ticks 0) ann in
    password_answered memory plain default_settings same_text plain_verify browser ticks drawn
      plain-IsLawful entering web u (u ∷ bob ∷ []) "read write" none fresh accounts refl refl
      (refl, refl, refl) refl refl refl refl refl refl
