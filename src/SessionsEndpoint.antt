-- ===== src/SessionsEndpoint.antt =====
-- app/api/v1/sessions.py: the three handlers, and `get_current_user` of app/core/dependencies.py,
-- which runs before each. The loggers are left out. `now` is the second at which the token is
-- validated; `clock` are the readings of the clock of a revocation. A time in an answer is the
-- number, where the source prints it.
pub mod Owner
mod Tests
use codelab_auth_service.Common.{ℕ, String, ◌<>◌, Bool, true, false, Option, none, some, List}
use codelab_auth_service.Jwt.Interface.{Jwt}
use codelab_auth_service.JwtPayload.{JwtPayload}
use codelab_auth_service.RefreshToken.{Table}
use codelab_auth_service.SessionService.{
  SessionSummary, SessionInfo, list_user_sessions, get_session_info, revoke_session,
}
use codelab_auth_service.Settings.{Settings}
use codelab_auth_service.TokenService.{validate_access_token}

-- What a handler answers: a body with status 200, or the detail of an exception.
pub data Answer : Type 0 where
  sessions : List SessionSummary → Answer
  session : SessionInfo → Answer
  message : String → Answer
  refused : ℕ → String → Answer

abbrev pub unauthorized : Answer
unauthorized = refused 401 "Invalid or expired access token"

abbrev pub not_found : Answer
not_found = refused 404 "Session not found"

-- What `get_session` makes of the service's answer.
abbrev pub session_answer : Option SessionInfo → Answer
session_answer none = not_found
session_answer (some info) = session info

abbrev pub revocation_answer : String → Bool → Answer
revocation_answer session_id true = message ("Session " <> (session_id <> " revoked successfully"))
revocation_answer session_id false = not_found

-- The handlers, of the user that the access token names.
abbrev pub list_of : Option JwtPayload → Table → Answer
list_of none rows = unauthorized
list_of (some current_user) rows = sessions (list_user_sessions current_user.sub rows)

abbrev pub session_of : Option JwtPayload → String → Table → Answer
session_of none session_id rows = unauthorized
session_of (some current_user) session_id rows =
    session_answer (get_session_info current_user.sub session_id rows)

abbrev pub delete_of : Option JwtPayload → (ℕ → ℕ) → String → Table → Answer × Table
delete_of none clock session_id rows = (unauthorized, rows)
delete_of (some current_user) clock session_id rows =
    let (success, rows') = revoke_session clock current_user.sub session_id rows in
    (revocation_answer session_id success, rows')

module _ (jwt : Jwt) (settings : Settings) (now : ℕ) where
  -- `none` is the exception with status 401.
  pub get_current_user : String → Option JwtPayload
  get_current_user token = validate_access_token jwt settings now token

  pub list_sessions : String → Table → Answer
  list_sessions token rows = list_of (get_current_user token) rows

  pub get_session : String → String → Table → Answer
  get_session token session_id rows = session_of (get_current_user token) session_id rows

  pub delete_session : (ℕ → ℕ) → String → String → Table → Answer × Table
  delete_session clock token session_id rows =
      delete_of (get_current_user token) clock session_id rows
