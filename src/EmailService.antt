-- ===== src/EmailService.antt =====
-- app/services/email_service.py: `class EmailService`. The loggers are left out. The drawn token and
-- primary keys and the readings of the clock are arguments. An exception of the audit service is
-- passed over; its state is then as it was.
pub mod Tokens
use codelab_auth_service.Common.{
  ℕ, ◌+◌, ◌*◌, String, Bool, true, false, Option, none, some, [], ◌∷◌, ◌++◌, select, first, ltb,
  ◌==◌, if◌then◌else◌,
}
use codelab_auth_service.AuditService.{
  log_email_sent, log_email_failed, log_email_confirmation_failed,
  log_email_confirmation_token_generated,
}
use codelab_auth_service.ConfirmationToken.{EmailConfirmationToken, ConfirmationTable, is_taken}
use codelab_auth_service.Database.{Database}
use codelab_auth_service.RefreshTokenService.{second}
use codelab_auth_service.Settings.{Settings}
use codelab_auth_service.User.{User}

-- The row of a token; `expires_at` is reckoned before the insert reads the clock.
abbrev pub new_confirmation : String → String → ℕ → String → (ℕ → ℕ) → EmailConfirmationToken
new_confirmation user_id token expires_in_hours id clock = record {
  id = id;
  user_id = user_id;
  token = token;
  expires_at = clock 0 + expires_in_hours * 3600 * second;
  created_at = clock 1;
}

-- With the commit, as its only caller has it. A flush that raises is rolled back.
unfoldable pub save_confirmation_token :
    String → String → ℕ → String → (ℕ → ℕ) → ConfirmationTable → Bool × ConfirmationTable
unfolding is_taken
save_confirmation_token user_id token expires_in_hours id clock rows =
    let t = new_confirmation user_id token expires_in_hours id clock in
    if is_taken t rows then (false, rows) else (true, rows ++ t ∷ [])

abbrev pub is_confirmation_required : Settings → Bool
is_confirmation_required settings = settings.require_email_confirmation

module _ (id : String) (now : ℕ) where
  -- What follows the notification service's answer, `none` where it raises.
  abbrev pub after_send : Option Bool → User → Database → Bool × Database
  after_send none user db = (false, db)
  after_send (some true) user db =
      (true, (log_email_sent id now user.id "confirmation" user.email db).1)
  after_send (some false) user db = (
    false,
    (log_email_failed id now (some user.id) "confirmation" "Failed to send confirmation email"
        db).1,
  )

  abbrev pub send_confirmation_email :
      (User → String → Option Bool) → User → String → Database → Bool × Database
  send_confirmation_email notify user token db = after_send (notify user token) user db

-- `today` is the reading of the clock against which the token is tested; `id` and `now` are those of
-- the audit entry.
module _ (id : String) (today now : ℕ) where
  abbrev pub failed_confirmation : String → Database → Option User × Database
  failed_confirmation reason db = (none, (log_email_confirmation_failed id now reason db).1)

  -- The user that the row of a token names.
  abbrev pub verify_owner : Option User → Database → Option User × Database
  verify_owner none db = failed_confirmation "user_not_found" db
  verify_owner (some user) db =
      (some user, (log_email_confirmation_token_generated id now user.id db).1)

  -- The row of a token.
  abbrev pub verify_row : Option EmailConfirmationToken → Database → Option User × Database
  verify_row none db = failed_confirmation "token_not_found" db
  verify_row (some t) db =
      if ltb t.expires_at today
      then failed_confirmation "token_expired" db
      else verify_owner (first (select (λ u. u.id == t.user_id) db.users)) db

  unfoldable pub verify_confirmation_token : String → Database → Option User × Database
  verify_confirmation_token token db =
      verify_row (first (select (λ t. t.token == token) db.confirmations)) db
