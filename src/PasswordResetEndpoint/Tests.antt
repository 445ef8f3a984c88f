-- ===== src/PasswordResetEndpoint/Tests.antt =====
-- The theorems on the reset endpoint at concrete data.
use codelab_auth_service.Common.{
  ℕ, ◌+◌, ◌*◌, eq_iff, String, ◌<>◌, ◌≡◌, ◌⊎◌, refl, true, false, none, some, [], ◌∷◌, leb, eqb,
  select, arith, if◌then◌else◌,
}
use codelab_auth_service.AuditService.{looks_successful}
use codelab_auth_service.Database.{Database, logged}
use codelab_auth_service.Handlers.{reply}
use codelab_auth_service.PasswordReset.{
  ResetTable, verify_token, create_token, taken, token_expiration_minutes,
}
use codelab_auth_service.PasswordReset.Rows.{IsKeyed}
use codelab_auth_service.Redis.Memory.{memory, memory-IsLawful, fresh}
use codelab_auth_service.RefreshToken.Examples.{same_text}
use codelab_auth_service.RefreshTokenService.{second}
use codelab_auth_service.Settings.{default_settings}
use codelab_auth_service.TokenEndpoint.{HttpRequest}
use codelab_auth_service.User.Examples.{ann, users}
use codelab_auth_service.User.{occupied}
use codelab_auth_service.UserService.{write_row}
use codelab_auth_service.UserService.Keys.{IsUnique}
use codelab_auth_service.UserService.Lookups.{find}
use codelab_auth_service.BruteForce.{is_locked_out}
use codelab_auth_service.RateLimiter.{check_rate_limit_username, check_key}
use codelab_auth_service.Validators.{validate_password}
use codelab_auth_service.Validators.{Reason}
use codelab_auth_service.PasswordResetEndpoint.{
  PasswordResetConfirm, sent_text, request_password_reset, confirm_password_reset,
}
use codelab_auth_service.PasswordResetEndpoint.Requests.{
  answer_hides_account, mailed_token_good, answer_of,
}
use codelab_auth_service.PasswordResetEndpoint.Confirmation.{password_reset_once, with_password}
use codelab_auth_service.PasswordResetEndpoint.Attempts.{Attempt, confirm_all, IsBad}
use codelab_auth_service.PasswordResetEndpoint.SharedLockout.{failures_lock_everyone}
use codelab_auth_service.PasswordResetEndpoint.Outcome.{password_needs_token}

abbrev browser : HttpRequest
browser = record { host = some "10.0.0.1"; user_agent = none }

abbrev hashed : String → String
hashed p = "hash of " <> p

abbrev clock : ℕ → ℕ
clock k = 1000 + k

abbrev draw : ℕ → String
draw k = if eqb k 0 then "long-random-token" else if eqb k 1 then "row" else "entry"

abbrev message : Reason → String
message reason = "refused"

abbrev accounts : Database
accounts = record {
  clients = [];
  users = users;
  tokens = [];
  resets = [];
  confirmations = [];
  audits = [];
}

abbrev nobody : Database
nobody = record accounts { users = [] }

users-IsUnique : IsUnique users
unfolding occupied
users-IsUnique = (refl, (refl, tt))

answer_hides_account_example :
    ((request_password_reset memory default_settings same_text hashed browser clock draw ann.email
        (fresh, accounts)).0.0
      ≡ (request_password_reset memory default_settings same_text hashed browser clock draw
          ann.email
          (fresh, nobody)).0.0)
    × ((request_password_reset memory default_settings same_text hashed browser clock draw ann.email
          (fresh, accounts)).0.0
        ≡ answer_of true)
unfolding logged check_rate_limit_username check_key
answer_hides_account_example =
    answer_hides_account memory default_settings same_text hashed browser clock draw ann.email fresh
      accounts nobody users-IsUnique tt refl refl

mailed_token_good_example :
    let (answer, s') =
      request_password_reset memory default_settings same_text hashed browser clock draw ann.email
        (fresh, accounts) in
    (answer ≡ (reply 200 sent_text, some ("ann@example.org", "long-random-token")))
    × ((verify_token same_text 2000 "long-random-token" s'.1.resets).0
        ≡ some
            (if leb 2000 (1000 + token_expiration_minutes * 60 * second) then some "ann" else none))
unfolding find check_rate_limit_username check_key create_token taken logged
mailed_token_good_example =
    mailed_token_good memory default_settings same_text hashed browser clock draw ann.email fresh
      accounts ann users-IsUnique tt refl refl (λ e. cc e) refl refl 2000

-- The database after such a request.
abbrev resets : ResetTable
resets =
    record {
      id = "row";
      user_id = "ann";
      token_hash = "long-random-token";
      created_at = 900;
      expires_at = 5000;
      used_at = none;
    }
    ∷ []

resets-IsKeyed : IsKeyed resets
unfolding taken
resets-IsKeyed = (refl, tt)

abbrev form : PasswordResetConfirm
form = record { token = "long-random-token"; password = "Secret1!"; password_confirm = "Secret1!" }

abbrev asked : Database
asked = record accounts { resets = resets }

password_reset_once_example :
    let (answer, s') =
      confirm_password_reset memory default_settings same_text hashed browser clock draw message
        form
        (fresh, asked) in
    (answer ≡ reply 200 "Password successfully reset")
    × (s'.1.users ≡ write_row (with_password "hash of Secret1!" 1001 ann) users)
    × (s'.1.tokens ≡ [])
    × ((verify_token same_text 1000 "long-random-token" s'.1.resets).0 ≡ some none)
unfolding find is_locked_out verify_token validate_password logged select
password_reset_once_example =
    password_reset_once memory default_settings same_text hashed browser clock draw message form
      fresh asked none "ann" ann users-IsUnique resets-IsKeyed refl refl refl refl (λ e. cc e)
      (λ e. cc e) refl refl 1000

password_needs_token_example :
    (confirm_password_reset memory default_settings same_text hashed browser clock draw message form
        (fresh, accounts)).1.1.users
      ≡ users
    ⊎ (true ≡ true)
      × (validate_password default_settings "Secret1!" ≡ none)
      × ((is_locked_out memory default_settings "password_reset" "10.0.0.1" fresh).0.0 ≡ false)
      × ((uid : String) × ((verify_token same_text 1000 "long-random-token" []).0
            ≡ some (some uid)))
password_needs_token_example =
    password_needs_token memory default_settings same_text hashed browser clock draw message form
      (fresh, accounts)

-- A wrong token from one address, five times, one second apart.
abbrev guess : Attempt
guess = record {
  request = record { host = some "10.9.9.9"; user_agent = none };
  clock = clock;
  draw = λ k. "guess";
  form = record { token = "wrong"; password = "Secret1!"; password_confirm = "Secret1!" };
  pause = 1;
}

guess-IsBad :
    IsBad memory default_settings same_text hashed message "long-random-token" resets guess
unfolding verify_token validate_password select
guess-IsBad = record {
  same = refl;
  strong = refl;
  bad = refl;
  apart = λ e. cc ((eq_iff "guess" "long-random-token").1 e);
}

failures_lock_everyone_example :
    (confirm_password_reset memory default_settings same_text hashed browser clock draw message form
      (confirm_all memory default_settings same_text hashed message
        (guess ∷ guess ∷ guess ∷ guess ∷ guess ∷ [])
        (fresh, asked))).0.status_code
    ≡ 429
unfolding validate_password logged
failures_lock_everyone_example =
    failures_lock_everyone memory default_settings same_text hashed browser clock draw message form
      memory-IsLawful (guess ∷ guess ∷ guess ∷ guess ∷ guess ∷ []) fresh asked refl (omega arith)
      (omega arith) refl (λ i. refl)
      (guess-IsBad, (guess-IsBad, (guess-IsBad, (guess-IsBad, (guess-IsBad, tt))))) (omega arith)
      (omega arith) refl refl refl

-- A refusal that the audit takes for a success.
refusal_logged_as_success : looks_successful "PASSWORD_RESET_INVALID_TOKEN" ≡ true
unfolding looks_successful
refusal_logged_as_success = refl
