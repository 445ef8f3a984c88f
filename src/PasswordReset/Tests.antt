-- ===== src/PasswordReset/Tests.antt =====
-- The theorems on the reset of passwords at concrete data.
use codelab_auth_service.Common.{
  ℕ, ◌+◌, ◌≤◌, String, length, All, ◌*◌, ◌≡◌, refl, none, some, [], ◌∷◌, leb, ◌==◌, if◌then◌else◌,
}
use codelab_auth_service.PasswordReset.{
  ResetTable, taken, create_token, verify_token, mark_token_used, cleanup_expired_tokens,
  token_expiration_minutes,
}
use codelab_auth_service.PasswordReset.Rows.{IsKeyed}
use codelab_auth_service.PasswordReset.Use.{create_then_verify, used_once}
use codelab_auth_service.PasswordReset.Cleanup.{cleanup_keeps_good}
use codelab_auth_service.RefreshToken.Examples.{same_text}
use codelab_auth_service.RefreshTokenService.{second}

abbrev rows : ResetTable
rows =
    record {
      id = "1";
      user_id = "ann";
      token_hash = "x";
      created_at = 10;
      expires_at = 1000;
      used_at = none;
    }
    ∷ []

rows-IsKeyed : IsKeyed rows
unfolding taken
rows-IsKeyed = (refl, tt)

create_then_verify_example :
    let rows' = (create_token same_text "bob" "y" "2" 50 rows).1 in
    (verify_token same_text 60 "y" rows').0 ≡ (
      if "y" == "y"
      then some (if leb 60 (50 + token_expiration_minutes * 60 * second) then some "bob" else none)
      else (verify_token same_text 60 "y" rows).0)
unfolding create_token taken
create_then_verify_example =
    create_then_verify same_text "bob" "y" "2" 50 rows rows-IsKeyed (λ e. cc e) refl 60 "y"
      (λ e. cc e)

cleanup_keeps_good_example :
    let (count, rows') = cleanup_expired_tokens 2000 rows in
    (count + length rows' ≡ length rows)
    × All (λ t. 2000 ≤ t.expires_at) rows'
    × ((later : ℕ) (token : String)
        → 2000 ≤ later
        → (verify_token same_text later token rows').0
          ≡ (verify_token same_text later token rows).0)
cleanup_keeps_good_example = cleanup_keeps_good same_text 2000 rows rows-IsKeyed

used_once_example :
    (verify_token same_text 30 "x" (mark_token_used same_text 20 "x" rows).1).0
    ≡ (if "x" == "x" then some none else (verify_token same_text 30 "x" rows).0)
used_once_example = used_once same_text 20 "x" rows rows-IsKeyed (λ e. cc e) 30 "x"
