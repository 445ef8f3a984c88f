-- ===== src/RefreshTokenService/Tests.antt =====
-- The theorems on the refresh token service at concrete data.
use codelab_auth_service.Common.{
  ℕ, ◌+◌, ◌-◌, ◌*◌, ◌≤◌, String, ◌≡◌, ◌↔◌, refl, true, false, none, some, length, select, All, In,
}
use codelab_auth_service.JwtPayload.{TokenType, JwtPayload}
use codelab_auth_service.RefreshToken.{RefreshToken}
use codelab_auth_service.RefreshToken.Examples.{used_row, rows, rows-IsKeyed, same_text}
use codelab_auth_service.RefreshToken.Rows.{find, Marked}
use codelab_auth_service.RefreshTokenService.{
  validate_refresh_token, cleanup_expired_tokens, get_user_sessions, active_of, day,
}
use codelab_auth_service.RefreshTokenService.Reuse.{in_family, reuse_revokes_family}
use codelab_auth_service.RefreshTokenService.Cleanup.{cleanup_keeps_valid}
use codelab_auth_service.RefreshTokenService.Latest.{OnePerSession, get_user_sessions_latest}

abbrev ticks : ℕ → ℕ
ticks i = 100 + i

abbrev payload : JwtPayload
payload = record {
  iss = "i";
  sub = "ann";
  aud = "codelab-api";
  exp = 50;
  iat = 20;
  nbf = 20;
  jti = "d";
  type = TokenType.refresh;
  client_id = "web";
  scope = "read";
}

reuse_revokes_family_example :
    let (reply, rows') = validate_refresh_token same_text ticks "b" rows in
    (reply ≡ some (false, some "Refresh token has been revoked (reuse detected)"))
    × ((h : String) → Marked (in_family used_row) (find h rows) (find h rows'))
unfolding find
reuse_revokes_family_example =
    reuse_revokes_family same_text ticks "b" rows used_row rows-IsKeyed refl refl

cleanup_keeps_valid_example :
    let (count, rows') = cleanup_expired_tokens 40 0 rows in
    (count + length rows' ≡ length rows)
    × All (λ t. 40 - 0 * day ≤ t.expires_at) rows'
    × ((clock : ℕ → ℕ) (jti : String)
        → 40 ≤ clock 0
        → ((validate_refresh_token same_text clock jti rows').0 ≡ some (true, none))
          ↔ ((validate_refresh_token same_text clock jti rows).0 ≡ some (true, none)))
cleanup_keeps_valid_example = cleanup_keeps_valid same_text 40 0 rows rows-IsKeyed

get_user_sessions_latest_example :
    let active = select (active_of "ann") rows in
    let sessions = get_user_sessions "ann" rows in
    All
      (λ u.
        In u active × All (λ t. t.session_id ≡ u.session_id → t.created_at ≤ u.created_at) active)
      sessions
    × ((t : RefreshToken)
        → In t active
        → (u : RefreshToken) × In u sessions × (u.session_id ≡ t.session_id))
    × OnePerSession sessions
get_user_sessions_latest_example = get_user_sessions_latest "ann" rows
