-- ===== src/SessionService/Tests.antt =====
-- The theorems on the session service, and on its calls together with those of the refresh token
-- service, at concrete data.
use mathlib.Core.List.{map, Perm}
use codelab_auth_service.Common.{String, ℕ, ◌+◌, ◌≡◌, refl, false, some, List, [], ◌∷◌}
use codelab_auth_service.RefreshToken.Examples.{used_row, rows, rows-IsKeyed, same_text}
use codelab_auth_service.RefreshToken.Rows.{find}
use codelab_auth_service.RefreshTokenService.{validate_refresh_token, get_user_sessions}
use codelab_auth_service.SessionService.{list_user_sessions, summary_of}
use codelab_auth_service.SessionService.History.{
  perform_all, Call, close_session, cleanup, validate, revoked_never_accepted,
}
use codelab_auth_service.SessionService.Listing.{IsDescending, list_user_sessions_sorted}

abbrev ticks : ℕ → ℕ
ticks i = 100 + i

abbrev calls : List Call
calls = close_session ticks "ann" "s1" ∷ cleanup 40 0 ∷ validate ticks "a" ∷ []

revoked_never_accepted_example :
    (msg : String) × ((validate_refresh_token same_text ticks "b"
        (perform_all same_text calls rows)).0
      ≡ some (false, some msg))
unfolding find
revoked_never_accepted_example =
    revoked_never_accepted same_text ticks "b" calls rows used_row rows-IsKeyed refl refl tt

list_user_sessions_sorted_example :
    IsDescending (list_user_sessions "ann" rows)
    × Perm
        (list_user_sessions "ann" rows)
        (map (λ t. summary_of t.session_id t) (get_user_sessions "ann" rows))
list_user_sessions_sorted_example = list_user_sessions_sorted "ann" rows
