-- ===== src/AdminEndpoint/Active.antt =====
-- The list that a deletion gives to the blacklist, against the rows of the table of refresh tokens.
use codelab_auth_service.Common.{
  ℕ, ◌/◌, String, ◌≡◌, refl, Bool, false, not, ◌&&◌, ◌||◌, [], ◌∷◌, arith, select, length, ltb,
  ◌==◌,
}
use codelab_auth_service.RefreshToken.{RefreshToken, Table}
use codelab_auth_service.RefreshTokenService.{second}
use codelab_auth_service.TokenBlacklist.Batch.{live_in, live_count}
use codelab_auth_service.TokenService.{timestamp}
use codelab_auth_service.AdminEndpoint.{is_live, token_list}

abbrev pub any : (RefreshToken → Bool) → Table → Bool
any p [] = false
any p (t ∷ ts) = p t || any p ts

abbrev is_active : String → ℕ → ℕ → RefreshToken → Bool
is_active user_id now revoked_at t =
    t.user_id == user_id
    && (not t.revoked
        && (ltb now t.expires_at && ltb (revoked_at / second) (t.expires_at / second)))

pub count_active :
    (user_id : String) (now revoked_at : ℕ) (rows : Table)
    → live_count (timestamp revoked_at) (token_list (select (is_live user_id now) rows))
      ≡ length (select (is_active user_id now revoked_at) rows)
unfolding select token_list
count_active user_id now revoked_at [] = refl
count_active user_id now revoked_at (t ∷ ts) =
    ground (arith, count_active user_id now revoked_at ts)

pub list_active :
    (user_id : String) (now revoked_at : ℕ) (j : String) (rows : Table)
    → live_in (timestamp revoked_at) j (token_list (select (is_live user_id now) rows))
      ≡ any (λ t. is_active user_id now revoked_at t && t.id == j) rows
unfolding select token_list
list_active user_id now revoked_at j [] = refl
list_active user_id now revoked_at j (t ∷ ts) =
    ground (arith, list_active user_id now revoked_at j ts)
