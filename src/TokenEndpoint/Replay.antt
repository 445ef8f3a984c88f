-- ===== src/TokenEndpoint/Replay.antt =====
-- `_handle_refresh_grant` on a refresh token that has been used already.
use codelab_auth_service.Common.{
  ℕ, String, ◌≡◌, sym, ◌∙◌, ap, subst, Bool, true, false, Option, some, truthy,
}
use codelab_auth_service.AuthService.{TokenRequest, text_of}
use codelab_auth_service.Commands.{>>=-reply}
use codelab_auth_service.Database.{Database, on_tokens}
use codelab_auth_service.Jwt.Interface.{Jwt}
use codelab_auth_service.JwtPayload.{JwtPayload}
use codelab_auth_service.Redis.Interface.{Redis}
use codelab_auth_service.RefreshToken.{RefreshToken, Table}
use codelab_auth_service.RefreshToken.Rows.{IsKeyed, find, Marked}
use codelab_auth_service.RefreshTokenService
use codelab_auth_service.RefreshTokenService.Reuse.{in_family, reuse_revokes_family}
use codelab_auth_service.Settings.{Settings}
use codelab_auth_service.TokenService
use codelab_auth_service.TokenService.{timestamp}
use codelab_auth_service.TokenEndpoint.{
  HttpRequest, JsonResponse, error_response, handle_refresh_grant, check_refresh_grant,
  continue_refresh_grant, on_db,
}
use codelab_auth_service.TokenEndpoint.Refresh.{handle-given}

module _ (r : Redis) (jwt : Jwt) (settings : Settings) (sha256 : String → String)
    (verify : String → Option String → Option Bool) (request : HttpRequest) (clock : ℕ → ℕ → ℕ)
    (draw : ℕ → ℕ → String) where
  abbrev State : Type 0
  State = r.State × Database

  abbrev reused : JsonResponse
  reused = error_response "invalid_grant" "Refresh token has been revoked (reuse detected)" 401

  check_reused :
      (q : TokenRequest) (old : JwtPayload) (s : State) (rows : Table)
      → RefreshTokenService.validate_refresh_token sha256 (clock 1) old.jti s.1.tokens
        ≡ (some (false, some "Refresh token has been revoked (reuse detected)"), rows)
      → check_refresh_grant r jwt settings sha256 verify request clock draw q (some old) s
        ≡ (some reused, (s.0, record (s.1) { tokens = rows }))
  unfolding check_refresh_grant continue_refresh_grant
  check_reused q old s rows e =
      let validate = RefreshTokenService.validate_refresh_token sha256 (clock 1) old.jti in
      >>=-reply (on_db r jwt settings sha256 verify request clock draw (on_tokens validate))
        (continue_refresh_grant r jwt settings sha256 verify request clock draw q old) s
        (s.0, record (s.1) { tokens = rows })
        (false, some "Refresh token has been revoked (reuse detected)")
        (ap
          (λ (x : Option (Bool × Option String) × Table).
            (x.0, (s.0, record (s.1) { tokens = x.1 })))
          e)

  -- A valid refresh token whose row has been revoked, on a table with unique columns, is answered
  -- with the error 401, and every token of its user at its client is revoked; no other row is
  -- changed.
  pub replay_refused :
      (q : TokenRequest) (s : State) (old : JwtPayload) (t : RefreshToken)
      → IsKeyed s.1.tokens
      → truthy q.refresh_token ≡ true
      → TokenService.validate_refresh_token jwt settings
          (timestamp (clock 0 0))
          (text_of q.refresh_token)
        ≡ some old
      → find (sha256 old.jti) s.1.tokens ≡ some t
      → t.revoked ≡ true
      → let (reply, s') =
          handle_refresh_grant r jwt settings sha256 verify request clock draw q s in
        (reply
          ≡ some (
              error_response "invalid_grant" "Refresh token has been revoked (reuse detected)" 401))
        × ((h : String) → Marked (in_family t) (find h s.1.tokens) (find h s'.1.tokens))
  replay_refused q s old t k given is found revoked =
      let (refused, marks) =
        reuse_revokes_family sha256 (clock 1) old.jti s.1.tokens t k found revoked in
      let rows =
        (RefreshTokenService.validate_refresh_token sha256 (clock 1) old.jti s.1.tokens).1 in
      let result =
        handle-given r jwt settings sha256 verify request clock draw q s given
        ∙ ap
            (λ (x : Option JwtPayload).
              check_refresh_grant r jwt settings sha256 verify request clock draw q x s)
            is
        ∙ check_reused q old s rows
            (ap (λ (x : Option (Bool × Option String)). (x, rows)) refused) in
      (
        ap (λ (x : Option JsonResponse × State). x.0) result,
        λ h.
            subst (λ (x : Table). Marked (in_family t) (find h s.1.tokens) (find h x))
              (sym (ap (λ (x : Option JsonResponse × State). x.1.1.tokens) result)) (marks h),
      )
