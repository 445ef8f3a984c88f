-- ===== src/TokenEndpoint/Refresh.antt =====
-- `_handle_refresh_grant`, from the token presented to the rotation.
use codelab_auth_service.Common.{
  ℕ, ◌≤◌, ◌+◌, String, ◌≡◌, refl, sym, ◌∙◌, ap, subst, Bool, Bool-cases, inl, inr, true, false,
  Option, Option-cases, none, some, truthy,
}
use codelab_auth_service.AuthService.{
  TokenRequest, TokenResponse, Granted, authenticate_refresh_grant, text_of,
}
use codelab_auth_service.AuthService.Frames.{authenticate_refresh_grant-tokens}
use codelab_auth_service.Commands.{>>=-inverse}
use codelab_auth_service.Database.{Database, on_tokens}
use codelab_auth_service.Jwt.Interface.{Jwt}
use codelab_auth_service.JwtPayload.{JwtPayload}
use codelab_auth_service.Redis.Interface.{Redis}
use codelab_auth_service.RefreshToken.{RefreshToken, Table}
use codelab_auth_service.RefreshToken.Rows.{IsKeyed, find}
use codelab_auth_service.RefreshTokenService
use codelab_auth_service.RefreshTokenService.{
  new_token, save_refresh_token, revoke_token, get_by_jti, judge,
}
use codelab_auth_service.RefreshTokenService.Validation.{judge-accepted, validate-find}
use codelab_auth_service.Settings.{Settings}
use codelab_auth_service.TokenService
use codelab_auth_service.TokenService.{timestamp}
use codelab_auth_service.TokenEndpoint.{
  HttpRequest, JsonResponse, success_response, error_response, handle_refresh_grant,
  check_refresh_grant, continue_refresh_grant, rotate, on_db,
}
use codelab_auth_service.TokenEndpoint.Rotation
use codelab_auth_service.TokenEndpoint.Rotation.{rotate-response}

module _ (r : Redis) (jwt : Jwt) (settings : Settings) (sha256 : String → String)
    (verify : String → Option String → Option Bool) (request : HttpRequest) (clock : ℕ → ℕ → ℕ)
    (draw : ℕ → ℕ → String) where
  abbrev State : Type 0
  State = r.State × Database

  abbrev IsRotated : JwtPayload → RefreshToken → TokenResponse → Table → Type 0
  IsRotated = Rotation.IsRotated r jwt settings sha256 verify request clock draw

  -- What the grant starts from: the token presented, and its row.
  abbrev pub IsCurrent : TokenRequest → JwtPayload → RefreshToken → Table → Type 0
  IsCurrent q old t rows =
      (TokenService.validate_refresh_token jwt settings (timestamp (clock 0 0))
          (text_of q.refresh_token)
        ≡ some old)
      × (find (sha256 old.jti) rows ≡ some t)
      × (t.revoked ≡ false)
      × (clock 1 0 ≤ t.expires_at)

  continue_true :
      (q : TokenRequest) (old : JwtPayload) (valid : Bool) (msg : Option String) (s s' : State)
      (response : TokenResponse)
      → continue_refresh_grant r jwt settings sha256 verify request clock draw q old (valid, msg) s
        ≡ (some (success_response response), s')
      → valid ≡ true
  unfolding continue_refresh_grant
  continue_true q old true msg s s' response e = refl
  continue_true q old false msg s s' response e =
      cc (ap (λ (x : Option JsonResponse × State). x.0) e)

  continue-IsRotated :
      (q : TokenRequest) (old : JwtPayload) (msg : Option String) (t : RefreshToken) (s s' : State)
      (response : TokenResponse)
      → IsKeyed s.1.tokens
      → find (sha256 old.jti) s.1.tokens ≡ some t
      → continue_refresh_grant r jwt settings sha256 verify request clock draw q old (true, msg) s
        ≡ (some (success_response response), s')
      → IsRotated old t response s'.1.tokens
  unfolding continue_refresh_grant
  continue-IsRotated q old msg t s s' response k found e =
      let grant = authenticate_refresh_grant jwt settings verify q (λ i. clock (i + 2)) (draw 0) in
      let (result, s1, granted, e1) =
        >>=-inverse (on_db r jwt settings sha256 verify request clock draw grant)
          (rotate r jwt settings sha256 verify request clock draw old) s s'
          (success_response response) e in
      let same : s1.1.tokens ≡ s.1.tokens =
        sym (ap (λ (x : Option (Option Granted) × State). x.1.1.tokens) granted)
        ∙ authenticate_refresh_grant-tokens jwt settings verify q (λ i. clock (i + 2)) (draw 0)
            s.1 in
      rotate-response r jwt settings sha256 verify request clock draw old result t s1 s' response
        (subst IsKeyed (sym same) k) (ap (find (sha256 old.jti)) same ∙ found) e1

  check-IsRotated :
      (q : TokenRequest) (old : JwtPayload) (s s' : State) (response : TokenResponse)
      → IsKeyed s.1.tokens
      → check_refresh_grant r jwt settings sha256 verify request clock draw q (some old) s
        ≡ (some (success_response response), s')
      → (t : RefreshToken) × (find (sha256 old.jti) s.1.tokens ≡ some t)
        × (t.revoked ≡ false)
        × (clock 1 0 ≤ t.expires_at)
        × IsRotated old t response s'.1.tokens
  unfolding check_refresh_grant
  check-IsRotated q old s s' response k e =
      let validate = RefreshTokenService.validate_refresh_token sha256 (clock 1) old.jti in
      let ((valid, msg), s1, judged, e1) =
        >>=-inverse (on_db r jwt settings sha256 verify request clock draw (on_tokens validate))
          (continue_refresh_grant r jwt settings sha256 verify request clock draw q old) s s'
          (success_response response) e in
      let accepted = continue_true q old valid msg s1 s' response e1 in
      let judgement : judge sha256 (clock 1) (find (sha256 old.jti) s.1.tokens) s.1.tokens
          ≡ (some (true, msg), s1.1.tokens) =
        sym (validate-find sha256 (clock 1) old.jti s.1.tokens k)
        ∙ ap (λ (x : Option (Bool × Option String) × State). (x.0, x.1.1.tokens)) judged
        ∙ ap (λ (b : Bool). (some (b, msg), s1.1.tokens)) accepted in
      let (t, found, fresh, unexpired, same) =
        judge-accepted sha256 (clock 1) (find (sha256 old.jti) s.1.tokens) msg s.1.tokens
          s1.1.tokens judgement in
      (
        t,
        found,
        fresh,
        unexpired,
        continue-IsRotated q old msg t s1 s' response (subst IsKeyed (sym same) k)
            (ap (find (sha256 old.jti)) same ∙ found)
            (subst
              (λ (b : Bool).
                continue_refresh_grant r jwt settings sha256 verify request clock draw q old
                  (b, msg) s1
                ≡ (some (success_response response), s'))
              accepted e1),
      )

  abbrev presented : TokenRequest → Option JwtPayload
  presented q =
      TokenService.validate_refresh_token jwt settings (timestamp (clock 0 0))
        (text_of q.refresh_token)

  abbrev handle : TokenRequest → State → Option JsonResponse × State
  handle = handle_refresh_grant r jwt settings sha256 verify request clock draw

  pub handle-given :
      (q : TokenRequest) (s : State)
      → truthy q.refresh_token ≡ true
      → handle q s
        ≡ check_refresh_grant r jwt settings sha256 verify request clock draw q (presented q) s
  unfolding handle_refresh_grant
  handle-given q s given = rw given refl

  handle_empty :
      (q : TokenRequest) (s : State)
      → truthy q.refresh_token ≡ false
      → handle q s ≡ (
        some (error_response "invalid_request" "Missing required parameter: refresh_token" 400),
        s,
      )
  unfolding handle_refresh_grant
  handle_empty q s empty = rw empty refl

  handle_refused :
      (q : TokenRequest) (s : State)
      → truthy q.refresh_token ≡ true
      → presented q ≡ none
      → handle q s
        ≡ (some (error_response "invalid_grant" "Invalid or expired refresh token" 401), s)
  unfolding check_refresh_grant
  handle_refused q s given refused =
      handle-given q s given
      ∙ ap
          (λ (x : Option JwtPayload).
            check_refresh_grant r jwt settings sha256 verify request clock draw q x s)
          refused

  -- Whenever a refresh grant is answered with tokens, on a table with unique columns: the token
  -- presented was valid, and its hash has a row that was not revoked and not expired; afterwards
  -- this row is revoked, and the hash of the new refresh token, another one, finds a new row that
  -- is not revoked, names the old token as its parent and has its session identifier, or a drawn one
  -- if that is empty.
  pub refresh_rotates :
      (q : TokenRequest) (s : State) (response : TokenResponse)
      → IsKeyed s.1.tokens
      → let (reply, s') =
          handle_refresh_grant r jwt settings sha256 verify request clock draw q s in
        reply ≡ some (success_response response)
        → (old : JwtPayload) × (t : RefreshToken) × IsCurrent q old t s.1.tokens
          × IsRotated old t response s'.1.tokens
  refresh_rotates q s response k e = elim (Bool-cases (truthy q.refresh_token)) [
    | inr empty ↦
        cc (sym (ap (λ (x : Option JsonResponse × State). x.0) (handle_empty q s empty)) ∙ e)
    | inl given ↦ elim (Option-cases (presented q)) [
      | inl refused ↦ cc (
          sym (ap (λ (x : Option JsonResponse × State). x.0) (handle_refused q s given refused))
          ∙ e)
      | inr (old, is) ↦
          let s' = (handle_refresh_grant r jwt settings sha256 verify request clock draw q s).1 in
          let reply : check_refresh_grant r jwt settings sha256 verify request clock draw q
                (some old) s
              ≡ (some (success_response response), s') =
            sym (
              handle-given q s given
              ∙ ap
                  (λ (x : Option JwtPayload).
                    check_refresh_grant r jwt settings sha256 verify request clock draw q x s)
                  is)
            ∙ ap (λ (x : Option JsonResponse). (x, s')) e in
          let (t, found, fresh, unexpired, rotated) = check-IsRotated q old s s' response k reply in
          (old, t, (is, found, fresh, unexpired), rotated)
    ]
  ]
