-- ===== src/TokenEndpoint/Answers.antt =====
-- When `_handle_refresh_grant` answers with tokens.
use codelab_auth_service.Common.{
  ℕ, ◌+◌, String, ◌≡◌, refl, ◌∙◌, ap, Bool, true, false, Option, none, some, arith, truthy, ◌==◌,
}
use codelab_auth_service.AuthService.{
  TokenRequest, Granted, authenticate_refresh_grant, text_of, issue, validate_refresh_grant,
}
use codelab_auth_service.AuthService.Grants.{IsPublicClient}
use codelab_auth_service.AuthService.Granting.{refresh_grants}
use codelab_auth_service.Commands.{>>=-reply}
use codelab_auth_service.Database.{Database, on_tokens, logged}
use codelab_auth_service.Jwt.Interface.{Jwt, IsLawful}
use codelab_auth_service.JwtPayload.{JwtPayload, TokenType}
use codelab_auth_service.OauthClient.{OauthClient, GrantType}
use codelab_auth_service.OauthClientService.{validate_grant_type}
use codelab_auth_service.User.{User}
use codelab_auth_service.UserService.Keys.{IsUnique}
use codelab_auth_service.UserService.Lookups
use codelab_auth_service.Redis.Interface.{Redis}
use codelab_auth_service.RefreshToken.{RefreshToken, collides}
use codelab_auth_service.RefreshToken.Rows.{IsKeyed}
use codelab_auth_service.RefreshTokenService
use codelab_auth_service.RefreshTokenService.{
  new_token, save_refresh_token, insert, revoke_token, revoke_found, get_by_jti, judge, same_row,
}
use codelab_auth_service.RefreshTokenService.Validation.{validate-find}
use codelab_auth_service.Settings.{Settings}
use codelab_auth_service.TokenService
use codelab_auth_service.TokenService.{
  timestamp, new_payload, create_token_pair, create_access_token, create_refresh_token,
}
use codelab_auth_service.TokenService.Lifetimes.{is_live, pair_accepted}
use codelab_auth_service.TokenEndpoint.{
  HttpRequest, JsonResponse, success_response, handle_refresh_grant, check_refresh_grant,
  continue_refresh_grant, rotate,
}
use codelab_auth_service.TokenEndpoint.Refresh.{IsCurrent, handle-given}
use codelab_auth_service.TokenEndpoint.RotationAnswers.{on, on_table, new_row, rotates}

given : (q : TokenRequest) → validate_refresh_grant q ≡ true → truthy q.refresh_token ≡ true
given q asked = ground arith

module _ (r : Redis) (jwt : Jwt) (settings : Settings) (sha256 : String → String)
    (verify : String → Option String → Option Bool) (request : HttpRequest) (clock : ℕ → ℕ → ℕ)
    (draw : ℕ → ℕ → String) where
  abbrev State : Type 0
  State = r.State × Database

  abbrev moved : Option (Option Granted) × Database → State → Option (Option Granted) × State
  moved (reply, db) s = (reply, (s.0, db))

  -- The stages before the rotation.
  reaches_rotation :
      (q : TokenRequest) (old : JwtPayload) (granted : Granted) (t : RefreshToken) (s : State)
      → truthy q.refresh_token ≡ true
      → IsKeyed s.1.tokens
      → IsCurrent r jwt settings sha256 verify request clock draw q old t s.1.tokens
      → authenticate_refresh_grant jwt settings verify q (λ i. clock (i + 2)) (draw 0) s.1
        ≡ (some (some granted), s.1)
      → handle_refresh_grant r jwt settings sha256 verify request clock draw q s
        ≡ rotate r jwt settings sha256 verify request clock draw old (some granted) s
  unfolding check_refresh_grant continue_refresh_grant judge
  reaches_rotation q old granted t s given k (presented, found, fresh, unexpired) grants =
      let validate = RefreshTokenService.validate_refresh_token sha256 (clock 1) old.jti in
      let judged : validate s.1.tokens ≡ (some (true, none), s.1.tokens) =
        ground (arith, validate-find sha256 (clock 1) old.jti s.1.tokens k) in
      handle-given r jwt settings sha256 verify request clock draw q s given
      ∙ ap
          (λ (x : Option JwtPayload).
            check_refresh_grant r jwt settings sha256 verify request clock draw q x s)
          presented
      ∙ >>=-reply (on r jwt settings sha256 verify request clock draw (on_tokens validate))
          (continue_refresh_grant r jwt settings sha256 verify request clock draw q old) s s
          (true, none)
          (on_table r jwt settings sha256 verify request clock draw validate s (true, none)
            s.1.tokens judged)
      ∙ >>=-reply
          (on r jwt settings sha256 verify request clock draw
            (authenticate_refresh_grant jwt settings verify q (λ i. clock (i + 2)) (draw 0)))
          (rotate r jwt settings sha256 verify request clock draw old) s s (some granted)
          (ap (λ (x : Option (Option Granted) × Database). moved x s) grants)

  -- The payload of the refresh token that a grant issues.
  abbrev pub next_payload : User → OauthClient → JwtPayload → JwtPayload
  next_payload u c old =
      new_payload settings TokenType.refresh u.id c.client_id old.scope c.refresh_token_lifetime
        (clock 3 1) (draw 0 1)

  next_read :
      (laws : IsLawful jwt) (u : User) (c : OauthClient) (old : JwtPayload)
      → is_live (next_payload u c old) (timestamp (clock 5 0)) ≡ true
      → TokenService.validate_refresh_token jwt settings
          (timestamp (clock 5 0))
          (issue jwt settings verify u c old.scope (clock 3) (draw 0)).0.refresh_token
        ≡ some (next_payload u c old)
  unfolding create_token_pair create_access_token create_refresh_token
  next_read laws u c old live =
      let (_, _, read, _) =
        pair_accepted jwt settings laws u.id c.client_id old.scope (some c.access_token_lifetime)
          (some c.refresh_token_lifetime) (clock 3) (draw 0) (timestamp (clock 5 0)) in
      read ∙ rw live refl

  -- A refresh grant is answered with tokens if, on tables with unique columns and with a lawful JWT
  -- library: the refresh token is valid at both readings of the clock, and its hash has a row that is
  -- not revoked and not expired; the client is active, public and allowed this grant, and the token
  -- was issued to it; its user is there and active; the new refresh token is alive when it is read,
  -- and its hash and the drawn identifiers are taken by no row.
  pub refresh_answered :
      (laws : IsLawful jwt) (q : TokenRequest) (old : JwtPayload) (t : RefreshToken)
      (c : OauthClient) (u : User) (s : State)
      → validate_refresh_grant q ≡ true
      → IsKeyed s.1.tokens
      → IsUnique s.1.users
      → IsCurrent r jwt settings sha256 verify request clock draw q old t s.1.tokens
      → TokenService.validate_refresh_token jwt settings
          (timestamp (clock 2 0))
          (text_of q.refresh_token)
        ≡ some old
      → IsPublicClient jwt settings verify q.client_id s.1.clients c
      → validate_grant_type c GrantType.refresh_token ≡ true
      → (old.client_id == q.client_id) ≡ true
      → Lookups.find (λ v. v.id == old.sub) s.1.users ≡ some u
      → u.is_active ≡ true
      → is_live (next_payload u c old) (timestamp (clock 5 0)) ≡ true
      → collides
          (new_row r jwt settings sha256 verify request clock draw old (next_payload u c old) none)
          s.1.tokens
        ≡ false
      → logged (draw 2 0) s.1.audits ≡ false
      → (handle_refresh_grant r jwt settings sha256 verify request clock draw q s).0
        ≡ some (success_response (issue jwt settings verify u c old.scope (clock 3) (draw 0)).0)
  refresh_answered laws q old t c u s asked k unique current again client allowed ours known active
        live room free =
      let granted = issue jwt settings verify u c old.scope (clock 3) (draw 0) in
      let (_, found, _, _) = current in
      ap (λ (x : Option JsonResponse × State). x.0)
        (reaches_rotation q old granted t s (given q asked) k current (
          refresh_grants jwt settings verify q (λ i. clock (i + 2)) (draw 0) s.1 c old u asked
            client allowed again ours unique known active))
      ∙ rotates r jwt settings sha256 verify request clock draw old (next_payload u c old) granted t
          s k found (next_read laws u c old live) room free
