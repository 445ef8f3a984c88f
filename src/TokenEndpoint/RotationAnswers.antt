-- ===== src/TokenEndpoint/RotationAnswers.antt =====
-- When the rotation of a refresh token answers with tokens.
use codelab_auth_service.Common.{
  ℕ, String, ◌≡◌, refl, ◌∙◌, ap, Bool, true, false, Option, none, some, [], ◌∷◌, ◌++◌, arith,
}
use codelab_auth_service.AuthService.{Granted}
use codelab_auth_service.Commands.{◌>>=◌, >>=-reply}
use codelab_auth_service.Database.{Database, on_tokens, log_token_refresh, log_event, logged}
use codelab_auth_service.Jwt.Interface.{Jwt}
use codelab_auth_service.JwtPayload.{JwtPayload}
use codelab_auth_service.Redis.Interface.{Redis}
use codelab_auth_service.RefreshToken.{RefreshToken, Table, collides, revoke_rows}
use codelab_auth_service.RefreshToken.Rows.{
  IsKeyed, find, collides-revoke_rows, revoke_rows-IsKeyed,
}
use codelab_auth_service.RefreshTokenService.{
  new_token, save_refresh_token, insert, revoke_token, revoke_found, get_by_jti, same_row,
}
use codelab_auth_service.RefreshTokenService.Validation.{get_by_jti-find}
use codelab_auth_service.Settings.{Settings}
use codelab_auth_service.TokenService
use codelab_auth_service.TokenService.{
  timestamp, new_payload, create_token_pair, create_access_token, create_refresh_token,
}
use codelab_auth_service.TokenEndpoint.{
  HttpRequest, JsonResponse, success_response, ip_of, rotate, read_new_token, find_session,
  save_rotation, report_rotation, on_db, lift,
}

collides_same :
    (t u : RefreshToken) (rows : Table)
    → t.id ≡ u.id
    → t.jti_hash ≡ u.jti_hash
    → collides t rows ≡ collides u rows
unfolding collides
collides_same t u [] id hash = refl
collides_same t u (v ∷ vs) id hash = rw (collides_same t u vs id hash, id, hash) refl

abbrev session_of : Option RefreshToken → Option String
session_of none = none
session_of (some t) = some t.session_id

module _ (r : Redis) (jwt : Jwt) (settings : Settings) (sha256 : String → String)
    (verify : String → Option String → Option Bool) (request : HttpRequest) (clock : ℕ → ℕ → ℕ)
    (draw : ℕ → ℕ → String) where
  abbrev State : Type 0
  State = r.State × Database

  abbrev pub on : {A : Type 0} → (Database → Option A × Database) → State → Option A × State
  on = on_db r jwt settings sha256 verify request clock draw

  abbrev pub with_tokens : Table → State → State
  with_tokens rows s = (s.0, record s.1 { tokens = rows })

  abbrev present : Option JwtPayload → State → Option JwtPayload × State
  present o s = (o, s)

  -- A call of the table, with its reply.
  pub on_table :
      {A : Type 0}
      → (m : Table → Option A × Table) (s : State) (a : A) (rows : Table)
      → m s.1.tokens ≡ (some a, rows)
      → on (on_tokens m) s ≡ (some a, with_tokens rows s)
  on_table {A = A} m s a rows e = ap (λ (x : Option A × Table). (x.0, with_tokens x.1 s)) e

  -- The row of the new token.
  abbrev pub new_row : JwtPayload → JwtPayload → Option String → RefreshToken
  new_row old new session =
      new_token sha256 new (some old.jti) session (some (ip_of request)) request.user_agent
        (draw 1 0) (draw 1 1) (clock 6)

  reports :
      (granted : Granted) (saved : RefreshToken) (s : State)
      → logged (draw 2 0) s.1.audits ≡ false
      → (report_rotation r jwt settings sha256 verify request clock draw granted saved s).0
        ≡ some (success_response granted.0)
  unfolding report_rotation log_token_refresh log_event
  reports granted saved s free = ground arith

  saves_row :
      (old new : JwtPayload) (granted : Granted) (session : Option String) (s : State)
      → collides (new_row old new none) s.1.tokens ≡ false
      → logged (draw 2 0) s.1.audits ≡ false
      → ((on (
              on_tokens (
                save_refresh_token sha256 new
                  (some old.jti)
                  session
                  (some (ip_of request))
                  request.user_agent
                  (draw 1 0)
                  (draw 1 1)
                  (clock 6)))
            >>= report_rotation r jwt settings sha256 verify request clock draw granted)
          s).0
        ≡ some (success_response granted.0)
  unfolding save_refresh_token insert
  saves_row old new granted session s room free =
      let row = new_row old new session in
      let room' : collides row s.1.tokens ≡ false =
        collides_same row (new_row old new none) s.1.tokens refl refl ∙ room in
      let save =
        save_refresh_token sha256 new (some old.jti) session (some (ip_of request))
          request.user_agent (draw 1 0) (draw 1 1) (clock 6) in
      let saved : save s.1.tokens ≡ (some row, s.1.tokens ++ row ∷ []) = rw room' refl in
      let s' = with_tokens (s.1.tokens ++ row ∷ []) s in
      ap (λ (x : Option JsonResponse × State). x.0)
        (>>=-reply (on (on_tokens save))
          (report_rotation r jwt settings sha256 verify request clock draw granted) s s' row
          (on_table save s row (s.1.tokens ++ row ∷ []) saved))
      ∙ reports granted row s' free

  saves :
      (old new : JwtPayload) (granted : Granted) (o : Option RefreshToken) (s : State)
      → collides (new_row old new none) s.1.tokens ≡ false
      → logged (draw 2 0) s.1.audits ≡ false
      → (save_rotation r jwt settings sha256 verify request clock draw old granted new o s).0
        ≡ some (success_response granted.0)
  unfolding save_rotation
  saves old new granted none s room free = saves_row old new granted none s room free
  saves old new granted (some t) s room free =
      saves_row old new granted (some t.session_id) s room free

  finds :
      (old new : JwtPayload) (granted : Granted) (s : State)
      → IsKeyed s.1.tokens
      → collides (new_row old new none) s.1.tokens ≡ false
      → logged (draw 2 0) s.1.audits ≡ false
      → (find_session r jwt settings sha256 verify request clock draw old granted new s).0
        ≡ some (success_response granted.0)
  unfolding find_session
  finds old new granted s k room free =
      let found = find (sha256 old.jti) s.1.tokens in
      ap (λ (x : Option JsonResponse × State). x.0)
        (>>=-reply (on (on_tokens (get_by_jti sha256 old.jti)))
          (save_rotation r jwt settings sha256 verify request clock draw old granted new) s s found
          (on_table (get_by_jti sha256 old.jti) s found s.1.tokens
            (get_by_jti-find sha256 old.jti s.1.tokens k)))
      ∙ saves old new granted found s room free

  -- The rotation, with the conditions on what it is given.
  pub rotates :
      (old new : JwtPayload) (granted : Granted) (t : RefreshToken) (s : State)
      → IsKeyed s.1.tokens
      → find (sha256 old.jti) s.1.tokens ≡ some t
      → TokenService.validate_refresh_token jwt settings
          (timestamp (clock 5 0))
          granted.0.refresh_token
        ≡ some new
      → collides (new_row old new none) s.1.tokens ≡ false
      → logged (draw 2 0) s.1.audits ≡ false
      → (rotate r jwt settings sha256 verify request clock draw old (some granted) s).0
        ≡ some (success_response granted.0)
  unfolding rotate read_new_token revoke_token revoke_found
  rotates old new granted t s k found valid room free =
      let rows = revoke_rows (same_row t) (λ _. clock 4 0) 0 s.1.tokens in
      let s' = with_tokens rows s in
      let got : get_by_jti sha256 old.jti s.1.tokens ≡ (some (some t), s.1.tokens) =
        get_by_jti-find sha256 old.jti s.1.tokens k ∙ rw found refl in
      let revoked : revoke_token sha256 (clock 4 0) old.jti s.1.tokens ≡ (some true, rows) =
        >>=-reply (get_by_jti sha256 old.jti) (revoke_found sha256 (clock 4 0)) s.1.tokens
          s.1.tokens (some t) got in
      let next = read_new_token r jwt settings sha256 verify request clock draw old granted in
      ap (λ (x : Option JsonResponse × State). x.0)
        (>>=-reply (on (on_tokens (revoke_token sha256 (clock 4 0) old.jti))) next s s' true
            (on_table (revoke_token sha256 (clock 4 0) old.jti) s true rows revoked)
          ∙ >>=-reply
              (lift r jwt settings sha256 verify request clock draw (
                TokenService.validate_refresh_token jwt settings (timestamp (clock 5 0))
                  granted.0.refresh_token))
              (find_session r jwt settings sha256 verify request clock draw old granted) s' s' new
              (ap (λ (x : Option JwtPayload). present x s') valid))
      ∙ finds old new granted s' (revoke_rows-IsKeyed (same_row t) (λ _. clock 4 0) 0 s.1.tokens k)
          (collides-revoke_rows (new_row old new none) (same_row t) (λ _. clock 4 0) 0 s.1.tokens
            ∙ room)
          free
