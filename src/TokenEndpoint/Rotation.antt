-- ===== src/TokenEndpoint/Rotation.antt =====
-- The refresh grant: when it replies with tokens, the old refresh token is used up, and the new one
-- continues its session.
use codelab_auth_service.Common.{
  ℕ, String, ◌≡◌, refl, sym, ◌∙◌, ap, subst, Bool, inl, inr, true, false, Option, none, some, arith,
  ◌==◌, eq_iff, eq_refl, eq-false_of_ne,
}
use codelab_auth_service.AuthService.{TokenResponse, Granted}
use codelab_auth_service.Commands.{pure, >>=-inverse}
use codelab_auth_service.Database.{Database, AuditLog, on_tokens, log_token_refresh}
use codelab_auth_service.Database.Frames.{log_token_refresh-tokens}
use codelab_auth_service.Jwt.Interface.{Jwt}
use codelab_auth_service.JwtPayload.{JwtPayload}
use codelab_auth_service.Redis.Interface.{Redis}
use codelab_auth_service.RefreshToken.{RefreshToken, Table}
use codelab_auth_service.RefreshToken.Rows.{IsKeyed, find, find_hash, find-none_of_collides, Marked}
use codelab_auth_service.RefreshTokenService.{
  new_token, save_refresh_token, revoke_token, get_by_jti,
}
use codelab_auth_service.RefreshTokenService.Validation.{Inserts, get_by_jti-find, save_then_get}
use codelab_auth_service.RefreshTokenService.Reuse.{revoke_token_one}
use codelab_auth_service.RefreshTokenService.Safety.{revoke_token-IsSafe}
use codelab_auth_service.Settings.{Settings}
use codelab_auth_service.TokenService
use codelab_auth_service.TokenService.{timestamp}
use codelab_auth_service.TokenEndpoint.{
  HttpRequest, JsonResponse, Body, success_response, ip_of, rotate, read_new_token, find_session,
  save_rotation, report_rotation, on_db, lift,
}

module _ (r : Redis) (jwt : Jwt) (settings : Settings) (sha256 : String → String)
    (verify : String → Option String → Option Bool) (request : HttpRequest) (clock : ℕ → ℕ → ℕ)
    (draw : ℕ → ℕ → String) where
  -- The old token is revoked, and the new one is saved as its child, in its session.
  abbrev pub IsRotated : JwtPayload → RefreshToken → TokenResponse → Table → Type 0
  IsRotated old t response rows =
      (new : JwtPayload) × (TokenService.validate_refresh_token jwt settings (timestamp (clock 5 0))
          response.refresh_token
        ≡ some new)
      × ((sha256 new.jti == sha256 old.jti) ≡ false)
      × (find (sha256 new.jti) rows
          ≡ some (
              new_token sha256 new (some old.jti) (some t.session_id) (some (ip_of request))
                request.user_agent (draw 1 0) (draw 1 1) (clock 6)))
      × ((u : RefreshToken) × (find (sha256 old.jti) rows ≡ some u) × (u.revoked ≡ true))

  abbrev pub State : Type 0
  State = r.State × Database

  -- A found row that has been revoked.
  revoked_row :
      (p : RefreshToken → Bool) (t : RefreshToken) (found : Option RefreshToken)
      → p t ≡ true
      → Marked p (some t) found
      → (u : RefreshToken) × (found ≡ some u) × (u.revoked ≡ true) × (u.session_id ≡ t.session_id)
  revoked_row p t none marks m = absurd m
  revoked_row p t (some u) marks m =
      (u, refl, ground arith, ap (λ (x : RefreshToken). x.session_id) m.0)

  -- The table after an insertion that did not raise.
  saved_row :
      (old new : JwtPayload) (t u : RefreshToken) (rows rows' : Table) (saved : RefreshToken)
      → IsKeyed rows
      → find (sha256 old.jti) rows ≡ some u
      → u.revoked ≡ true
      → u.session_id ≡ t.session_id
      → save_refresh_token sha256 new
          (some old.jti)
          (some u.session_id)
          (some (ip_of request))
          request.user_agent
          (draw 1 0)
          (draw 1 1)
          (clock 6)
          rows
        ≡ (some saved, rows')
      → ((sha256 new.jti == sha256 old.jti) ≡ false)
        × (find (sha256 new.jti) rows'
            ≡ some (
                new_token sha256 new
                  (some old.jti)
                  (some t.session_id)
                  (some (ip_of request))
                  request.user_agent
                  (draw 1 0)
                  (draw 1 1)
                  (clock 6)))
        × ((u : RefreshToken) × (find (sha256 old.jti) rows' ≡ some u) × (u.revoked ≡ true))
  saved_row old new t u rows rows' saved k found revoked session e =
      let ip = some (ip_of request) in
      let row = λ (session_id : String).
        new_token sha256 new (some old.jti) (some session_id) ip request.user_agent (draw 1 0)
          (draw 1 1) (clock 6) in
      elim (subst (Inserts (row u.session_id) rows) e (
        save_then_get sha256 new (some old.jti) (some u.session_id) ip request.user_agent (draw 1 0)
          (draw 1 1) (clock 6) rows k)) [
            | inr (_, raised, _) ↦ cc raised
            | inl (free, _, keyed, finds) ↦
                let apart : (sha256 new.jti == sha256 old.jti) ≡ false =
                  eq-false_of_ne (sha256 new.jti) (sha256 old.jti) (λ same. cc (
                    found,
                    find-none_of_collides (row u.session_id) rows free,
                    ap (λ (h : String). find h rows) same,
                  )) in
                (
                  apart,
                  finds (sha256 new.jti)
                      ∙ rw (eq_refl (sha256 new.jti)) (ap (λ (x : String). some (row x)) session),
                  (u, finds (sha256 old.jti) ∙ rw apart found, revoked),
                )
          ]

  found_pair :
      (rows : Table) (found : Option RefreshToken) (u : RefreshToken)
      → found ≡ some u
      → ◌≡◌ {A = Option (Option RefreshToken) × Table} (some found, rows) (some (some u), rows)
  found_pair rows found u e = rw e refl

  report_rotation-tokens :
      (granted : Granted) (saved : RefreshToken) (s s' : State) (reply : JsonResponse)
      → report_rotation r jwt settings sha256 verify request clock draw granted saved s
        ≡ (some reply, s')
      → (reply ≡ success_response granted.0) × (s'.1.tokens ≡ s.1.tokens)
  unfolding report_rotation
  report_rotation-tokens (response, user, client) saved s s' reply e =
      let log =
        log_token_refresh user.id client.client_id request.host request.user_agent (draw 2 0)
          (clock 7 0) in
      let (entry, s1, written, e1) =
        >>=-inverse (on_db r jwt settings sha256 verify request clock draw log)
          (λ _. pure (success_response response)) s s' reply e in
      (
        sym (ap (λ (x : Option JsonResponse × State). elim x.0 [ none ↦ reply | some y ↦ y ]) e1),
        sym (ap (λ (x : Option JsonResponse × State). x.1.1.tokens) e1)
            ∙ sym (ap (λ (x : Option AuditLog × State). x.1.1.tokens) written)
            ∙ log_token_refresh-tokens user.id client.client_id request.host request.user_agent
                (draw 2 0) (clock 7 0) s.1,
      )

  save_rotation-IsRotated :
      (old new : JwtPayload) (granted : Granted) (t u : RefreshToken) (s s' : State)
      (reply : JsonResponse)
      → TokenService.validate_refresh_token jwt settings
          (timestamp (clock 5 0))
          granted.0.refresh_token
        ≡ some new
      → IsKeyed s.1.tokens
      → find (sha256 old.jti) s.1.tokens ≡ some u
      → u.revoked ≡ true
      → u.session_id ≡ t.session_id
      → save_rotation r jwt settings sha256 verify request clock draw old granted new (some u) s
        ≡ (some reply, s')
      → (reply ≡ success_response granted.0) × IsRotated old t granted.0 s'.1.tokens
  unfolding save_rotation
  save_rotation-IsRotated old new granted t u s s' reply valid k found revoked session e =
      let save =
        save_refresh_token sha256 new (some old.jti) (some u.session_id) (some (ip_of request))
          request.user_agent (draw 1 0) (draw 1 1) (clock 6) in
      let (saved, s1, written, e1) =
        >>=-inverse (on_db r jwt settings sha256 verify request clock draw (on_tokens save))
          (report_rotation r jwt settings sha256 verify request clock draw granted) s s' reply e in
      let (is, same) = report_rotation-tokens granted saved s1 s' reply e1 in
      let (apart, found_new, found_old) =
        saved_row old new t u s.1.tokens s1.1.tokens saved k found revoked session
          (ap (λ (x : Option RefreshToken × State). (x.0, x.1.1.tokens)) written) in
      (is, subst (IsRotated old t granted.0) (sym same) (new, valid, apart, found_new, found_old))

  find_session-IsRotated :
      (old new : JwtPayload) (granted : Granted) (t u : RefreshToken) (s s' : State)
      (reply : JsonResponse)
      → TokenService.validate_refresh_token jwt settings
          (timestamp (clock 5 0))
          granted.0.refresh_token
        ≡ some new
      → IsKeyed s.1.tokens
      → find (sha256 old.jti) s.1.tokens ≡ some u
      → u.revoked ≡ true
      → u.session_id ≡ t.session_id
      → find_session r jwt settings sha256 verify request clock draw old granted new s
        ≡ (some reply, s')
      → (reply ≡ success_response granted.0) × IsRotated old t granted.0 s'.1.tokens
  unfolding find_session
  find_session-IsRotated old new granted t u s s' reply valid k found revoked session e =
      let (old_token, s1, got, e1) =
        >>=-inverse
          (on_db r jwt settings sha256 verify request clock draw
            (on_tokens (get_by_jti sha256 old.jti)))
          (save_rotation r jwt settings sha256 verify request clock draw old granted new) s s' reply
          e in
      let reply_of : Option (Option RefreshToken) × State → Option (Option RefreshToken) × Table =
        λ x. (x.0, x.1.1.tokens) in
      let seen : Option (Option RefreshToken) × Table = (some (some u), s.1.tokens) in
      let same : seen ≡ reply_of (some old_token, s1) =
        sym (get_by_jti-find sha256 old.jti s.1.tokens k ∙ found_pair s.1.tokens _ u found)
        ∙ ap reply_of got in
      let rows : s.1.tokens ≡ s1.1.tokens =
        ap (λ (x : Option (Option RefreshToken) × Table). x.1) same in
      let is : some u ≡ old_token =
        cc (ap (λ (x : Option (Option RefreshToken) × Table). x.0) same) in
      save_rotation-IsRotated old new granted t u s1 s' reply valid (subst IsKeyed rows k)
        (sym (ap (find (sha256 old.jti)) rows) ∙ found) revoked session
        (subst
          (λ (o : Option RefreshToken).
            save_rotation r jwt settings sha256 verify request clock draw old granted new o s1
            ≡ (some reply, s'))
          (sym is) e1)

  rotate-IsRotated :
      (old : JwtPayload) (granted : Granted) (t : RefreshToken) (s s' : State)
      (reply : JsonResponse)
      → IsKeyed s.1.tokens
      → find (sha256 old.jti) s.1.tokens ≡ some t
      → rotate r jwt settings sha256 verify request clock draw old (some granted) s
        ≡ (some reply, s')
      → (reply ≡ success_response granted.0) × IsRotated old t granted.0 s'.1.tokens
  unfolding rotate read_new_token
  rotate-IsRotated old granted t s s' reply k found e =
      let (ok, s1, revoked, e1) =
        >>=-inverse
          (on_db r jwt settings sha256 verify request clock draw
            (on_tokens (revoke_token sha256 (clock 4 0) old.jti)))
          (read_new_token r jwt settings sha256 verify request clock draw old granted) s s' reply
          e in
      let (new, s2, valid, e2) =
        >>=-inverse
          (lift r jwt settings sha256 verify request clock draw (
            TokenService.validate_refresh_token jwt settings (timestamp (clock 5 0))
              granted.0.refresh_token))
          (find_session r jwt settings sha256 verify request clock draw old granted) s1 s' reply
          e1 in
      let rows_of = λ (x : Option Bool × State). x.1.1.tokens in
      let same_rows : s2.1.tokens ≡ (revoke_token sha256 (clock 4 0) old.jti s.1.tokens).1 =
        sym (ap rows_of revoked ∙ ap (λ (x : Option JwtPayload × State). x.1.1.tokens) valid) in
      let (_, marks) = revoke_token_one sha256 (clock 4 0) old.jti s.1.tokens k in
      let (u, found_u, is_revoked, session) =
        revoked_row (λ x. x.jti_hash == sha256 old.jti) t _
          ((eq_iff t.jti_hash (sha256 old.jti)).1 (find_hash (sha256 old.jti) s.1.tokens t found))
          (subst
            (λ (a : Option RefreshToken).
              Marked (λ x. x.jti_hash == sha256 old.jti) a
                (find (sha256 old.jti) (revoke_token sha256 (clock 4 0) old.jti s.1.tokens).1))
            found (marks (sha256 old.jti))) in
      find_session-IsRotated old new granted t u s2 s' reply
        (ap (λ (x : Option JwtPayload × State). x.0) valid)
        (subst IsKeyed (sym same_rows)
          (revoke_token-IsSafe sha256 (sha256 old.jti) (clock 4 0) old.jti s.1.tokens k).keyed)
        (ap (find (sha256 old.jti)) same_rows ∙ found_u) is_revoked session e2

  rotate-nothing :
      (old : JwtPayload) (s s' : State) (response : TokenResponse)
      → rotate r jwt settings sha256 verify request clock draw old none s
        ≡ (some (success_response response), s')
      → ⊥
  unfolding rotate
  rotate-nothing old s s' response e = cc (ap (λ (x : Option JsonResponse × State). x.0) e)

  pub rotate-response :
      (old : JwtPayload) (result : Option Granted) (t : RefreshToken) (s s' : State)
      (response : TokenResponse)
      → IsKeyed s.1.tokens
      → find (sha256 old.jti) s.1.tokens ≡ some t
      → rotate r jwt settings sha256 verify request clock draw old result s
        ≡ (some (success_response response), s')
      → IsRotated old t response s'.1.tokens
  rotate-response old none t s s' response k found e = absurd (rotate-nothing old s s' response e)
  rotate-response old (some granted) t s s' response k found e =
      let (is, rotated) =
        rotate-IsRotated old granted t s s' (success_response response) k found e in
      let same : response ≡ granted.0 =
        ap
          (λ (x : JsonResponse). elim x.content [ Body.tokens y ↦ y | Body.failure _ _ ↦ response ])
          is in
      subst (λ (x : TokenResponse). IsRotated old t x s'.1.tokens) (sym same) rotated
