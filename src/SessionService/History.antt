-- ===== src/SessionService/History.antt =====
-- Any sequence of calls of the two services that write the table of refresh tokens.
use codelab_auth_service.Common.{
  ℕ, String, ◌≡◌, refl, sym, subst, select, Bool, true, false, Option, none, some, List, [], ◌∷◌,
  ◌==◌,
}
use codelab_auth_service.JwtPayload.{JwtPayload}
use codelab_auth_service.RefreshToken.{RefreshToken, Table, revoke_rows}
use codelab_auth_service.RefreshToken.Rows.{IsKeyed, find}
use codelab_auth_service.RefreshTokenService.{
  save_refresh_token, validate_refresh_token, revoke_token, revoke_token_chain,
  cleanup_expired_tokens, in_session, judge,
}
use codelab_auth_service.RefreshTokenService
use codelab_auth_service.RefreshTokenService.Validation.{validate-find}
use codelab_auth_service.RefreshTokenService.Safety.{
  AllRevoked, IsSafe, IsSafe-refl, IsSafe-trans, revoke_rows-IsSafe, chain-IsSafe, save-IsSafe,
  validate-IsSafe, revoke_token-IsSafe, cleanup-IsSafe, revoke_session-IsSafe,
}
use codelab_auth_service.SessionService
use codelab_auth_service.SessionService.{revoke_session, revoke_all_sessions, to_revoke}

pub data Call : Type 0 where
  save :
      JwtPayload
      → Option String
      → Option String
      → Option String
      → Option String
      → String
      → String
      → (ℕ → ℕ)
      → Call
  validate : (ℕ → ℕ) → String → Call
  revoke_one : ℕ → String → Call
  revoke_chain : (ℕ → ℕ) → RefreshToken → Call
  cleanup : ℕ → ℕ → Call
  revoke_tokens_of_session : (ℕ → ℕ) → String → String → Call
  close_session : (ℕ → ℕ) → String → String → Call
  close_all_sessions : ℕ → String → Option String → Call

module _ (sha256 : String → String) where
  unfoldable pub perform : Call → Table → Table
  perform (save payload parent session ip agent uuid id clock) rows =
      (save_refresh_token sha256 payload parent session ip agent uuid id clock rows).1
  perform (validate clock jti) rows = (validate_refresh_token sha256 clock jti rows).1
  perform (revoke_one now jti) rows = (revoke_token sha256 now jti rows).1
  perform (revoke_chain clock t) rows = (revoke_token_chain clock t rows).1
  perform (cleanup now days) rows = (cleanup_expired_tokens now days rows).1
  perform (revoke_tokens_of_session clock user session) rows =
      (RefreshTokenService.revoke_session clock user session rows).1
  perform (close_session clock user session) rows =
      (SessionService.revoke_session clock user session rows).1
  perform (close_all_sessions now user except) rows =
      (SessionService.revoke_all_sessions now user except rows).1

  unfoldable pub perform_all : List Call → Table → Table
  perform_all [] rows = rows
  perform_all (c ∷ cs) rows = perform_all cs (perform c rows)

  -- No call saves a token of this hash.
  abbrev pub NeverSaves : String → List Call → Type 0
  NeverSaves h [] = Unit
  NeverSaves h (save payload _ _ _ _ _ _ _ ∷ cs) =
      ((sha256 payload.jti == h) ≡ false) × NeverSaves h cs
  NeverSaves h (_ ∷ cs) = NeverSaves h cs

close_session-IsSafe :
    (h : String) (clock : ℕ → ℕ) (user session : String) (rows : Table)
    → IsKeyed rows
    → IsSafe h rows (revoke_session clock user session rows).1
unfolding revoke_session
close_session-IsSafe h clock user session rows k = closed (select (in_session user session) rows)
  where
    closed :
        (found : Table)
        → IsSafe h rows
            (elim found as (λ _. Bool × Table) [
              | [] ↦ (false, rows)
              | _ ∷ _ ↦ (true, revoke_rows (in_session user session) clock 0 rows)
            ]).1
    closed [] = IsSafe-refl h rows k
    closed (t ∷ ts) = revoke_rows-IsSafe h (in_session user session) clock rows k

module _ (sha256 : String → String) where
  perform-IsSafe :
      (h : String) (c : Call) (rows : Table)
      → NeverSaves sha256 h (c ∷ [])
      → IsKeyed rows
      → IsSafe h rows (perform sha256 c rows)
  unfolding perform
  perform-IsSafe h (save payload parent session ip agent uuid id clock) rows (apart, _) k =
      save-IsSafe sha256 h payload parent session ip agent uuid id clock rows apart k
  perform-IsSafe h (validate clock jti) rows never k = validate-IsSafe sha256 h clock jti rows k
  perform-IsSafe h (revoke_one now jti) rows never k = revoke_token-IsSafe sha256 h now jti rows k
  perform-IsSafe h (revoke_chain clock t) rows never k = chain-IsSafe h clock t rows k
  perform-IsSafe h (cleanup now days) rows never k = cleanup-IsSafe h now days rows k
  perform-IsSafe h (revoke_tokens_of_session clock user session) rows never k =
      revoke_session-IsSafe h clock user session rows k
  perform-IsSafe h (close_session clock user session) rows never k =
      close_session-IsSafe h clock user session rows k
  perform-IsSafe h (close_all_sessions now user except) rows never k =
      unfold revoke_all_sessions in revoke_rows-IsSafe h (to_revoke user except) (λ _. now) rows k

  NeverSaves-cons :
      (h : String) (c : Call) (cs : List Call)
      → NeverSaves sha256 h (c ∷ cs)
      → NeverSaves sha256 h (c ∷ []) × NeverSaves sha256 h cs
  NeverSaves-cons h (save payload _ _ _ _ _ _ _) cs (apart, never) = ((apart, tt), never)
  NeverSaves-cons h (validate clock jti) cs never = (tt, never)
  NeverSaves-cons h _ cs never = (tt, never)

  perform_all-IsSafe :
      (h : String) (cs : List Call) (rows : Table)
      → NeverSaves sha256 h cs
      → IsKeyed rows
      → IsSafe h rows (perform_all sha256 cs rows)
  unfolding perform_all
  perform_all-IsSafe h [] rows never k = IsSafe-refl h rows k
  perform_all-IsSafe h (c ∷ cs) rows never k =
      let (here, rest) = NeverSaves-cons h c cs never in
      IsSafe-trans h rows (perform sha256 c rows) _ (perform-IsSafe h c rows here k)
        (perform_all-IsSafe h cs (perform sha256 c rows) rest)

  -- What the validation answers where a hash finds no row, or one that is revoked.
  refuses :
      (clock : ℕ → ℕ) (found : Option RefreshToken) (rows : Table)
      → AllRevoked found
      → (msg : String) × ((judge sha256 clock found rows).0 ≡ some (false, some msg))
  unfolding judge
  refuses clock none rows dead = ("Refresh token not found", refl)
  refuses clock (some t) rows dead =
      ("Refresh token has been revoked (reuse detected)", rw dead refl)

  -- From a table with unique columns on: a refresh token that is revoked at some time is refused at
  -- every later validation, with a message, whatever calls of the two services come in between, as
  -- long as none of them saves another token of the same hash. (Such a call is refused while the row
  -- is there; only after a clean-up could it succeed.)
  pub revoked_never_accepted :
      (clock : ℕ → ℕ) (jti : String) (cs : List Call) (rows : Table) (t : RefreshToken)
      → IsKeyed rows
      → find (sha256 jti) rows ≡ some t
      → t.revoked ≡ true
      → NeverSaves sha256 (sha256 jti) cs
      → (msg : String) × ((validate_refresh_token sha256 clock jti (perform_all sha256 cs rows)).0
          ≡ some (false, some msg))
  revoked_never_accepted clock jti cs rows t k e revoked never =
      let safe = perform_all-IsSafe (sha256 jti) cs rows never k in
      let rows' = perform_all sha256 cs rows in
      rw (validate-find sha256 clock jti rows' safe.keyed) (
        refuses clock (find (sha256 jti) rows') rows'
          (safe.stays (subst AllRevoked (sym e) revoked)))
