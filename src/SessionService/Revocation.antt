-- ===== src/SessionService/Revocation.antt =====
-- What the revocations do to the listings, of the user and of others.
use codelab_auth_service.Common.{
  ℕ, ◌+◌, String, ◌≡◌, ◌≢◌, refl, ap, ◌∙◌, Bool, true, false, not, ◌&&◌, Option, none, some, List,
  [], ◌∷◌, arith, length, select, ◌==◌, eq_iff, if◌then◌else◌,
}
use codelab_auth_service.RefreshToken.{RefreshToken, Table, revoke_rows}
use codelab_auth_service.RefreshTokenService.{active_of, in_session}
use codelab_auth_service.SessionService.{
  SessionSummary, list_user_sessions, revoke_session, revoke_all_sessions, to_revoke,
  get_active_sessions_count, summaries, sorted_by_created_at, group_from,
}
use codelab_auth_service.SessionService.Restriction.{kept_summaries, listing-kept}

-- The active tokens of a user, after those outside the kept sessions have been revoked.
select-revoke_rows :
    (user : String) (keep : String → Bool) (p : RefreshToken → Bool) (clock : ℕ → ℕ) (i : ℕ)
    (rows : Table)
    → ((t : RefreshToken) → p t ≡ (active_of user t && not (keep t.session_id)))
    → select (active_of user) (revoke_rows p clock i rows)
      ≡ select (λ t. keep t.session_id) (select (active_of user) rows)
unfolding select revoke_rows
select-revoke_rows user keep p clock i [] h = refl
select-revoke_rows user keep p clock i (t ∷ ts) h =
    ground (arith, h t, select-revoke_rows user keep p clock (if p t then i + 1 else i) ts h)

-- The active tokens of another user.
select-revoke_rows_ne :
    (user : String) (p : RefreshToken → Bool) (clock : ℕ → ℕ) (i : ℕ) (rows : Table)
    → ((t : RefreshToken) → p t ≡ true → (t.user_id == user) ≡ false)
    → select (active_of user) (revoke_rows p clock i rows) ≡ select (active_of user) rows
unfolding select revoke_rows
select-revoke_rows_ne user p clock i [] h = refl
select-revoke_rows_ne user p clock i (t ∷ ts) h =
    ground (arith, h t, select-revoke_rows_ne user p clock (if p t then i + 1 else i) ts h)

list-revoke_rows :
    (user : String) (keep : String → Bool) (p : RefreshToken → Bool) (clock : ℕ → ℕ) (rows : Table)
    → ((t : RefreshToken) → p t ≡ (active_of user t && not (keep t.session_id)))
    → list_user_sessions user (revoke_rows p clock 0 rows)
      ≡ kept_summaries keep (list_user_sessions user rows)
unfolding list_user_sessions
list-revoke_rows user keep p clock rows h =
    ap (λ (ts : Table). sorted_by_created_at (summaries (group_from [] ts)))
      (select-revoke_rows user keep p clock 0 rows h)
    ∙ listing-kept keep (select (active_of user) rows)

list-revoke_rows_ne :
    (user : String) (p : RefreshToken → Bool) (clock : ℕ → ℕ) (rows : Table)
    → ((t : RefreshToken) → p t ≡ true → (t.user_id == user) ≡ false)
    → list_user_sessions user (revoke_rows p clock 0 rows) ≡ list_user_sessions user rows
unfolding list_user_sessions
list-revoke_rows_ne user p clock rows h =
    ap (λ (ts : Table). sorted_by_created_at (summaries (group_from [] ts)))
      (select-revoke_rows_ne user p clock 0 rows h)

revoke_rows_none :
    (p : RefreshToken → Bool) (clock : ℕ → ℕ) (i : ℕ) (rows : Table)
    → select p rows ≡ []
    → revoke_rows p clock i rows ≡ rows
unfolding select revoke_rows
revoke_rows_none p clock i [] e = refl
revoke_rows_none p clock i (t ∷ ts) e =
    ground (arith, revoke_rows_none p clock (if p t then i + 1 else i) ts)

revoke_session_rows :
    (clock : ℕ → ℕ) (user session : String) (rows : Table)
    → (revoke_session clock user session rows).1
      ≡ revoke_rows (in_session user session) clock 0 rows
unfolding revoke_session
revoke_session_rows clock user session rows =
    ground (arith, revoke_rows_none (in_session user session) clock 0 rows)

other_user : (a b c : String) → (a == b) ≡ true → c ≢ b → (a == c) ≡ false
other_user a b c e ne = ground (arith, eq_iff a b, eq_iff a c)

-- After a session has been revoked, the listing of its user is what it was without that session,
-- and the listings of all others are what they were; if the call answers that there is no such
-- session, it has changed nothing.
pub revoke_session_unlists :
    (clock : ℕ → ℕ) (user session : String) (rows : Table)
    → let (found, rows') = revoke_session clock user session rows in
      (list_user_sessions user rows'
        ≡ kept_summaries (λ s. not (s == session)) (list_user_sessions user rows))
      × ((v : String) → v ≢ user → list_user_sessions v rows' ≡ list_user_sessions v rows)
      × (found ≡ false → rows' ≡ rows)
revoke_session_unlists clock user session rows = (
  rw revoke_session_rows (
      list-revoke_rows user (λ s. not (s == session)) (in_session user session) clock rows
        (λ t. ground arith)),
  λ v ne. rw revoke_session_rows (
      list-revoke_rows_ne v (in_session user session) clock rows
        (λ t e. other_user t.user_id user v (ground arith) ne)),
  λ none_found. unfold revoke_session in ground arith,
)

-- The sessions that a call of `revoke_all_sessions` spares.
abbrev pub spared : Option String → String → Bool
spared none s = false
spared (some except) s = not (except == "") && s == except

-- After all sessions but one, if one is excepted, have been revoked, the listing of the user is
-- what it was restricted to the excepted session, and the listings of all others are what they
-- were.
pub revoke_all_sessions_unlists :
    (now : ℕ) (user : String) (except : Option String) (rows : Table)
    → let rows' = (revoke_all_sessions now user except rows).1 in
      (list_user_sessions user rows'
        ≡ kept_summaries (spared except) (list_user_sessions user rows))
      × ((v : String) → v ≢ user → list_user_sessions v rows' ≡ list_user_sessions v rows)
unfolding revoke_all_sessions
revoke_all_sessions_unlists now user except rows = (
  list-revoke_rows user (spared except) (to_revoke user except) (λ _. now) rows (λ t. ground arith),
  λ v ne.
      list-revoke_rows_ne v (to_revoke user except) (λ _. now) rows
        (λ t e. other_user t.user_id user v (ground arith) ne),
)

kept_none : (xs : List SessionSummary) → kept_summaries (λ _. false) xs ≡ []
unfolding select
kept_none [] = refl
kept_none (x ∷ xs) = kept_none xs

-- After all sessions of a user have been revoked, none is counted.
pub revoke_all_sessions_counts_none :
    (now : ℕ) (user : String) (rows : Table)
    → get_active_sessions_count user (revoke_all_sessions now user none rows).1 ≡ 0
unfolding get_active_sessions_count
revoke_all_sessions_counts_none now user rows =
    rw (revoke_all_sessions_unlists now user none rows).0
      (unfold select in ap length (kept_none (list_user_sessions user rows)))
