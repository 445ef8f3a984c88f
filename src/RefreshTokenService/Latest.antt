-- ===== src/RefreshTokenService/Latest.antt =====
-- The grouping of tokens by session keeps one token for each session, the latest.
use codelab_auth_service.Common.{
  ◌≤◌, String, ◌≡◌, ◌≢◌, refl, sym, subst, Bool-cases, inl, inr, Option, none, some, [], ◌∷◌, ◌++◌,
  arith, ◌==◌, eq_iff, ltb, All, In, All-append, All-mono, All-In, In-append_left, In-append_last,
  select, if◌then◌else◌,
}
use mathlib.Core.List.{append_assoc, append-nil}
use codelab_auth_service.RefreshToken.{RefreshToken, Table}
use codelab_auth_service.RefreshTokenService.{
  SessionsMap, lookup_session, set_session, keep_latest, group_from, values, active_of,
  get_user_sessions,
}

-- What a dict holds for a session, among the tokens seen so far: nothing if none is of the session,
-- or else a token of it that no other one is later than.
abbrev pub Latest : String → Table → Option RefreshToken → Type 0
Latest k seen none = All (λ t. t.session_id ≢ k) seen
Latest k seen (some u) =
    In u seen × (u.session_id ≡ k) × All (λ t. t.session_id ≡ k → t.created_at ≤ u.created_at) seen

abbrev newer : Option RefreshToken → RefreshToken → RefreshToken
newer none t = t
newer (some u) t = if ltb u.created_at t.created_at then t else u

lookup-set_session :
    (k j : String) (t : RefreshToken) (m : SessionsMap)
    → lookup_session k (set_session j t m) ≡ (if k == j then some t else lookup_session k m)
unfolding lookup_session set_session
lookup-set_session k j t [] = refl
lookup-set_session k j t ((i, u) ∷ m) =
    ground (arith, lookup-set_session k j t m, eq_iff k j, eq_iff j i, eq_iff k i)

lookup-keep_latest :
    (k : String) (t : RefreshToken) (m : SessionsMap)
    → lookup_session k (keep_latest t m)
      ≡ (if k == t.session_id then some (newer (lookup_session k m) t) else lookup_session k m)
unfolding keep_latest
lookup-keep_latest k t m =
    ground (arith, lookup-set_session k t.session_id t m, eq_iff k t.session_id)

Latest-step :
    (k : String) (seen : Table) (t : RefreshToken) (found : Option RefreshToken)
    → Latest k seen found
    → Latest k (seen ++ t ∷ []) (if k == t.session_id then some (newer found t) else found)
Latest-step k seen t found h = elim (Bool-cases (k == t.session_id)) [
  | inl same ↦ rw same (here found h ((eq_iff k t.session_id).0 same))
  | inr other ↦ rw other (apart found h (λ e. cc (other, (eq_iff k t.session_id).1 (sym e))))
]
  where
    here :
        (f : Option RefreshToken)
        → Latest k seen f
        → k ≡ t.session_id
        → Latest k (seen ++ t ∷ []) (some (newer f t))
    here none none_of e = (
      In-append_last t seen,
      sym e,
      All-append _ seen (All-mono _ _ seen (λ a ne same. absurd (ne same)) none_of)
          (λ _. omega arith),
    )
    here (some u) (m, eu, le) e = elim (Bool-cases (ltb u.created_at t.created_at)) [
      | inl later ↦ rw later (
        In-append_last t seen,
        sym e,
        All-append _ seen (All-mono _ _ seen (λ a f same. ground (arith, f same)) le)
            (λ _. omega arith),
      )
      | inr old ↦
          rw old (In-append_left u seen (t ∷ []) m, eu, All-append _ seen le (λ _. ground arith))
    ]

    apart :
        (f : Option RefreshToken) → Latest k seen f → t.session_id ≢ k → Latest k (seen ++ t ∷ []) f
    apart none none_of ne = All-append _ seen none_of ne
    apart (some u) (m, eu, le) ne =
        (In-append_left u seen (t ∷ []) m, eu, All-append _ seen le (λ e. absurd (ne e)))

group_from-Latest :
    (k : String) (m : SessionsMap) (seen ts : Table)
    → Latest k seen (lookup_session k m)
    → Latest k (seen ++ ts) (lookup_session k (group_from m ts))
unfolding group_from
group_from-Latest k m seen [] h = rw append-nil h
group_from-Latest k m seen (t ∷ ts) h =
    subst (λ l. Latest k l (lookup_session k (group_from (keep_latest t m) ts)))
      (append_assoc seen (t ∷ []) ts)
      (group_from-Latest k (keep_latest t m) (seen ++ t ∷ []) ts
        (rw lookup-keep_latest (Latest-step k seen t (lookup_session k m) h)))

-- A dict of the loop: each key is the session of its token, and stands once.
abbrev pub IsGrouped : SessionsMap → Type 0
IsGrouped [] = Unit
IsGrouped ((k, t) ∷ m) = (t.session_id ≡ k) × (lookup_session k m ≡ none) × IsGrouped m

set_session-IsGrouped :
    (t : RefreshToken) (m : SessionsMap) → IsGrouped m → IsGrouped (set_session t.session_id t m)
unfolding set_session
set_session-IsGrouped t [] g = (refl, unfold lookup_session in refl, tt)
set_session-IsGrouped t ((j, u) ∷ m) g = ground (
  arith,
  eq_iff t.session_id j,
  eq_iff j t.session_id,
  set_session-IsGrouped t m g.2,
  lookup-set_session j t.session_id t m,
)

keep_latest-IsGrouped :
    (t : RefreshToken) (m : SessionsMap) → IsGrouped m → IsGrouped (keep_latest t m)
unfolding keep_latest
keep_latest-IsGrouped t m g = ground (arith, set_session-IsGrouped t m g)

pub group_from-IsGrouped :
    (m : SessionsMap) (ts : Table) → IsGrouped m → IsGrouped (group_from m ts)
unfolding group_from
group_from-IsGrouped m [] g = g
group_from-IsGrouped m (t ∷ ts) g =
    group_from-IsGrouped (keep_latest t m) ts (keep_latest-IsGrouped t m g)

-- No two tokens are of one session.
abbrev pub OnePerSession : Table → Type 0
OnePerSession [] = Unit
OnePerSession (t ∷ ts) = All (λ u. u.session_id ≢ t.session_id) ts × OnePerSession ts

values-apart :
    (k : String) (m : SessionsMap)
    → IsGrouped m
    → lookup_session k m ≡ none
    → All (λ u. u.session_id ≢ k) (values m)
unfolding values lookup_session
values-apart k [] g e = tt
values-apart k ((j, t) ∷ m) g e = (ground (arith, eq_iff k j), values-apart k m g.2 (ground arith))

values-OnePerSession : (m : SessionsMap) → IsGrouped m → OnePerSession (values m)
unfolding values
values-OnePerSession [] g = tt
values-OnePerSession ((k, t) ∷ m) g =
    (rw (g.0) (values-apart k m g.2 g.1), values-OnePerSession m g.2)

In-values :
    (k : String) (m : SessionsMap) (t : RefreshToken)
    → lookup_session k m ≡ some t
    → In t (values m)
unfolding values lookup_session
In-values k [] t e = cc
In-values k ((j, u) ∷ m) t e = ground (arith, In-values k m t)

-- Every value is what its own session finds.
All-values :
    (P : RefreshToken → Type 0) (m : SessionsMap)
    → IsGrouped m
    → ((t : RefreshToken) → lookup_session t.session_id m ≡ some t → P t)
    → All P (values m)
unfolding values lookup_session
All-values P [] g f = tt
All-values P ((k, t) ∷ m) g f = (
  f t (ground (arith, eq_iff t.session_id k)),
  All-values P m g.2 (λ u e. f u (ground (arith, eq_iff u.session_id k))),
)

Latest-found :
    (k : String) (ts : Table) (found : Option RefreshToken) (t : RefreshToken)
    → Latest k ts found
    → In t ts
    → t.session_id ≡ k
    → (u : RefreshToken) × (found ≡ some u) × (u.session_id ≡ k)
Latest-found k ts none t l m e = absurd (All-In (λ t. t.session_id ≢ k) ts l m e)
Latest-found k ts (some u) t l m e = (u, refl, l.1)

-- The sessions of a user, of which a table holds tokens that are not revoked: each returned token
-- is such a token and no other of its session is later; every such token has its session among
-- the returned; no two returned tokens are of one session.
pub get_user_sessions_latest :
    (user_id : String) (rows : Table)
    → let active = select (active_of user_id) rows in
      let sessions = get_user_sessions user_id rows in
      All
        (λ u.
          In u active × All (λ t. t.session_id ≡ u.session_id → t.created_at ≤ u.created_at) active)
        sessions
      × ((t : RefreshToken)
          → In t active
          → (u : RefreshToken) × In u sessions × (u.session_id ≡ t.session_id))
      × OnePerSession sessions
unfolding get_user_sessions
get_user_sessions_latest user_id rows =
    let active = select (active_of user_id) rows in
    let m = group_from [] active in
    let grouped = group_from-IsGrouped [] active tt in
    let latest = λ (k : String). group_from-Latest k [] [] active (unfold lookup_session in tt) in
    (
      All-values _ m grouped (λ t e.
          let l : Latest t.session_id active (some t) =
            subst (Latest t.session_id active) e (latest t.session_id) in
          (l.0, l.2)),
      λ t mem.
          let (u, e, same) =
            Latest-found t.session_id active (lookup_session t.session_id m) t (latest t.session_id)
              mem refl in
          (u, In-values t.session_id m u e, same),
      values-OnePerSession m grouped,
    )
