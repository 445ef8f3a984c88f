-- ===== src/SessionService/Listing.antt =====
-- What `list_user_sessions` returns.
use mathlib.Core.List.{map, Perm}
use mathlib.Core.List.Perm
use codelab_auth_service.Common.{
  ◌≤◌, String, ◌≡◌, refl, subst, Bool-cases, inl, inr, List, [], ◌∷◌, arith, All, All-mono, select,
  ltb,
}
use codelab_auth_service.RefreshToken.{Table}
use codelab_auth_service.RefreshTokenService.{
  SessionsMap, group_from, values, active_of, get_user_sessions,
}
use codelab_auth_service.RefreshTokenService.Latest.{IsGrouped, group_from-IsGrouped}
use codelab_auth_service.SessionService.{
  SessionSummary, summary_of, summaries, insert_by_created_at, sorted_by_created_at,
  list_user_sessions,
}

-- The latest sessions come first.
abbrev pub IsDescending : List SessionSummary → Type 0
IsDescending [] = Unit
IsDescending (x ∷ xs) = All (λ y. y.created_at ≤ x.created_at) xs × IsDescending xs

All-insert :
    (P : SessionSummary → Type 0) (x : SessionSummary) (xs : List SessionSummary)
    → P x
    → All P xs
    → All P (insert_by_created_at x xs)
unfolding insert_by_created_at
All-insert P x [] p h = (p, tt)
All-insert P x (y ∷ ys) p h = elim (Bool-cases (ltb x.created_at y.created_at)) [
  | inl later ↦ rw later (h.0, All-insert P x ys p h.1)
  | inr first ↦ rw first (p, h)
]

insert-IsDescending :
    (x : SessionSummary) (xs : List SessionSummary)
    → IsDescending xs
    → IsDescending (insert_by_created_at x xs)
unfolding insert_by_created_at
insert-IsDescending x [] d = (tt, tt)
insert-IsDescending x (y ∷ ys) d = elim (Bool-cases (ltb x.created_at y.created_at)) [
  | inl later ↦ rw later (All-insert _ x ys (ground arith) d.0, insert-IsDescending x ys d.1)
  | inr first ↦ rw first ((ground arith, All-mono _ _ ys (λ z le. ground arith) d.0), d)
]

pub sorted-IsDescending : (xs : List SessionSummary) → IsDescending (sorted_by_created_at xs)
unfolding sorted_by_created_at
sorted-IsDescending [] = tt
sorted-IsDescending (x ∷ xs) =
    insert-IsDescending x (sorted_by_created_at xs) (sorted-IsDescending xs)

insert-perm :
    (x : SessionSummary) (xs : List SessionSummary) → Perm (insert_by_created_at x xs) (x ∷ xs)
unfolding insert_by_created_at
insert-perm x [] = Perm.refl (x ∷ [])
insert-perm x (y ∷ ys) = elim (Bool-cases (ltb x.created_at y.created_at)) [
  | inl later ↦ rw later (Perm.trans (Perm.cons y (insert-perm x ys)) (Perm.swap x y ys))
  | inr first ↦ rw first (Perm.refl (x ∷ y ∷ ys))
]

sorted-perm : (xs : List SessionSummary) → Perm (sorted_by_created_at xs) xs
unfolding sorted_by_created_at
sorted-perm [] = Perm.refl []
sorted-perm (x ∷ xs) =
    Perm.trans (insert-perm x (sorted_by_created_at xs)) (Perm.cons x (sorted-perm xs))

summaries-eq-map :
    (m : SessionsMap) → IsGrouped m → summaries m ≡ map (λ t. summary_of t.session_id t) (values m)
unfolding summaries values
summaries-eq-map [] g = refl
summaries-eq-map ((k, t) ∷ m) g = cc (summaries-eq-map m g.2, g.0)

-- The listing holds the latest token of each session of the user, as `get_user_sessions` gives
-- them, in an order in which no session is followed by a later one.
pub list_user_sessions_sorted :
    (user_id : String) (rows : Table)
    → IsDescending (list_user_sessions user_id rows)
      × Perm
          (list_user_sessions user_id rows)
          (map (λ t. summary_of t.session_id t) (get_user_sessions user_id rows))
unfolding list_user_sessions get_user_sessions
list_user_sessions_sorted user_id rows =
    let m = group_from [] (select (active_of user_id) rows) in
    (
      sorted-IsDescending (summaries m),
      subst (Perm (sorted_by_created_at (summaries m)))
          (summaries-eq-map m (group_from-IsGrouped [] (select (active_of user_id) rows) tt))
          (sorted-perm (summaries m)),
    )
