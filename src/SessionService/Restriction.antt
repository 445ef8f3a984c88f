-- ===== src/SessionService/Restriction.antt =====
-- Dropping the tokens of some sessions before the grouping and the sort is dropping the sessions
-- after them.
use codelab_auth_service.Common.{
  ◌≤◌, String, ◌≡◌, refl, ap, sym, ◌∙◌, Bool, Bool-cases, inl, inr, true, false, List, [], ◌∷◌,
  arith, All, All-mono, select, ltb, eq_iff, if◌then◌else◌,
}
use codelab_auth_service.RefreshToken.{RefreshToken, Table}
use codelab_auth_service.RefreshTokenService.{
  SessionsMap, lookup_session, set_session, keep_latest, group_from,
}
use codelab_auth_service.SessionService.{
  SessionSummary, summaries, insert_by_created_at, sorted_by_created_at,
}
use codelab_auth_service.SessionService.Listing.{IsDescending, sorted-IsDescending}

module _ (keep : String → Bool) where
  abbrev kept_tokens : Table → Table
  kept_tokens = select (λ t. keep t.session_id)

  abbrev kept_entries : SessionsMap → SessionsMap
  kept_entries = select (λ e. keep e.0)

  abbrev pub kept_summaries : List SessionSummary → List SessionSummary
  kept_summaries = select (λ x. keep x.session_id)

  lookup-kept :
      (k : String) (m : SessionsMap)
      → keep k ≡ true
      → lookup_session k (kept_entries m) ≡ lookup_session k m
  unfolding lookup_session select
  lookup-kept k [] e = refl
  lookup-kept k ((j, t) ∷ m) e =
      ground (arith, lookup-kept k m e, eq_iff k j, ap keep {x = k} {y = j})

  set-kept :
      (k : String) (t : RefreshToken) (m : SessionsMap)
      → kept_entries (set_session k t m)
        ≡ (if keep k then set_session k t (kept_entries m) else kept_entries m)
  unfolding set_session select
  set-kept k t [] = ground arith
  set-kept k t ((j, u) ∷ m) = ground (arith, set-kept k t m, eq_iff k j, ap keep {x = k} {y = j})

  keep_latest-kept :
      (t : RefreshToken) (m : SessionsMap)
      → kept_entries (keep_latest t m)
        ≡ (if keep t.session_id then keep_latest t (kept_entries m) else kept_entries m)
  unfolding keep_latest
  keep_latest-kept t m = ground (arith, set-kept t.session_id t m, lookup-kept t.session_id m)

  group_from-kept :
      (m : SessionsMap) (ts : Table)
      → kept_entries (group_from m ts) ≡ group_from (kept_entries m) (kept_tokens ts)
  unfolding group_from select
  group_from-kept m [] = refl
  group_from-kept m (t ∷ ts) =
      group_from-kept (keep_latest t m) ts
      ∙ ap (λ (g : SessionsMap). group_from g (kept_tokens ts)) (keep_latest-kept t m)
      ∙ if_group (keep t.session_id)
    where
      if_group :
          (b : Bool)
          → group_from
              (if b then keep_latest t (kept_entries m) else kept_entries m)
              (kept_tokens ts)
            ≡ group_from (kept_entries m) (if b then t ∷ kept_tokens ts else kept_tokens ts)
      if_group true = refl
      if_group false = refl

  summaries-kept : (m : SessionsMap) → kept_summaries (summaries m) ≡ summaries (kept_entries m)
  unfolding summaries select
  summaries-kept [] = refl
  summaries-kept ((k, t) ∷ m) = ground (arith, summaries-kept m)

  insert_front :
      (x : SessionSummary) (xs : List SessionSummary)
      → All (λ y. y.created_at ≤ x.created_at) xs
      → insert_by_created_at x xs ≡ x ∷ xs
  unfolding insert_by_created_at
  insert_front x [] h = refl
  insert_front x (y ∷ ys) h = ground arith

  All-kept :
      (P : SessionSummary → Type 0) (xs : List SessionSummary)
      → All P xs
      → All P (kept_summaries xs)
  unfolding select
  All-kept P [] h = tt
  All-kept P (x ∷ xs) h = elim (Bool-cases (keep x.session_id)) [
    | inl e ↦ rw e (h.0, All-kept P xs h.1)
    | inr e ↦ rw e (All-kept P xs h.1)
  ]

  insert-kept :
      (x : SessionSummary) (xs : List SessionSummary)
      → IsDescending xs
      → kept_summaries (insert_by_created_at x xs) ≡ (
          if keep x.session_id
          then insert_by_created_at x (kept_summaries xs)
          else kept_summaries xs)
  unfolding insert_by_created_at select
  insert-kept x [] d = ground arith
  insert-kept x (y ∷ ys) d = elim (Bool-cases (ltb x.created_at y.created_at)) [
    | inl later ↦ ground (arith, later, insert-kept x ys d.1)
    | inr first ↦ ground (
      arith,
      first,
      insert_front x (kept_summaries (y ∷ ys))
          (All-kept _ (y ∷ ys) (ground arith, All-mono _ _ ys (λ z le. ground arith) d.0)),
    )
  ]

  sorted-kept :
      (xs : List SessionSummary)
      → kept_summaries (sorted_by_created_at xs) ≡ sorted_by_created_at (kept_summaries xs)
  unfolding sorted_by_created_at select
  sorted-kept [] = refl
  sorted-kept (x ∷ xs) =
      ground
        (arith, insert-kept x (sorted_by_created_at xs) (sorted-IsDescending xs), sorted-kept xs)

  -- The listing over the tokens of the kept sessions is the listing, restricted to them.
  pub listing-kept :
      (ts : Table)
      → sorted_by_created_at (summaries (group_from [] (kept_tokens ts)))
        ≡ kept_summaries (sorted_by_created_at (summaries (group_from [] ts)))
  listing-kept ts = sym (
      sorted-kept (summaries (group_from [] ts))
      ∙ ap sorted_by_created_at (
          summaries-kept (group_from [] ts)
          ∙ ap summaries (unfold select in group_from-kept [] ts)))
