-- ===== src/OauthClientService/Scopes.antt =====
-- `validate_scope`: what is granted.
use codelab_auth_service.Common.{
  String, ◌≡◌, ◌≢◌, ◌↔◌, inl, inr, refl, sym, ap, ◌∙◌, Bool, true, Bool-cases, some, List, [], ◌∷◌,
  arith, all, eq_iff, eq_refl, eq-false_of_ne,
}
use codelab_auth_service.OauthClient.{OauthClient}
use codelab_auth_service.OauthClientService.{validate_scope, check_scope, are_allowed}
use codelab_auth_service.Text.{split, join, contains, sorted_set}
use codelab_auth_service.Text.Split.{IsWord, split-join, split-IsWord}
use codelab_auth_service.Text.Sorted.{
  IsAscending, contains-sorted_set, All-sorted_set, sorted_set-IsAscending, sorted_set_ascending,
}

contains-In_all :
    (xs allowed : List String) (s : String)
    → all (λ x. contains allowed x) xs ≡ true
    → contains xs s ≡ true
    → contains allowed s ≡ true
unfolding contains
contains-In_all [] allowed s h m = cc m
contains-In_all (x ∷ xs) allowed s h m =
    ground (arith, contains-In_all xs allowed s, eq_iff x s, ap (contains allowed) {x = x} {y = s})

all_of_contains :
    (xs allowed : List String)
    → ((s : String) → contains xs s ≡ true → contains allowed s ≡ true)
    → all (λ x. contains allowed x) xs ≡ true
unfolding contains
all_of_contains [] allowed h = refl
all_of_contains (x ∷ xs) allowed h =
    let rest = all_of_contains xs allowed (λ s m. h s (ground arith)) in
    let here : contains allowed x ≡ true = h x (ground (arith, eq_refl x)) in ground arith

validate_some :
    (client : OauthClient) (scope : String)
    → scope ≢ ""
    → validate_scope client (some scope) ≡ check_scope client scope
unfolding validate_scope
validate_some client scope ne = rw (eq-false_of_ne scope "" ne) refl

-- The words of the normalized scope.
normalized_words :
    (scope : String) → split (join (sorted_set (split scope))) ≡ sorted_set (split scope)
normalized_words scope =
    split-join (sorted_set (split scope)) (All-sorted_set IsWord (split scope) (split-IsWord scope))

check_scope_granted :
    (client : OauthClient) (scope : String)
    → let (ok, granted) = check_scope client scope in
      ((ok ≡ true) ↔ (are_allowed (split scope) (split client.allowed_scopes) ≡ true))
      × (ok ≡ true → granted ≡ join (sorted_set (split scope)))
unfolding check_scope
check_scope_granted client scope =
    elim (Bool-cases (are_allowed (split scope) (split client.allowed_scopes))) [
      | inl e ↦ rw e ((λ _. refl, λ _. refl), λ _. refl)
      | inr e ↦ rw e ((λ h. cc h, λ h. cc h), λ h. cc h)
    ]

-- A scope that is not empty is granted exactly if each of its words is one of the client's.
-- What is granted are the words of the request, each once and in ascending order.
pub scope_granted :
    (client : OauthClient) (scope : String)
    → scope ≢ ""
    → let (ok, granted) = validate_scope client (some scope) in
      ((ok ≡ true) ↔ (
        (s : String)
        → contains (split scope) s ≡ true
        → contains (split client.allowed_scopes) s ≡ true))
      × (ok ≡ true
          → IsAscending (split granted)
            × ((s : String) → contains (split granted) s ≡ contains (split scope) s))
scope_granted client scope ne =
    let (allowed, normal) = check_scope_granted client scope in
    rw (validate_some client scope ne) (
      (
        λ ok s m. contains-In_all (split scope) (split client.allowed_scopes) s (allowed.0 ok) m,
        λ h. allowed.1 (all_of_contains (split scope) (split client.allowed_scopes) h),
      ),
      λ ok.
          rw (normal ok, normalized_words scope)
            (sorted_set-IsAscending (split scope), λ s. contains-sorted_set s (split scope)),
    )

check_scope_stable :
    (client : OauthClient) (scope : String)
    → (check_scope client scope).0 ≡ true
    → check_scope client (join (sorted_set (split scope))) ≡ (true, join (sorted_set (split scope)))
check_scope_stable client scope ok =
    let normal = join (sorted_set (split scope)) in
    let allowed : are_allowed (split normal) (split client.allowed_scopes) ≡ true =
      rw (normalized_words scope) (
        all_of_contains (sorted_set (split scope)) (split client.allowed_scopes) (λ s m.
          contains-In_all (split scope) (split client.allowed_scopes) s
            ((check_scope_granted client scope).0.0 ok)
            (sym (contains-sorted_set s (split scope)) ∙ m))) in
    unfold check_scope in
    rw allowed (
      rw
        (
          normalized_words scope,
          sorted_set_ascending (sorted_set (split scope)) (sorted_set-IsAscending (split scope)),
        )
        refl)

-- What has been granted to a request that is not empty, unless it is itself empty, is granted
-- unchanged when it is requested again.
pub scope_stable :
    (client : OauthClient) (scope : String)
    → let granted = (validate_scope client (some scope)).1 in
      (validate_scope client (some scope)).0 ≡ true
      → scope ≢ ""
      → granted ≢ ""
      → validate_scope client (some granted) ≡ (true, granted)
scope_stable client scope ok ne ne' =
    let same = validate_some client scope ne in
    let ok' : (check_scope client scope).0 ≡ true =
      sym (ap (λ (r : Bool × String). r.0) same) ∙ ok in
    let granted : (validate_scope client (some scope)).1 ≡ join (sorted_set (split scope)) =
      ap (λ (r : Bool × String). r.1) same ∙ (check_scope_granted client scope).1 ok' in
    validate_some client (validate_scope client (some scope)).1 ne'
    ∙ rw granted (check_scope_stable client scope ok')
