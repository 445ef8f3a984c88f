-- ===== src/UserService/Named.antt =====
-- The user that a name stands for, whose row is in conflict with no other.
use codelab_auth_service.Common.{
  ℕ, String, ◌≡◌, refl, ◌∙◌, Bool, Bool-cases, inl, inr, true, false, Option, Option-cases, none,
  some, [], ◌∷◌, arith, select, scalar_one_or_none, ◌==◌, eq_refl, In, subst, if◌then◌else◌,
}
use codelab_auth_service.User.{User, UserTable, shares_key, occupied}
use codelab_auth_service.UserService.{conflicts}
use codelab_auth_service.UserService.Keys.{IsUnique, shares_key_sym, or_false}

abbrev pub has_username : String → User → Bool
has_username username u = u.username == username

abbrev pub has_email : String → User → Bool
has_email email u = u.email == email

-- The first of two lookups, or the second where the first finds nobody.
abbrev pub prefer : Option (Option User) → Option (Option User) → Option (Option User)
prefer none second = none
prefer (some (some u)) second = some (some u)
prefer (some none) second = second

-- The user that a name stands for: the one of that user name, or else the one of that address.
unfoldable pub named : String → UserTable → Option (Option User)
named name users =
    prefer (scalar_one_or_none (select (has_username name) users))
      (scalar_one_or_none (select (has_email name) users))

-- A user after a login.
abbrev pub logged_in : (ℕ → ℕ) → User → User
logged_in clock u = record u { last_login_at = some (clock 0); updated_at = clock 1 }

In-select : (p : User → Bool) (u : User) (users : UserTable) → In u (select p users) → In u users
unfolding select
In-select p u [] m = m
In-select p u (v ∷ vs) m = elim (Bool-cases (p v)) [
  | inl e ↦ elim (subst (λ (b : Bool). In u (if b then v ∷ select p vs else select p vs)) e m) [
    | inl same ↦ inl same
    | inr m' ↦ inr (In-select p u vs m')
  ]
  | inr e ↦ inr (
      In-select p u vs
        (subst (λ (b : Bool). In u (if b then v ∷ select p vs else select p vs)) e m))
]

In-one : (u : User) (found : UserTable) → scalar_one_or_none found ≡ some (some u) → In u found
In-one u [] e = cc e
In-one u (v ∷ []) e = inl (cc e)
In-one u (v ∷ w ∷ vs) e = cc e

pub named-In :
    (name : String) (users : UserTable) (u : User) → named name users ≡ some (some u) → In u users
unfolding named
named-In name users u e =
    elim (Option-cases (scalar_one_or_none (select (has_username name) users))) [
      | inl raised ↦ ground arith
      | inr (some v, by_name) ↦
          In-select (has_username name) u users
            (In-one u (select (has_username name) users) (ground arith))
      | inr (none, by_name) ↦
          In-select (has_email name) u users
            (In-one u (select (has_email name) users) (ground arith))
    ]

conflicts-occupied :
    (u : User) (users : UserTable) → occupied u users ≡ false → conflicts u users ≡ false
unfolding conflicts occupied
conflicts-occupied u [] free = refl
conflicts-occupied u (v ∷ vs) free = ground (arith, conflicts-occupied u vs)

apart-In :
    (u v : User) (users : UserTable)
    → In u users
    → occupied v users ≡ false
    → shares_key v u ≡ false
unfolding occupied
apart-In u v (w ∷ ws) (inl e) free =
    subst (λ (x : User). shares_key v x ≡ false) e
      (or_false (shares_key v w) (occupied v ws) free).0
apart-In u v (w ∷ ws) (inr m) free =
    apart-In u v ws m (or_false (shares_key v w) (occupied v ws) free).1
apart-In u v [] m free = absurd m

-- A row of a table with unique columns is in conflict with no other.
pub conflicts-In :
    (u : User) (users : UserTable) → In u users → IsUnique users → conflicts u users ≡ false
unfolding conflicts
conflicts-In u [] m k = absurd m
conflicts-In u (v ∷ vs) (inl e) k =
    let behind = conflicts-occupied u vs (subst (λ (x : User). occupied x vs ≡ false) e k.0) in
    let same : (v.id == u.id) ≡ true =
      subst (λ (x : User). (v.id == x.id) ≡ true) e (eq_refl v.id) in
    rw (same, behind) refl
conflicts-In u (v ∷ vs) (inr m) k =
    let apart = shares_key_sym u v ∙ apart-In u v vs m k.0 in
    rw (apart, conflicts-In u vs m k.1) (ground arith)

-- The login's changes leave the keys.
pub conflicts-logged_in :
    (clock : ℕ → ℕ) (u : User) (users : UserTable)
    → conflicts (logged_in clock u) users ≡ conflicts u users
unfolding conflicts
conflicts-logged_in clock u [] = refl
conflicts-logged_in clock u (v ∷ vs) = rw (conflicts-logged_in clock u vs) refl
