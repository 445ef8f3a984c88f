-- ===== src/UserService/Lookups.antt =====
-- What the lookups of a user find on a table with unique columns.
use codelab_auth_service.Common.{
  String, ◌≡◌, refl, Bool, Bool-cases, inl, inr, true, false, Option, none, some, [], ◌∷◌, arith,
  select, scalar_one_or_none, ◌==◌, eq_iff, eq_refl, In, if◌then◌else◌,
}
use codelab_auth_service.User.{User, UserTable, shares_key, occupied}
use codelab_auth_service.UserService.{get_by_id, get_by_email, get_by_username, write_row}
use codelab_auth_service.UserService.Keys.{IsUnique}

-- The first user that passes a test.
unfoldable pub find : (User → Bool) → UserTable → Option User
find p [] = none
find p (u ∷ us) = let rest = find p us in if p u then some u else rest

-- Two rows of one table do not both pass the test.
abbrev IsKey : (User → Bool) → Type 0
IsKey p = (u v : User) → p u ≡ true → p v ≡ true → shares_key u v ≡ true

select_nothing :
    (p : User → Bool) (u : User) (us : UserTable)
    → IsKey p
    → p u ≡ true
    → occupied u us ≡ false
    → select p us ≡ []
unfolding select occupied
select_nothing p u [] key e free = refl
select_nothing p u (v ∷ vs) key e free = ground (arith, key u v, select_nothing p u vs key e)

lookup-find :
    (p : User → Bool) (us : UserTable)
    → IsKey p
    → IsUnique us
    → scalar_one_or_none (select p us) ≡ some (find p us)
unfolding select find
lookup-find p [] key k = refl
lookup-find p (u ∷ us) key k = elim (Bool-cases (p u)) [
  | inl e ↦ rw (e, select_nothing p u us key e k.0) refl
  | inr e ↦ rw e (lookup-find p us key k.1)
]

pub find-In : (p : User → Bool) (us : UserTable) (u : User) → find p us ≡ some u → In u us
unfolding find
find-In p [] u e = cc e
find-In p (v ∷ vs) u e = elim (Bool-cases (p v)) [
  | inl same ↦ inl (ground arith)
  | inr other ↦ inr (find-In p vs u (ground arith))
]

pub find-holds : (p : User → Bool) (us : UserTable) (u : User) → find p us ≡ some u → p u ≡ true
unfolding find
find-holds p [] u e = cc e
find-holds p (v ∷ vs) u e = ground (arith, find-holds p vs u)

id-IsKey : (id : String) → IsKey (λ u. u.id == id)
id-IsKey id u v e f = ground (arith, eq_iff u.id id, eq_iff v.id id, eq_refl id)

email-IsKey : (email : String) → IsKey (λ u. u.email == email)
email-IsKey email u v e f =
    ground (arith, eq_iff u.email email, eq_iff v.email email, eq_refl email)

pub get_by_id-find :
    (id : String) (us : UserTable)
    → IsUnique us
    → get_by_id id us ≡ (some (find (λ u. u.id == id) us), us)
unfolding get_by_id
get_by_id-find id us k = rw (lookup-find (λ u. u.id == id) us (id-IsKey id) k) refl

pub get_by_email-find :
    (email : String) (us : UserTable)
    → IsUnique us
    → get_by_email email us ≡ (some (find (λ u. u.email == email) us), us)
unfolding get_by_email
get_by_email-find email us k =
    rw (lookup-find (λ u. u.email == email) us (email-IsKey email) k) refl

username-IsKey : (username : String) → IsKey (λ u. u.username == username)
username-IsKey username u v e f =
    ground (arith, eq_iff u.username username, eq_iff v.username username, eq_refl username)

pub get_by_username-find :
    (username : String) (us : UserTable)
    → IsUnique us
    → get_by_username username us ≡ (some (find (λ u. u.username == username) us), us)
unfolding get_by_username
get_by_username-find username us k =
    rw (lookup-find (λ u. u.username == username) us (username-IsKey username) k) refl

-- A written row is found by its identifier, and each other identifier finds what it found.
pub find-write_row :
    (u : User) (id : String) (users : UserTable) (v : User)
    → u.id ≡ id
    → find (λ w. w.id == id) users ≡ some v
    → find (λ w. w.id == id) (write_row u users) ≡ some u
unfolding find write_row
find-write_row u id [] v same known = cc known
find-write_row u id (w ∷ ws) v same known =
    ground (arith, find-write_row u id ws v, eq_iff w.id id, eq_iff w.id u.id, eq_refl id)

pub find-write_row-other :
    (u : User) (id : String) (users : UserTable)
    → (id == u.id) ≡ false
    → find (λ w. w.id == id) (write_row u users) ≡ find (λ w. w.id == id) users
unfolding find write_row
find-write_row-other u id [] apart = refl
find-write_row-other u id (w ∷ ws) apart = ground (
  arith,
  find-write_row-other u id ws,
  eq_iff w.id id,
  eq_iff w.id u.id,
  eq_iff id u.id,
  eq_iff u.id id,
  eq_refl id,
)
