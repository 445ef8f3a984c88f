-- ===== src/UserService/Keys.antt =====
-- The unique columns of the table of users, when rows are added, written and removed.
use codelab_auth_service.Common.{
  String, ◌≡◌, refl, sym, ◌∙◌, ap, Bool, Bool-cases, inl, inr, true, false, not, ◌&&◌, ◌||◌, [],
  ◌∷◌, ◌++◌, arith, ◌==◌, eq_iff, eq_refl,
}
use codelab_auth_service.User.{User, UserTable, shares_key, occupied}
use codelab_auth_service.UserService.{add_user, write_row, conflicts, store_user, remove_row}

-- No two rows share an identifier, a user name or an address.
abbrev pub IsUnique : UserTable → Type 0
IsUnique [] = Unit
IsUnique (u ∷ us) = (occupied u us ≡ false) × IsUnique us

eq_sym : (s t : String) → (s == t) ≡ (t == s)
eq_sym s t = elim (Bool-cases (s == t)) [
  | inl e ↦ rw ((eq_iff s t).0 e) refl
  | inr e ↦ ground (arith, eq_iff s t, eq_iff t s, eq_refl s)
]

pub shares_key_sym : (u v : User) → shares_key u v ≡ shares_key v u
shares_key_sym u v =
    rw (eq_sym u.id v.id, eq_sym u.username v.username, eq_sym u.email v.email) refl

occupied-append :
    (u v : User) (us : UserTable) → occupied u (us ++ v ∷ []) ≡ (occupied u us || shares_key u v)
unfolding occupied
occupied-append u v [] = ground arith
occupied-append u v (w ∷ ws) = ground (arith, occupied-append u v ws)

pub append-IsUnique :
    (u : User) (us : UserTable) → occupied u us ≡ false → IsUnique us → IsUnique (us ++ u ∷ [])
unfolding occupied
append-IsUnique u [] free k = (refl, tt)
append-IsUnique u (v ∷ vs) free k = (
  ground (arith, occupied-append v u vs, shares_key_sym u v),
  append-IsUnique u vs (ground arith) k.1,
)

pub add_user-IsUnique : (u : User) (us : UserTable) → IsUnique us → IsUnique (add_user u us).1
unfolding add_user
add_user-IsUnique u us k = elim (Bool-cases (occupied u us)) [
  | inl taken ↦ rw taken k
  | inr free ↦ rw free (append-IsUnique u us free k)
]

other_id : (u v w : User) → (v.id == u.id) ≡ true → shares_key v w ≡ false → (w.id == u.id) ≡ false
other_id u v w e apart = ground (arith, eq_iff v.id u.id, eq_iff w.id u.id, eq_refl v.id)

-- Behind the row of the object's key, no row is written.
write_row-other :
    (u v : User) (vs : UserTable)
    → (v.id == u.id) ≡ true
    → occupied v vs ≡ false
    → write_row u vs ≡ vs
unfolding write_row occupied
write_row-other u v [] e free = refl
write_row-other u v (w ∷ ws) e free =
    let other : (w.id == u.id) ≡ false =
      ground (arith, eq_iff v.id u.id, eq_iff w.id u.id, eq_refl v.id) in
    rw (other, write_row-other u v ws e (ground arith)) refl

pub or_false : (a b : Bool) → (a || b) ≡ false → (a ≡ false) × (b ≡ false)
or_false false b h = (refl, h)
or_false true b h = cc h

free_behind :
    (u v : User) (vs : UserTable)
    → (v.id == u.id) ≡ true
    → occupied v vs ≡ false
    → conflicts u vs ≡ false
    → occupied u vs ≡ false
unfolding conflicts occupied
free_behind u v [] e free none_else = refl
free_behind u v (w ∷ ws) e free none_else =
    let (apart, free') = or_false (shares_key v w) (occupied v ws) free in
    let (passed, none_else') =
      or_false (not (w.id == u.id) && shares_key u w) (conflicts u ws) none_else in
    let apart' : shares_key u w ≡ false =
      sym (ap (λ (b : Bool). not b && shares_key u w) (other_id u v w e apart)) ∙ passed in
    rw (apart', free_behind u v ws e free' none_else') refl

write_row-free :
    (u v : User) (vs : UserTable)
    → (v.id == u.id) ≡ false
    → shares_key u v ≡ false
    → occupied v vs ≡ false
    → occupied v (write_row u vs) ≡ false
unfolding write_row occupied
write_row-free u v [] e apart free = refl
write_row-free u v (w ∷ ws) e apart free = ground (arith, write_row-free u v ws, shares_key_sym u v)

pub write_row-IsUnique :
    (u : User) (us : UserTable) → conflicts u us ≡ false → IsUnique us → IsUnique (write_row u us)
unfolding conflicts write_row
write_row-IsUnique u [] free k = tt
write_row-IsUnique u (v ∷ vs) free k = elim (Bool-cases (v.id == u.id)) [
  | inl e ↦ rw e (rw (write_row-other u v vs e k.0) (free_behind u v vs e k.0 (ground arith), k.1))
  | inr e ↦
      rw e (write_row-free u v vs e (ground arith) k.0, write_row-IsUnique u vs (ground arith) k.1)
]

pub store_user-IsUnique : (u : User) (us : UserTable) → IsUnique us → IsUnique (store_user u us).1
unfolding store_user
store_user-IsUnique u us k = elim (Bool-cases (conflicts u us)) [
  | inl taken ↦ rw taken k
  | inr free ↦ rw free (write_row-IsUnique u us free k)
]

remove_row-free :
    (u v : User) (vs : UserTable) → occupied v vs ≡ false → occupied v (remove_row u vs) ≡ false
unfolding remove_row occupied
remove_row-free u v [] free = refl
remove_row-free u v (w ∷ ws) free = ground (arith, remove_row-free u v ws)

pub remove_row-IsUnique : (u : User) (us : UserTable) → IsUnique us → IsUnique (remove_row u us)
unfolding remove_row
remove_row-IsUnique u [] k = tt
remove_row-IsUnique u (v ∷ vs) k = elim (Bool-cases (v.id == u.id)) [
  | inl e ↦ rw e (remove_row-IsUnique u vs k.1)
  | inr e ↦ rw e (remove_row-free u v vs k.0, remove_row-IsUnique u vs k.1)
]
