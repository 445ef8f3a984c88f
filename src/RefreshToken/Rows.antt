-- ===== src/RefreshToken/Rows.antt =====
-- What a query by `jti_hash` finds, before and after the rows have been changed.
use codelab_auth_service.Common.{
  ℕ, ◌+◌, String, ◌≡◌, refl, Bool, true, false, ◌||◌, Option, none, some, [], ◌∷◌, ◌++◌, arith,
  select, scalar_one_or_none, ◌==◌, eq_iff, if◌then◌else◌,
}
use codelab_auth_service.RefreshToken.{
  RefreshToken, Table, revoke, revoke_rows, delete_rows, collides,
}

-- The unique columns hold no value twice.
abbrev pub IsKeyed : Table → Type 0
IsKeyed [] = Unit
IsKeyed (t ∷ ts) = (collides t ts ≡ false) × IsKeyed ts

-- The first row with a hash.
unfoldable pub find : String → Table → Option RefreshToken
find h [] = none
find h (t ∷ ts) = if t.jti_hash == h then some t else find h ts

-- A row but for its revocation.
abbrev pub core : RefreshToken → RefreshToken
core t = record t { revoked = false; revoked_at = none }

-- The second row is the first, revoked if `p` holds of it, and unchanged if not.
abbrev pub Marked : (RefreshToken → Bool) → Option RefreshToken → Option RefreshToken → Type 0
Marked p none none = Unit
Marked p (some t) (some u) =
    (core u ≡ core t) × (u.revoked ≡ (p t || t.revoked)) × (p t ≡ false → u ≡ t)
Marked p _ _ = ⊥

select_hash_none :
    (t : RefreshToken) (rows : Table)
    → collides t rows ≡ false
    → select (λ u. u.jti_hash == t.jti_hash) rows ≡ []
unfolding collides select
select_hash_none t [] h = refl
select_hash_none t (u ∷ us) h =
    ground
      (arith, select_hash_none t us, eq_iff t.jti_hash u.jti_hash, eq_iff u.jti_hash t.jti_hash)

-- With unique columns the query by hash never raises.
pub scalar_one_or_none-select :
    (h : String) (rows : Table)
    → IsKeyed rows
    → scalar_one_or_none (select (λ t. t.jti_hash == h) rows) ≡ some (find h rows)
unfolding select find
scalar_one_or_none-select h [] k = refl
scalar_one_or_none-select h (t ∷ ts) k =
    ground
      (arith, scalar_one_or_none-select h ts k.1, select_hash_none t ts k.0, eq_iff t.jti_hash h)

pub collides-revoke_rows :
    (t : RefreshToken) (p : RefreshToken → Bool) (clock : ℕ → ℕ) (i : ℕ) (rows : Table)
    → collides t (revoke_rows p clock i rows) ≡ collides t rows
unfolding collides revoke_rows
collides-revoke_rows t p clock i [] = refl
collides-revoke_rows t p clock i (u ∷ us) =
    ground (arith, collides-revoke_rows t p clock (if p u then i + 1 else i) us)

collides-revoke :
    (now : ℕ) (t : RefreshToken) (rows : Table) → collides (revoke now t) rows ≡ collides t rows
unfolding collides
collides-revoke now t [] = refl
collides-revoke now t (u ∷ us) = ground (arith, collides-revoke now t us)

pub revoke_rows-IsKeyed :
    (p : RefreshToken → Bool) (clock : ℕ → ℕ) (i : ℕ) (rows : Table)
    → IsKeyed rows
    → IsKeyed (revoke_rows p clock i rows)
unfolding revoke_rows
revoke_rows-IsKeyed p clock i [] k = k
revoke_rows-IsKeyed p clock i (t ∷ ts) k =
    let i' = if p t then i + 1 else i in
    ground (
      arith,
      collides-revoke (clock i) t (revoke_rows p clock i' ts),
      collides-revoke_rows t p clock i' ts,
      revoke_rows-IsKeyed p clock i' ts k.1,
    )

pub find-revoke_rows :
    (h : String) (p : RefreshToken → Bool) (clock : ℕ → ℕ) (i : ℕ) (rows : Table)
    → Marked p (find h rows) (find h (revoke_rows p clock i rows))
unfolding find revoke_rows
find-revoke_rows h p clock i [] = tt
find-revoke_rows h p clock i (t ∷ ts) =
    ground (arith, find-revoke_rows h p clock (if p t then i + 1 else i) ts)

collides-delete_rows :
    (t : RefreshToken) (p : RefreshToken → Bool) (rows : Table)
    → collides t rows ≡ false
    → collides t (delete_rows p rows) ≡ false
unfolding collides delete_rows
collides-delete_rows t p [] h = refl
collides-delete_rows t p (u ∷ us) h = ground (arith, collides-delete_rows t p us)

pub delete_rows-IsKeyed :
    (p : RefreshToken → Bool) (rows : Table) → IsKeyed rows → IsKeyed (delete_rows p rows)
unfolding delete_rows
delete_rows-IsKeyed p [] k = k
delete_rows-IsKeyed p (t ∷ ts) k =
    ground (arith, delete_rows-IsKeyed p ts k.1, collides-delete_rows t p ts k.0)

pub find-none_of_collides :
    (t : RefreshToken) (rows : Table) → collides t rows ≡ false → find t.jti_hash rows ≡ none
unfolding collides find
find-none_of_collides t [] h = refl
find-none_of_collides t (u ∷ us) h =
    ground (
      arith,
      find-none_of_collides t us,
      eq_iff t.jti_hash u.jti_hash,
      eq_iff u.jti_hash t.jti_hash,
    )

-- A query after a deletion finds what it found before, unless that row has been deleted.
pub find-delete_rows :
    (h : String) (p : RefreshToken → Bool) (rows : Table)
    → IsKeyed rows
    → find h (delete_rows p rows)
      ≡ (elim (find h rows) [ none ↦ none | some t ↦ if p t then none else some t ])
unfolding find delete_rows
find-delete_rows h p [] k = refl
find-delete_rows h p (t ∷ ts) k =
    ground (arith, find-delete_rows h p ts k.1, find-none_of_collides t ts k.0, eq_iff t.jti_hash h)

pub find-append :
    (h : String) (t : RefreshToken) (rows : Table)
    → find h (rows ++ (t ∷ []))
      ≡ (elim (find h rows) [ none ↦ if t.jti_hash == h then some t else none | some u ↦ some u ])
unfolding find
find-append h t [] = refl
find-append h t (u ∷ us) = ground (arith, find-append h t us)

collides-append :
    (t u : RefreshToken) (rows : Table)
    → collides t (rows ++ (u ∷ []))
      ≡ (collides t rows || (t.id == u.id || t.jti_hash == u.jti_hash))
unfolding collides
collides-append t u [] = ground arith
collides-append t u (v ∷ vs) = ground (arith, collides-append t u vs)

pub append-IsKeyed :
    (t : RefreshToken) (rows : Table)
    → collides t rows ≡ false
    → IsKeyed rows
    → IsKeyed (rows ++ (t ∷ []))
unfolding collides
append-IsKeyed t [] h k = (refl, tt)
append-IsKeyed t (u ∷ us) h k = ground (
  arith,
  append-IsKeyed t us,
  collides-append u t us,
  eq_iff t.id u.id,
  eq_iff u.id t.id,
  eq_iff t.jti_hash u.jti_hash,
  eq_iff u.jti_hash t.jti_hash,
)

pub find_hash :
    (h : String) (rows : Table) (t : RefreshToken) → find h rows ≡ some t → t.jti_hash ≡ h
unfolding find
find_hash h [] t e = cc
find_hash h (u ∷ us) t e = ground (arith, find_hash h us t, eq_iff u.jti_hash h)

-- A row that is found collides with the rows before it only if it is one of them.
collides_of_find :
    (h : String) (t : RefreshToken) (rows : Table) (u : RefreshToken)
    → collides t rows ≡ false
    → find h rows ≡ some u
    → (t.id == u.id) ≡ false
unfolding collides find
collides_of_find h t [] u c e = cc
collides_of_find h t (v ∷ vs) u c e = ground (arith, collides_of_find h t vs u)

-- Two rows that are found and share the primary key are one row.
pub find_same_id :
    (g h : String) (rows : Table) (t u : RefreshToken)
    → IsKeyed rows
    → find g rows ≡ some t
    → find h rows ≡ some u
    → (u.id == t.id) ≡ true
    → u ≡ t
unfolding find
find_same_id g h [] t u k et eu same = cc
find_same_id g h (v ∷ vs) t u k et eu same = ground (
  arith,
  find_same_id g h vs t u k.1,
  collides_of_find g v vs t k.0,
  collides_of_find h v vs u k.0,
  eq_iff u.id t.id,
  eq_iff v.id u.id,
  eq_iff v.id t.id,
)

pub Marked-congr :
    (p q : RefreshToken → Bool) (a b : Option RefreshToken)
    → ((u : RefreshToken) → a ≡ some u → p u ≡ q u)
    → Marked p a b
    → Marked q a b
Marked-congr p q none none same m = tt
Marked-congr p q none (some v) same m = m
Marked-congr p q (some u) none same m = m
Marked-congr p q (some u) (some v) same m = ground (arith, same u refl)

pub Marked-refl :
    (p : RefreshToken → Bool) (a : Option RefreshToken)
    → ((u : RefreshToken) → a ≡ some u → p u ≡ false)
    → Marked p a a
Marked-refl p none apart = tt
Marked-refl p (some u) apart = ground (arith, apart u refl)
