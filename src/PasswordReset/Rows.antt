-- ===== src/PasswordReset/Rows.antt =====
-- What a lookup by the hash of a reset token finds, before and after the rows have been changed.
use codelab_auth_service.Common.{
  ℕ, String, ◌≡◌, refl, subst, Bool-cases, inl, inr, true, false, ◌||◌, Option, none, some, [], ◌∷◌,
  ◌++◌, arith, select, scalar_one_or_none, ◌==◌, eq_iff, eq_refl, if◌then◌else◌,
}
use codelab_auth_service.PasswordReset.{PasswordResetToken, ResetTable, shares, taken, write_used}

-- No two rows share an identifier or a hash.
abbrev pub IsKeyed : ResetTable → Type 0
IsKeyed [] = Unit
IsKeyed (t ∷ ts) = (taken t ts ≡ false) × IsKeyed ts

-- The first row of a hash.
unfoldable pub find : String → ResetTable → Option PasswordResetToken
find h [] = none
find h (t ∷ ts) = if t.token_hash == h then some t else find h ts

select_nothing :
    (t : PasswordResetToken) (h : String) (rows : ResetTable)
    → (t.token_hash == h) ≡ true
    → taken t rows ≡ false
    → select (λ u. u.token_hash == h) rows ≡ []
unfolding taken select
select_nothing t h [] e free = refl
select_nothing t h (u ∷ us) e free =
    ground (arith, select_nothing t h us, eq_iff t.token_hash h, eq_iff u.token_hash h, eq_refl h)

pub lookup-find :
    (h : String) (rows : ResetTable)
    → IsKeyed rows
    → scalar_one_or_none (select (λ t. t.token_hash == h) rows) ≡ some (find h rows)
unfolding select find
lookup-find h [] k = refl
lookup-find h (t ∷ ts) k = ground (arith, lookup-find h ts k.1, select_nothing t h ts)

-- A row that is found has not the identifier of a row that the table has room for.
other_found :
    (u t : PasswordResetToken) (g : String) (rows : ResetTable)
    → taken u rows ≡ false
    → find g rows ≡ some t
    → (u.id == t.id) ≡ false
unfolding taken find
other_found u t g [] free e = cc e
other_found u t g (v ∷ vs) free e = ground (arith, other_found u t g vs)

write_nothing :
    (t : PasswordResetToken) (now : ℕ) (rows : ResetTable)
    → taken t rows ≡ false
    → write_used t now rows ≡ rows
unfolding taken write_used
write_nothing t now [] free = refl
write_nothing t now (u ∷ us) free =
    ground (arith, write_nothing t now us, eq_iff u.id t.id, eq_refl t.id)

write_head :
    (u : PasswordResetToken) (now : ℕ) (g h : String) (us : ResetTable)
    → (u.token_hash == g) ≡ true
    → taken u us ≡ false
    → find h (write_used u now (u ∷ us))
      ≡ (if h == g then some (record u { used_at = some now }) else find h (u ∷ us))
unfolding find write_used
write_head u now g h us same free = ground (
  arith,
  write_nothing u now us,
  eq_refl u.id,
  eq_iff u.token_hash g,
  eq_iff h g,
  eq_iff u.token_hash h,
  eq_refl h,
)

-- The row of the hash is marked, and every other hash finds what it found.
pub find-write_used :
    (t : PasswordResetToken) (now : ℕ) (g h : String) (rows : ResetTable)
    → IsKeyed rows
    → find g rows ≡ some t
    → find h (write_used t now rows)
      ≡ (if h == g then some (record t { used_at = some now }) else find h rows)
unfolding find write_used
find-write_used t now g h [] k e = cc e
find-write_used t now g h (u ∷ us) k e = elim (Bool-cases (u.token_hash == g)) [
  | inl same ↦
      let is : u ≡ t = ground arith in
      subst
        (λ (x : PasswordResetToken).
          find h (write_used x now (u ∷ us))
          ≡ (if h == g then some (record x { used_at = some now }) else find h (u ∷ us)))
        is (write_head u now g h us same k.0)
  | inr other ↦ ground (
    arith,
    find-write_used t now g h us,
    other_found u t g us,
    eq_iff u.token_hash h,
    eq_iff h g,
    eq_iff u.token_hash g,
    eq_refl g,
  )
]

pub find-append :
    (t : PasswordResetToken) (h : String) (rows : ResetTable)
    → taken t rows ≡ false
    → find h (rows ++ t ∷ []) ≡ (if t.token_hash == h then some t else find h rows)
unfolding taken find
find-append t h [] free = refl
find-append t h (u ∷ us) free =
    ground (arith, find-append t h us, eq_iff u.token_hash h, eq_iff t.token_hash h, eq_refl h)

taken-append :
    (u t : PasswordResetToken) (rows : ResetTable)
    → taken u (rows ++ t ∷ []) ≡ (taken u rows || shares u t)
unfolding taken
taken-append u t [] = ground arith
taken-append u t (v ∷ vs) = ground (arith, taken-append u t vs)

shares_back : (t u : PasswordResetToken) → shares t u ≡ false → shares u t ≡ false
shares_back t u e = ground (
  arith,
  eq_iff t.id u.id,
  eq_iff u.id t.id,
  eq_iff t.token_hash u.token_hash,
  eq_iff u.token_hash t.token_hash,
  eq_refl t.id,
  eq_refl t.token_hash,
)

pub append-IsKeyed :
    (t : PasswordResetToken) (rows : ResetTable)
    → taken t rows ≡ false
    → IsKeyed rows
    → IsKeyed (rows ++ t ∷ [])
unfolding taken
append-IsKeyed t [] free k = (refl, tt)
append-IsKeyed t (u ∷ us) free k =
    (ground (arith, taken-append u t us, shares_back t u), append-IsKeyed t us (ground arith) k.1)

taken-write_used :
    (u t : PasswordResetToken) (now : ℕ) (rows : ResetTable)
    → taken u (write_used t now rows) ≡ taken u rows
unfolding taken write_used
taken-write_used u t now [] = refl
taken-write_used u t now (v ∷ vs) = ground (arith, taken-write_used u t now vs)

taken_used :
    (u : PasswordResetToken) (now : ℕ) (rows : ResetTable)
    → taken (record u { used_at = some now }) rows ≡ taken u rows
unfolding taken
taken_used u now [] = refl
taken_used u now (v ∷ vs) = ground (arith, taken_used u now vs)

pub write_used-IsKeyed :
    (t : PasswordResetToken) (now : ℕ) (rows : ResetTable)
    → IsKeyed rows
    → IsKeyed (write_used t now rows)
unfolding write_used
write_used-IsKeyed t now [] k = tt
write_used-IsKeyed t now (u ∷ us) k = (
  ground (arith, taken-write_used u t now us, taken_used u now (write_used t now us)),
  write_used-IsKeyed t now us k.1,
)
