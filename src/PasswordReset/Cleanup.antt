-- ===== src/PasswordReset/Cleanup.antt =====
-- `cleanup_expired_tokens` of the reset tokens.
use codelab_auth_service.Common.{
  ℕ, ◌+◌, ◌≤◌, String, ◌≡◌, refl, false, Option, none, some, [], ◌∷◌, arith, length, select, eq_iff,
  All, if◌then◌else◌,
}
use codelab_auth_service.PasswordReset.{
  PasswordResetToken, ResetTable, taken, is_expired, delete_expired, verdict, verify_token,
  cleanup_expired_tokens,
}
use codelab_auth_service.PasswordReset.Rows.{IsKeyed, find}
use codelab_auth_service.PasswordReset.Use.{verify-find}

taken-delete_expired :
    (t : PasswordResetToken) (now : ℕ) (rows : ResetTable)
    → taken t rows ≡ false
    → taken t (delete_expired now rows) ≡ false
unfolding taken delete_expired
taken-delete_expired t now [] free = refl
taken-delete_expired t now (u ∷ us) free = ground (arith, taken-delete_expired t now us)

delete_expired-IsKeyed :
    (now : ℕ) (rows : ResetTable) → IsKeyed rows → IsKeyed (delete_expired now rows)
unfolding delete_expired
delete_expired-IsKeyed now [] k = k
delete_expired-IsKeyed now (t ∷ ts) k =
    ground (arith, delete_expired-IsKeyed now ts k.1, taken-delete_expired t now ts k.0)

find-nothing :
    (t : PasswordResetToken) (rows : ResetTable)
    → taken t rows ≡ false
    → find t.token_hash rows ≡ none
unfolding taken find
find-nothing t [] free = refl
find-nothing t (u ∷ us) free =
    ground
      (arith, find-nothing t us, eq_iff t.token_hash u.token_hash, eq_iff u.token_hash t.token_hash)

find-delete_expired :
    (h : String) (now : ℕ) (rows : ResetTable)
    → IsKeyed rows
    → find h (delete_expired now rows)
      ≡ (elim (find h rows) [ none ↦ none | some t ↦ if is_expired now t then none else some t ])
unfolding find delete_expired
find-delete_expired h now [] k = refl
find-delete_expired h now (t ∷ ts) k =
    ground (arith, find-delete_expired h now ts k.1, find-nothing t ts k.0, eq_iff t.token_hash h)

length-delete_expired :
    (now : ℕ) (rows : ResetTable)
    → length (select (is_expired now) rows) + length (delete_expired now rows) ≡ length rows
unfolding select delete_expired
length-delete_expired now [] = refl
length-delete_expired now (t ∷ ts) = ground (arith, length-delete_expired now ts)

All-delete_expired :
    (now : ℕ) (rows : ResetTable) → All (λ t. now ≤ t.expires_at) (delete_expired now rows)
unfolding delete_expired
All-delete_expired now [] = tt
All-delete_expired now (t ∷ ts) = ground (arith, All-delete_expired now ts)

same_verdict :
    (now later : ℕ) (found : Option PasswordResetToken)
    → now ≤ later
    → verdict later
        (elim found [ none ↦ none | some t ↦ if is_expired now t then none else some t ])
      ≡ verdict later found
same_verdict now later none le = refl
same_verdict now later (some t) le = ground arith

-- On a table with unique columns, the clean-up answers the number of rows that it has deleted,
-- leaves no row that had expired, and from then on every token is as good as without it.
pub cleanup_keeps_good :
    (sha256 : String → String) (now : ℕ) (rows : ResetTable)
    → IsKeyed rows
    → let (count, rows') = cleanup_expired_tokens now rows in
      (count + length rows' ≡ length rows)
      × All (λ t. now ≤ t.expires_at) rows'
      × ((later : ℕ) (token : String)
          → now ≤ later
          → (verify_token sha256 later token rows').0 ≡ (verify_token sha256 later token rows).0)
unfolding cleanup_expired_tokens
cleanup_keeps_good sha256 now rows k = (
  length-delete_expired now rows,
  All-delete_expired now rows,
  λ later token le.
      rw
        (
          verify-find sha256 later token (delete_expired now rows)
              (delete_expired-IsKeyed now rows k),
          verify-find sha256 later token rows k,
          find-delete_expired (sha256 token) now rows k,
          same_verdict now later (find (sha256 token) rows) le,
        )
        refl,
)
