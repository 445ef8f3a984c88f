-- ===== src/RefreshTokenService/Cleanup.antt =====
-- The clean-up of tokens that have expired long ago.
use codelab_auth_service.Common.{
  ℕ, ◌+◌, ◌-◌, ◌*◌, ◌≤◌, String, ◌≡◌, ◌↔◌, refl, Bool, Bool-cases, inl, inr, true, none, some, [],
  ◌∷◌, arith, length, select, All, ltb,
}
use codelab_auth_service.RefreshToken.{RefreshToken, Table, delete_rows}
use codelab_auth_service.RefreshToken.Rows.{IsKeyed, find-delete_rows, delete_rows-IsKeyed}
use codelab_auth_service.RefreshTokenService.{cleanup_expired_tokens, validate_refresh_token, day}
use codelab_auth_service.RefreshTokenService.Validation.{accepted_iff}

length-delete_rows :
    (p : RefreshToken → Bool) (rows : Table)
    → length (select p rows) + length (delete_rows p rows) ≡ length rows
unfolding select delete_rows
length-delete_rows p [] = refl
length-delete_rows p (t ∷ ts) = ground (arith, length-delete_rows p ts)

All-delete_rows :
    (cutoff : ℕ) (rows : Table)
    → All (λ t. cutoff ≤ t.expires_at) (delete_rows (λ t. ltb t.expires_at cutoff) rows)
unfolding delete_rows
All-delete_rows cutoff [] = tt
All-delete_rows cutoff (t ∷ ts) = elim (Bool-cases (ltb t.expires_at cutoff)) [
  | inl old ↦ rw old (All-delete_rows cutoff ts)
  | inr young ↦ rw young (ground arith, All-delete_rows cutoff ts)
]

-- The clean-up deletes as many rows as it says, and leaves none that expired before the cut-off. On
-- a table with unique columns, a token is accepted at a later time exactly if it would have been
-- accepted then without the clean-up.
pub cleanup_keeps_valid :
    (sha256 : String → String) (now days : ℕ) (rows : Table)
    → IsKeyed rows
    → let (count, rows') = cleanup_expired_tokens now days rows in
      (count + length rows' ≡ length rows)
      × All (λ t. now - days * day ≤ t.expires_at) rows'
      × ((clock : ℕ → ℕ) (jti : String)
          → now ≤ clock 0
          → ((validate_refresh_token sha256 clock jti rows').0 ≡ some (true, none))
            ↔ ((validate_refresh_token sha256 clock jti rows).0 ≡ some (true, none)))
unfolding cleanup_expired_tokens
cleanup_keeps_valid sha256 now days rows k =
    let old = λ (t : RefreshToken). ltb t.expires_at (now - days * day) in
    (
      length-delete_rows old rows,
      All-delete_rows (now - days * day) rows,
      λ clock jti le.
          let k' : IsKeyed (delete_rows old rows) = delete_rows-IsKeyed old rows k in
          (
            λ h.
                let (t, e, live, fresh) =
                  (accepted_iff sha256 clock jti (delete_rows old rows) k').0 h in
                (accepted_iff sha256 clock jti rows k).1
                  (t, ground (arith, find-delete_rows (sha256 jti) old rows k), live, fresh),
            λ h.
                let (t, e, live, fresh) = (accepted_iff sha256 clock jti rows k).0 h in
                (accepted_iff sha256 clock jti (delete_rows old rows) k').1
                  (t, ground (arith, find-delete_rows (sha256 jti) old rows k), live, fresh),
          ),
    )
