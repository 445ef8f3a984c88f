-- ===== src/PasswordReset/Use.antt =====
-- A reset token is good from its creation until it is used or expires.
use codelab_auth_service.Common.{
  ℕ, ◌+◌, ◌*◌, String, ◌≡◌, ◌≢◌, refl, ap, Bool-cases, inl, inr, Bool, true, false, Option, none,
  some, [], ◌∷◌, ◌++◌, arith, leb, ◌==◌, eq_iff, eq-false_of_ne, if◌then◌else◌,
}
use codelab_auth_service.Commands.{pure, >>=-reply}
use codelab_auth_service.PasswordReset.{
  PasswordResetToken, ResetTable, by_hash, verdict, verify_token, mark_found, mark_token_used,
  create_token, new_reset_token, taken, token_expiration_minutes,
}
use codelab_auth_service.PasswordReset.Rows.{
  IsKeyed, find, lookup-find, find-write_used, write_used-IsKeyed, find-append, append-IsKeyed,
}
use codelab_auth_service.RefreshTokenService.{second}

module _ (sha256 : String → String) where
  by_hash-find :
      (token : String) (rows : ResetTable)
      → IsKeyed rows
      → by_hash sha256 token rows ≡ (some (find (sha256 token) rows), rows)
  unfolding by_hash
  by_hash-find token rows k = rw (lookup-find (sha256 token) rows k) refl

  -- The answer of a lookup that does not raise.
  pub verify-find :
      (now : ℕ) (token : String) (rows : ResetTable)
      → IsKeyed rows
      → verify_token sha256 now token rows
        ≡ (some (if token == "" then none else verdict now (find (sha256 token) rows)), rows)
  unfolding verify_token
  verify-find now token rows k = elim (Bool-cases (token == "")) [
    | inl empty ↦ rw empty refl
    | inr filled ↦ rw filled (
        >>=-reply (by_hash sha256 token) (λ found. pure (verdict now found)) rows rows
          (find (sha256 token) rows) (by_hash-find token rows k))
  ]

  mark-find :
      (now : ℕ) (token : String) (rows : ResetTable)
      → IsKeyed rows
      → (token == "") ≡ false
      → mark_token_used sha256 now token rows
        ≡ mark_found sha256 now (find (sha256 token) rows) rows
  unfolding mark_token_used
  mark-find now token rows k filled = rw filled (
      >>=-reply (by_hash sha256 token) (mark_found sha256 now) rows rows (find (sha256 token) rows)
        (by_hash-find token rows k))

  found_replies :
      (now : ℕ) (found : Option PasswordResetToken) (rows : ResetTable)
      → (b : Bool) × ((mark_found sha256 now found rows).0 ≡ some b)
  unfolding mark_found
  found_replies now none rows = (false, refl)
  found_replies now (some t) rows = (true, refl)

  pub mark-replies :
      (now : ℕ) (token : String) (rows : ResetTable)
      → IsKeyed rows
      → (token == "") ≡ false
      → (b : Bool) × ((mark_token_used sha256 now token rows).0 ≡ some b)
  mark-replies now token rows k filled =
      rw (mark-find now token rows k filled) (found_replies now (find (sha256 token) rows) rows)

  -- The table after a marking, and what a lookup finds in it.
  found_after :
      (now : ℕ) (g : String) (rows : ResetTable) (found : Option PasswordResetToken)
      → IsKeyed rows
      → find g rows ≡ found
      → let rows' = (mark_found sha256 now found rows).1 in
        IsKeyed rows'
        × ((later : ℕ) (h : String)
            → verdict later (find h rows') ≡ (if h == g then none else verdict later (find h rows)))
  unfolding mark_found
  found_after now g rows none k e = (
    k,
    λ later h.
        ground
          (arith, eq_iff h g, ap (λ (x : String). verdict later (find x rows)) {x = h} {y = g}),
  )
  found_after now g rows (some t) k e = (
    write_used-IsKeyed t now rows k,
    λ later h. ground (arith, find-write_used t now g h rows k e),
  )

  -- On a table with unique columns, a reset token, not empty, that is marked as used is good at no
  -- time any more, and every other token, whose hash is another, is as good as it was.
  pub used_once :
      (now : ℕ) (token : String) (rows : ResetTable)
      → IsKeyed rows
      → token ≢ ""
      → let rows' = (mark_token_used sha256 now token rows).1 in
        (later : ℕ) (other : String)
        → (verify_token sha256 later other rows').0 ≡ (
            if sha256 other == sha256 token
            then some none
            else (verify_token sha256 later other rows).0)
  used_once now token rows k filled later other =
      let marked = mark-find now token rows k (eq-false_of_ne token "" filled) in
      let rows' = (mark_found sha256 now (find (sha256 token) rows) rows).1 in
      let (k', verdicts) = found_after now (sha256 token) rows (find (sha256 token) rows) k refl in
      let after = verify-find later other rows' k' in
      rw (marked, after, verify-find later other rows k)
        (ground (arith, verdicts later (sha256 other)))

  -- A reset token, not empty, that has been created on a table with unique columns gives its user until
  -- thirty minutes after its creation and nobody later; every other token, not empty, whose hash is
  -- another, is as good as it was.
  pub create_then_verify :
      (user_id token id : String) (now : ℕ) (rows : ResetTable)
      → IsKeyed rows
      → token ≢ ""
      → (create_token sha256 user_id token id now rows).0 ≡ some token
      → let rows' = (create_token sha256 user_id token id now rows).1 in
        (later : ℕ) (other : String)
        → (other ≢ "")
        → (verify_token sha256 later other rows').0 ≡ (
            if sha256 token == sha256 other
            then some (
                if leb later (now + token_expiration_minutes * 60 * second)
                then some user_id
                else none)
            else (verify_token sha256 later other rows).0)
  create_then_verify user_id token id now rows k filled made later other filled' =
      let t = new_reset_token sha256 user_id token id now in
      elim (Bool-cases (taken t rows)) [
        | inl held ↦ unfold create_token in ground arith
        | inr free ↦
            let added : create_token sha256 user_id token id now rows
                ≡ (some token, rows ++ t ∷ []) =
              unfold create_token in rw free refl in
            let after = verify-find later other (rows ++ t ∷ []) (append-IsKeyed t rows free k) in
            rw
              (
                added,
                after,
                verify-find later other rows k,
                eq-false_of_ne other "" filled',
                find-append t (sha256 other) rows free,
              )
              (ground arith)
      ]
