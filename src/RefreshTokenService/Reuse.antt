-- ===== src/RefreshTokenService/Reuse.antt =====
-- Revocation of one token, and of a family of tokens when a revoked one is used again.
use codelab_auth_service.Common.{
  ℕ, ◌+◌, String, ◌≡◌, refl, Bool, true, false, ◌&&◌, Option, none, some, arith, ◌==◌, eq_iff,
  eq-false_of_ne, eq_refl, Bool-cases, inl, inr, sym, ap, ◌∙◌,
}
use codelab_auth_service.Commands.{>>=-reply}
use codelab_auth_service.RefreshToken.{RefreshToken, Table, revoke_rows}
use codelab_auth_service.RefreshToken.Rows.{
  IsKeyed, find, find_hash, Marked, Marked-congr, Marked-refl, find-revoke_rows, find_same_id,
  revoke_rows-IsKeyed,
}
use codelab_auth_service.RefreshTokenService.{
  judge, get_by_jti, validate_refresh_token, revoke_token_chain, revoke_token, revoke_found,
  in_chain, same_row,
}
use codelab_auth_service.RefreshTokenService.Validation.{get_by_jti-find, validate-find}

-- The tokens of one user at one client.
abbrev pub in_family : RefreshToken → RefreshToken → Bool
in_family t u = u.user_id == t.user_id && u.client_id == t.client_id

chain_marks :
    (t : RefreshToken) (a b c : Option RefreshToken)
    → ((u : RefreshToken) → a ≡ some u → (u.id == t.id) ≡ true → u ≡ t)
    → Marked (same_row t) a b
    → Marked (in_chain t) b c
    → Marked (in_family t) a c
chain_marks t none none none one m n = tt
chain_marks t (some u) (some v) (some w) one m n =
    ground (arith, one u refl, eq_refl t.user_id, eq_refl t.client_id)
chain_marks t none none (some w) one m n = n
chain_marks t none (some v) c one m n = elim m [ ]
chain_marks t (some u) none c one m n = elim m [ ]
chain_marks t (some u) (some v) none one m n = elim n [ ]

-- The revocation of a chain revokes the tokens of the family, and changes nothing else.
pub revoke_token_chain-Marked :
    (clock : ℕ → ℕ) (g : String) (t : RefreshToken) (rows : Table)
    → IsKeyed rows
    → find g rows ≡ some t
    → (h : String) → Marked (in_family t) (find h rows) (find h (revoke_token_chain clock t rows).1)
unfolding revoke_token_chain
revoke_token_chain-Marked clock g t rows k e h =
    let flushed = revoke_rows (same_row t) (λ _. clock 0) 0 rows in
    chain_marks t (find h rows) (find h flushed) _
      (λ u eu same. find_same_id g h rows t u k e eu same)
      (find-revoke_rows h (same_row t) (λ _. clock 0) 0 rows)
      (find-revoke_rows h (in_chain t) (λ i. clock (i + 1)) 0 flushed)

pub revoke_token_chain-IsKeyed :
    (clock : ℕ → ℕ) (t : RefreshToken) (rows : Table)
    → IsKeyed rows
    → IsKeyed (revoke_token_chain clock t rows).1
unfolding revoke_token_chain
revoke_token_chain-IsKeyed clock t rows k =
    revoke_rows-IsKeyed (in_chain t) (λ i. clock (i + 1)) 0
      (revoke_rows (same_row t) (λ _. clock 0) 0 rows)
      (revoke_rows-IsKeyed (same_row t) (λ _. clock 0) 0 rows k)

module _ (sha256 : String → String) where
  -- On a table with unique columns, a revoked refresh token that is presented again is refused,
  -- and every token of its user at its client is revoked; all else stays as it was.
  pub reuse_revokes_family :
      (clock : ℕ → ℕ) (jti : String) (rows : Table) (t : RefreshToken)
      → IsKeyed rows
      → find (sha256 jti) rows ≡ some t
      → t.revoked ≡ true
      → let (reply, rows') = validate_refresh_token sha256 clock jti rows in
        (reply ≡ some (false, some "Refresh token has been revoked (reuse detected)"))
        × ((h : String) → Marked (in_family t) (find h rows) (find h rows'))
  reuse_revokes_family clock jti rows t k e revoked =
      rw (validate-find sha256 clock jti rows k, e)
        (unfold judge in
          simp revoked (refl, revoke_token_chain-Marked clock (sha256 jti) t rows k e))

  pub revoke_token-find :
      (now : ℕ) (jti : String) (rows : Table)
      → IsKeyed rows
      → revoke_token sha256 now jti rows ≡ revoke_found sha256 now (find (sha256 jti) rows) rows
  unfolding revoke_token
  revoke_token-find now jti rows k =
      >>=-reply (get_by_jti sha256 jti) (revoke_found sha256 now) rows rows (find (sha256 jti) rows)
        (get_by_jti-find sha256 jti rows k)

  found_row :
      (jti h : String) (rows : Table) (t u : RefreshToken)
      → IsKeyed rows
      → find (sha256 jti) rows ≡ some t
      → find h rows ≡ some u
      → (u.id == t.id) ≡ (u.jti_hash == sha256 jti)
  found_row jti h rows t u k et eu = elim (Bool-cases (u.jti_hash == sha256 jti)) [
    | inl same ↦
        let same_hash : h ≡ sha256 jti =
          sym (find_hash h rows u eu) ∙ (eq_iff u.jti_hash (sha256 jti)).0 same in
        let one : u ≡ t = cc (eu, et, ap (λ (x : String). find x rows) same_hash) in
        rw same (rw one (eq_refl t.id))
    | inr other ↦ ground (
      arith,
      find_same_id (sha256 jti) h rows t u k et eu,
      find_hash (sha256 jti) rows t et,
      eq_refl t.jti_hash,
    )
  ]

  no_row :
      (jti h : String) (rows : Table)
      → find (sha256 jti) rows ≡ none
      → (u : RefreshToken) → find h rows ≡ some u
      → (u.jti_hash == sha256 jti) ≡ false
  no_row jti h rows e u eu =
      eq-false_of_ne u.jti_hash (sha256 jti)
        (λ same. cc (e, eu, ap (λ (x : String). find x rows) (sym (find_hash h rows u eu) ∙ same)))

  found_one :
      (now : ℕ) (jti : String) (rows : Table) (found : Option RefreshToken)
      → IsKeyed rows
      → find (sha256 jti) rows ≡ found
      → let (reply, rows') = revoke_found sha256 now found rows in
        (reply ≡ some (elim found [ none ↦ false | some _ ↦ true ]))
        × ((h : String) → Marked (λ u. u.jti_hash == sha256 jti) (find h rows) (find h rows'))
  unfolding revoke_found
  found_one now jti rows none k e = (refl, λ h. Marked-refl _ (find h rows) (no_row jti h rows e))
  found_one now jti rows (some t) k e = (
    refl,
    λ h.
        Marked-congr (same_row t) (λ u. u.jti_hash == sha256 jti) (find h rows) _
          (λ u eu. found_row jti h rows t u k e eu)
          (find-revoke_rows h (same_row t) (λ _. now) 0 rows),
  )

  -- On a table with unique columns, `revoke_token` answers whether the hash has a row; it revokes
  -- that row, and leaves every other as it was.
  pub revoke_token_one :
      (now : ℕ) (jti : String) (rows : Table)
      → IsKeyed rows
      → let (reply, rows') = revoke_token sha256 now jti rows in
        (reply ≡ some (elim (find (sha256 jti) rows) [ none ↦ false | some _ ↦ true ]))
        × ((h : String) → Marked (λ u. u.jti_hash == sha256 jti) (find h rows) (find h rows'))
  revoke_token_one now jti rows k =
      rw (revoke_token-find now jti rows k) (found_one now jti rows (find (sha256 jti) rows) k refl)
