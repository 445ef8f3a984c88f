-- ===== src/RefreshTokenService/Safety.antt =====
-- Every method keeps the unique columns unique, and makes no revoked token valid again.
use codelab_auth_service.Common.{
  ℕ, ◌+◌, String, ◌≡◌, sym, subst, Bool, Bool-cases, inl, inr, true, false, Option, none, some,
  arith, ◌==◌, if◌then◌else◌,
}
use codelab_auth_service.JwtPayload.{JwtPayload}
use codelab_auth_service.RefreshToken.{RefreshToken, Table, is_expired, revoke_rows, delete_rows}
use codelab_auth_service.RefreshToken.Rows.{
  IsKeyed, find, Marked, find-revoke_rows, find-delete_rows, revoke_rows-IsKeyed,
  delete_rows-IsKeyed,
}
use codelab_auth_service.RefreshTokenService.{
  new_token, save_refresh_token, validate_refresh_token, revoke_token, revoke_token_chain, judge,
  revoke_found, cleanup_expired_tokens, in_chain, in_session, same_row, revoke_session,
}
use codelab_auth_service.RefreshTokenService.Validation.{Inserts, save_then_get, validate-find}
use codelab_auth_service.RefreshTokenService.Reuse.{revoke_token-find}

-- Every row that a hash finds is revoked.
abbrev pub AllRevoked : Option RefreshToken → Type 0
AllRevoked none = Unit
AllRevoked (some t) = t.revoked ≡ true

-- A table after a call: its unique columns are still unique, and a hash whose row was revoked, or
-- that had none, still finds no row that is not revoked.
pub record IsSafe (h : String) (rows rows' : Table) : Type 0 where
  pub keyed : IsKeyed rows'
  pub stays : AllRevoked (find h rows) → AllRevoked (find h rows')

pub AllRevoked-Marked :
    (p : RefreshToken → Bool) (a b : Option RefreshToken)
    → Marked p a b
    → AllRevoked a
    → AllRevoked b
AllRevoked-Marked p none none m r = tt
AllRevoked-Marked p none (some v) m r = elim m [ ]
AllRevoked-Marked p (some u) none m r = tt
AllRevoked-Marked p (some u) (some v) m r = ground arith

pub IsSafe-refl : (h : String) (rows : Table) → IsKeyed rows → IsSafe h rows rows
IsSafe-refl h rows k = record { keyed = k; stays = λ r. r }

pub IsSafe-trans :
    (h : String) (a b c : Table) → IsSafe h a b → (IsKeyed b → IsSafe h b c) → IsSafe h a c
IsSafe-trans h a b c s t = record {
  keyed = (t s.keyed).keyed;
  stays = λ r. (t s.keyed).stays (s.stays r);
}

pub revoke_rows-IsSafe :
    (h : String) (p : RefreshToken → Bool) (clock : ℕ → ℕ) (rows : Table)
    → IsKeyed rows
    → IsSafe h rows (revoke_rows p clock 0 rows)
revoke_rows-IsSafe h p clock rows k = record {
  keyed = revoke_rows-IsKeyed p clock 0 rows k;
  stays = AllRevoked-Marked p (find h rows) _ (find-revoke_rows h p clock 0 rows);
}

delete_rows-IsSafe :
    (h : String) (p : RefreshToken → Bool) (rows : Table)
    → IsKeyed rows
    → IsSafe h rows (delete_rows p rows)
delete_rows-IsSafe h p rows k = record {
  keyed = delete_rows-IsKeyed p rows k;
  stays = λ r. rw (find-delete_rows h p rows k) (after (find h rows) r);
}
  where
    after :
        (a : Option RefreshToken)
        → AllRevoked a
        → AllRevoked (elim a [ none ↦ none | some t ↦ if p t then none else some t ])
    after none r = tt
    after (some t) r = elim (Bool-cases (p t)) [ inl e ↦ rw e tt | inr e ↦ rw e r ]

Inserts-IsSafe :
    (h : String) (t : RefreshToken) (rows : Table) (r : Option RefreshToken × Table)
    → IsKeyed rows
    → (t.jti_hash == h) ≡ false
    → Inserts t rows r
    → IsSafe h rows r.1
Inserts-IsSafe h t rows (saved, rows') k apart (inl (free, _, keyed, found)) = record {
  keyed = keyed;
  stays = λ r. rw (found h) (rw apart r);
}
Inserts-IsSafe h t rows (saved, rows') k apart (inr (_, _, same)) = rw same (IsSafe-refl h rows k)

pub chain-IsSafe :
    (h : String) (clock : ℕ → ℕ) (t : RefreshToken) (rows : Table)
    → IsKeyed rows
    → IsSafe h rows (revoke_token_chain clock t rows).1
unfolding revoke_token_chain
chain-IsSafe h clock t rows k =
    IsSafe-trans h rows _ _ (revoke_rows-IsSafe h (same_row t) (λ _. clock 0) rows k)
      (revoke_rows-IsSafe h (in_chain t) (λ i. clock (i + 1)) _)

module _ (sha256 : String → String) where
  judge-IsSafe :
      (h : String) (clock : ℕ → ℕ) (found : Option RefreshToken) (rows : Table)
      → IsKeyed rows
      → IsSafe h rows (judge sha256 clock found rows).1
  unfolding judge
  judge-IsSafe h clock none rows k = IsSafe-refl h rows k
  judge-IsSafe h clock (some t) rows k = elim (Bool-cases t.revoked) [
    | inl e ↦ simp e (chain-IsSafe h clock t rows k)
    | inr e ↦ elim (Bool-cases (is_expired (clock 0) t)) [
      | inl old ↦ simp (e, old) (IsSafe-refl h rows k)
      | inr young ↦ simp (e, young) (IsSafe-refl h rows k)
    ]
  ]

  revoke_found-IsSafe :
      (h : String) (now : ℕ) (found : Option RefreshToken) (rows : Table)
      → IsKeyed rows
      → IsSafe h rows (revoke_found sha256 now found rows).1
  unfolding revoke_found
  revoke_found-IsSafe h now none rows k = IsSafe-refl h rows k
  revoke_found-IsSafe h now (some t) rows k = revoke_rows-IsSafe h (same_row t) (λ _. now) rows k

  pub save-IsSafe :
      (h : String) (payload : JwtPayload) (parent session ip agent : Option String)
      (uuid id : String) (clock : ℕ → ℕ) (rows : Table)
      → (sha256 payload.jti == h) ≡ false
      → IsKeyed rows
      → IsSafe h rows
          (save_refresh_token sha256 payload parent session ip agent uuid id clock rows).1
  save-IsSafe h payload parent session ip agent uuid id clock rows apart k =
      Inserts-IsSafe h (new_token sha256 payload parent session ip agent uuid id clock) rows _ k
        apart (save_then_get sha256 payload parent session ip agent uuid id clock rows k)

  pub validate-IsSafe :
      (h : String) (clock : ℕ → ℕ) (jti : String) (rows : Table)
      → IsKeyed rows
      → IsSafe h rows (validate_refresh_token sha256 clock jti rows).1
  validate-IsSafe h clock jti rows k =
      subst (λ r. IsSafe h rows r.1) (sym (validate-find sha256 clock jti rows k))
        (judge-IsSafe h clock (find (sha256 jti) rows) rows k)

  pub revoke_token-IsSafe :
      (h : String) (now : ℕ) (jti : String) (rows : Table)
      → IsKeyed rows
      → IsSafe h rows (revoke_token sha256 now jti rows).1
  revoke_token-IsSafe h now jti rows k =
      subst (λ r. IsSafe h rows r.1) (sym (revoke_token-find sha256 now jti rows k))
        (revoke_found-IsSafe h now (find (sha256 jti) rows) rows k)

pub cleanup-IsSafe :
    (h : String) (now days : ℕ) (rows : Table)
    → IsKeyed rows
    → IsSafe h rows (cleanup_expired_tokens now days rows).1
unfolding cleanup_expired_tokens
cleanup-IsSafe h now days rows k = delete_rows-IsSafe h _ rows k

pub revoke_session-IsSafe :
    (h : String) (clock : ℕ → ℕ) (user session : String) (rows : Table)
    → IsKeyed rows
    → IsSafe h rows (revoke_session clock user session rows).1
unfolding revoke_session
revoke_session-IsSafe h clock user session rows k =
    revoke_rows-IsSafe h (in_session user session) clock rows k
