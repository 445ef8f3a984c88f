-- ===== src/RefreshTokenService/Validation.antt =====
-- `save_refresh_token`, `get_by_jti` and `validate_refresh_token` on a table with unique columns.
use codelab_auth_service.Common.{
  ℕ, ◌≤◌, String, ◌≡◌, ◌↔◌, ◌⊎◌, refl, ap, inl, inr, Bool, Bool-cases, true, false, Option, none,
  some, [], ◌∷◌, ◌++◌, arith, ◌==◌, eq_iff, if◌then◌else◌,
}
use codelab_auth_service.Commands.{>>=-reply}
use codelab_auth_service.JwtPayload.{JwtPayload}
use codelab_auth_service.RefreshToken.{RefreshToken, Table, collides}
use codelab_auth_service.RefreshToken.Rows.{
  IsKeyed, find, scalar_one_or_none-select, find-append, find-none_of_collides, append-IsKeyed,
}
use codelab_auth_service.RefreshTokenService.{
  new_token, save_refresh_token, get_by_jti, validate_refresh_token, judge, insert,
}

insert-find :
    (t : RefreshToken) (rows : Table) (h : String)
    → collides t rows ≡ false
    → find h (rows ++ (t ∷ [])) ≡ (if t.jti_hash == h then some t else find h rows)
insert-find t rows h free =
    ground (arith, find-append h t rows, find-none_of_collides t rows free, eq_iff t.jti_hash h)

-- How an insertion ends.
abbrev pub Inserts : RefreshToken → Table → Option RefreshToken × Table → Type 0
Inserts t rows (saved, rows') =
    ((collides t rows ≡ false)
      × (saved ≡ some t)
      × IsKeyed rows'
      × ((h : String) → find h rows' ≡ (if t.jti_hash == h then some t else find h rows)))
    ⊎ ((collides t rows ≡ true) × (saved ≡ none) × (rows' ≡ rows))

pub insert-Inserts :
    (t : RefreshToken) (rows : Table) → IsKeyed rows → Inserts t rows (insert t rows)
unfolding insert
insert-Inserts t rows k = elim (Bool-cases (collides t rows)) [
  | inl taken ↦ rw taken (inr (refl, refl, refl))
  | inr free ↦
      rw free (inl (refl, refl, append-IsKeyed t rows free k, λ h. insert-find t rows h free))
]

module _ (sha256 : String → String) where
  pub get_by_jti-find :
      (jti : String) (rows : Table)
      → IsKeyed rows
      → get_by_jti sha256 jti rows ≡ (some (find (sha256 jti) rows), rows)
  unfolding get_by_jti
  get_by_jti-find jti rows k = rw (scalar_one_or_none-select (sha256 jti) rows k)

  pub validate-find :
      (clock : ℕ → ℕ) (jti : String) (rows : Table)
      → IsKeyed rows
      → validate_refresh_token sha256 clock jti rows
        ≡ judge sha256 clock (find (sha256 jti) rows) rows
  unfolding validate_refresh_token
  validate-find clock jti rows k =
      >>=-reply (get_by_jti sha256 jti) (judge sha256 clock) rows rows (find (sha256 jti) rows)
        (get_by_jti-find jti rows k)

  judge_accepts :
      (clock : ℕ → ℕ) (found : Option RefreshToken) (rows : Table)
      → ((judge sha256 clock found rows).0 ≡ some (true, none))
        ↔ ((t : RefreshToken) × (found ≡ some t) × (t.revoked ≡ false) × (clock 0 ≤ t.expires_at))
  unfolding judge
  judge_accepts clock none rows = (λ h. cc, λ h. cc (h.1))
  judge_accepts clock (some t) rows =
      (λ h. (t, refl, ground arith, ground arith), λ h. ground arith)

  pub judge-accepted :
      (clock : ℕ → ℕ) (found : Option RefreshToken) (msg : Option String) (rows rows' : Table)
      → judge sha256 clock found rows ≡ (some (true, msg), rows')
      → (t : RefreshToken) × (found ≡ some t)
        × (t.revoked ≡ false)
        × (clock 0 ≤ t.expires_at)
        × (rows' ≡ rows)
  unfolding judge
  judge-accepted clock none msg rows rows' e =
      cc (ap (λ (x : Option (Bool × Option String) × Table). x.0) e)
  judge-accepted clock (some t) msg rows rows' e =
      (t, refl, ground arith, ground arith, ground arith)

  -- On a table with unique columns a refresh token is accepted exactly if its hash has a row that
  -- is not revoked and whose expiry is not past.
  pub accepted_iff :
      (clock : ℕ → ℕ) (jti : String) (rows : Table)
      → IsKeyed rows
      → ((validate_refresh_token sha256 clock jti rows).0 ≡ some (true, none)) ↔ (
          (t : RefreshToken) × (find (sha256 jti) rows ≡ some t)
          × (t.revoked ≡ false)
          × (clock 0 ≤ t.expires_at))
  accepted_iff clock jti rows k =
      rw (validate-find clock jti rows k) (judge_accepts clock (find (sha256 jti) rows) rows)

  -- A new row, of values that no unique column holds, is what its hash finds from then on, and
  -- every other hash finds what it found; where a unique column holds one of its values, the call
  -- raises and the table is as it was.
  pub save_then_get :
      (payload : JwtPayload) (parent_jti session_id ip_address user_agent : Option String)
      (uuid id : String) (clock : ℕ → ℕ) (rows : Table)
      → IsKeyed rows
      → let t =
          new_token sha256 payload parent_jti session_id ip_address user_agent uuid id clock in
        Inserts t rows (
          save_refresh_token sha256 payload parent_jti session_id ip_address user_agent uuid id
            clock rows)
  unfolding save_refresh_token
  save_then_get payload parent_jti session_id ip_address user_agent uuid id clock rows k =
      insert-Inserts
        (new_token sha256 payload parent_jti session_id ip_address user_agent uuid id clock) rows k
