-- ===== src/PasswordReset.antt =====
-- app/models/password_reset_token.py and app/services/password_reset_service.py:
-- `class PasswordResetService`. A result is `none` where the method raises; the drawn token is an
-- argument. sha256 is a parameter.
pub mod Rows
pub mod Use
pub mod Cleanup
mod Tests
use codelab_auth_service.Common.{
  ℕ, ◌+◌, ◌*◌, String, Bool, true, false, ◌||◌, Option, none, some, List, [], ◌∷◌, ◌++◌, length,
  select, scalar_one_or_none, ltb, ◌==◌, if◌then◌else◌,
}
use codelab_auth_service.Commands.{◌>>=◌, pure}
use codelab_auth_service.RefreshTokenService.{second}

-- A time is the number of microseconds since the epoch.
pub record PasswordResetToken : Type 0 where
  pub id : String
  pub user_id : String
  pub token_hash : String
  pub created_at : ℕ
  pub expires_at : ℕ
  pub used_at : Option ℕ

abbrev pub ResetTable : Type 0
ResetTable = List PasswordResetToken

abbrev pub is_expired : ℕ → PasswordResetToken → Bool
is_expired now t = ltb t.expires_at now

abbrev pub is_used : PasswordResetToken → Bool
is_used t = elim t.used_at [ none ↦ false | some _ ↦ true ]

abbrev pub token_expiration_minutes : ℕ
token_expiration_minutes = 30

-- The unique columns: the primary key and `token_hash`.
abbrev pub shares : PasswordResetToken → PasswordResetToken → Bool
shares t u = t.id == u.id || t.token_hash == u.token_hash

unfoldable pub taken : PasswordResetToken → ResetTable → Bool
taken t [] = false
taken t (u ∷ us) = shares t u || taken t us

-- `reset_token.used_at = now`, in the row of the object's primary key.
unfoldable pub write_used : PasswordResetToken → ℕ → ResetTable → ResetTable
write_used t now [] = []
write_used t now (u ∷ us) =
    (if u.id == t.id then record u { used_at = some now } else u) ∷ write_used t now us

unfoldable pub delete_expired : ℕ → ResetTable → ResetTable
delete_expired now [] = []
delete_expired now (t ∷ ts) =
    let rest = delete_expired now ts in if is_expired now t then rest else t ∷ rest

-- What `verify_token` answers on the row that it has found.
abbrev pub verdict : ℕ → Option PasswordResetToken → Option String
verdict now none = none
verdict now (some t) = if is_expired now t then none else if is_used t then none else some t.user_id

module _ (sha256 : String → String) where
  abbrev pub new_reset_token : String → String → String → ℕ → PasswordResetToken
  new_reset_token user_id token id now = record {
    id = id;
    user_id = user_id;
    token_hash = sha256 token;
    created_at = now;
    expires_at = now + token_expiration_minutes * 60 * second;
    used_at = none;
  }

  unfoldable pub create_token :
      String → String → String → ℕ → ResetTable → Option String × ResetTable
  create_token user_id token id now rows =
      let t = new_reset_token user_id token id now in
      if taken t rows then (none, rows) else (some token, rows ++ t ∷ [])

  -- The lookup that `verify_token` and `mark_token_used` begin with.
  unfoldable pub by_hash : String → ResetTable → Option (Option PasswordResetToken) × ResetTable
  by_hash token rows = (scalar_one_or_none (select (λ t. t.token_hash == sha256 token) rows), rows)

  unfoldable pub verify_token : ℕ → String → ResetTable → Option (Option String) × ResetTable
  unfolding by_hash
  verify_token now token =
      if token == "" then pure none else (do found ← by_hash token; pure (verdict now found))

  -- What `mark_token_used` does with the row that it has found.
  pub mark_found : ℕ → Option PasswordResetToken → ResetTable → Option Bool × ResetTable
  mark_found now none rows = (some false, rows)
  mark_found now (some t) rows = (some true, write_used t now rows)

  pub mark_token_used : ℕ → String → ResetTable → Option Bool × ResetTable
  unfolding by_hash mark_found
  mark_token_used now token =
      if token == "" then pure false else (do found ← by_hash token; mark_found now found)

pub cleanup_expired_tokens : ℕ → ResetTable → ℕ × ResetTable
cleanup_expired_tokens now rows = (length (select (is_expired now) rows), delete_expired now rows)
