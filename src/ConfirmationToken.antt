-- ===== src/ConfirmationToken.antt =====
-- app/models/email_confirmation_token.py: a row of the table `email_confirmation_tokens`.
use codelab_auth_service.Common.{ℕ, String, Bool, false, ◌||◌, List, [], ◌∷◌, ◌==◌}

-- A time is the number of microseconds since the epoch.
pub record EmailConfirmationToken : Type 0 where
  pub id : String
  pub user_id : String
  pub token : String
  pub expires_at : ℕ
  pub created_at : ℕ

abbrev pub ConfirmationTable : Type 0
ConfirmationTable = List EmailConfirmationToken

-- The unique columns: the primary key and `token`.
unfoldable pub is_taken : EmailConfirmationToken → ConfirmationTable → Bool
is_taken t [] = false
is_taken t (u ∷ us) = (t.id == u.id || t.token == u.token) || is_taken t us
