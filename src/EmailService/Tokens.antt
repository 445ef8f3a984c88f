-- ===== src/EmailService/Tokens.antt =====
-- The token that is saved is the one that is found.
use codelab_auth_service.Common.{
  String, ◌≡◌, refl, Bool-cases, inl, inr, false, some, [], ◌∷◌, ◌++◌, arith, select, first, ◌==◌,
  eq_iff, eq_refl,
}
use codelab_auth_service.ConfirmationToken.{EmailConfirmationToken, ConfirmationTable, is_taken}
use codelab_auth_service.User.{UserTable}
use codelab_auth_service.UserService.Lookups.{find}

pub first-append :
    (t : EmailConfirmationToken) (rows : ConfirmationTable)
    → is_taken t rows ≡ false
    → first (select (λ u. u.token == t.token) (rows ++ t ∷ [])) ≡ some t
unfolding is_taken select
first-append t [] free = ground (arith, eq_refl t.token)
first-append t (u ∷ us) free =
    ground
      (arith, first-append t us, eq_iff u.token t.token, eq_iff t.token u.token, eq_refl t.token)

pub first-find :
    (id : String) (users : UserTable)
    → first (select (λ u. u.id == id) users) ≡ find (λ u. u.id == id) users
unfolding select find
first-find id [] = refl
first-find id (u ∷ us) = elim (Bool-cases (u.id == id)) [
  | inl same ↦ rw same refl
  | inr other ↦ rw other (first-find id us)
]
