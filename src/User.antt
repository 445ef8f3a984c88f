-- ===== src/User.antt =====
-- app/models/user.py: a row of the table `users`, and the requests of app/schemas/user.py that the
-- user service takes.
pub mod Examples
use codelab_auth_service.Common.{ℕ, String, Bool, false, ◌||◌, Option, List, [], ◌∷◌, ◌==◌}

pub record User : Type 0 where
  pub id : String
  pub username : String
  pub email : String
  pub password_hash : String
  pub is_active : Bool
  pub is_verified : Bool
  pub email_confirmed : Bool
  pub created_at : ℕ
  pub updated_at : ℕ
  pub last_login_at : Option ℕ
  pub is_deleted : Bool
  pub deleted_at : Option ℕ
  pub deletion_reason : Option String

abbrev pub UserTable : Type 0
UserTable = List User

-- `UserCreate` and `UserRegister`, which have the same fields.
pub record UserCreate : Type 0 where
  pub username : String
  pub email : String
  pub password : String

pub record UserUpdate : Type 0 where
  pub username : Option String
  pub email : Option String
  pub password : Option String
  pub is_active : Option Bool
  pub is_verified : Option Bool

-- The unique columns: the primary key, `username` and `email`.
abbrev pub shares_key : User → User → Bool
shares_key u v = u.id == v.id || (u.username == v.username || u.email == v.email)

unfoldable pub occupied : User → UserTable → Bool
occupied u [] = false
occupied u (v ∷ vs) = shares_key u v || occupied u vs
