-- ===== src/User/Examples.antt =====
-- Two users, of whom one has not confirmed the address, for concrete runs.
use codelab_auth_service.Common.{true, false, none, [], ◌∷◌}
use codelab_auth_service.User.{User, UserTable}

abbrev pub ann : User
ann = record {
  id = "ann";
  username = "ann";
  email = "ann@example.org";
  password_hash = "secret-a";
  is_active = true;
  is_verified = false;
  email_confirmed = true;
  created_at = 1;
  updated_at = 1;
  last_login_at = none;
  is_deleted = false;
  deleted_at = none;
  deletion_reason = none;
}

abbrev pub bob : User
bob = record ann {
  id = "bob";
  username = "bob";
  email = "bob@example.org";
  password_hash = "secret-b";
  email_confirmed = false;
}

abbrev pub users : UserTable
users = ann ∷ bob ∷ []
