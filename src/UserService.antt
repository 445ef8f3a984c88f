-- ===== src/UserService.antt =====
-- app/services/user_service.py: `class UserService`. A result is `none` where the method raises.
-- bcrypt, `hash_password` and `verify_password` of app/utils/crypto.py, is a parameter; its test
-- raises, here `none`, on a text that is not a hash. The table is the list of its rows.
pub mod Keys
pub mod Lookups
pub mod Calls
pub mod Named
pub mod Login
mod Tests
use codelab_auth_service.Common.{
  ℕ, String, ◌<>◌, Bool, true, false, not, ◌&&◌, ◌||◌, Option, none, some, List, [], ◌∷◌, ◌++◌,
  select, scalar_one_or_none, ◌==◌, if◌then◌else◌,
}
use codelab_auth_service.Commands.{◌>>=◌, pure}
use codelab_auth_service.Settings.{Settings}
use codelab_auth_service.User.{User, UserTable, UserCreate, UserUpdate, shares_key, occupied}

unfoldable pub get_by_id : String → UserTable → Option (Option User) × UserTable
get_by_id user_id users = (scalar_one_or_none (select (λ u. u.id == user_id) users), users)

unfoldable pub get_by_username : String → UserTable → Option (Option User) × UserTable
get_by_username username users =
    (scalar_one_or_none (select (λ u. u.username == username) users), users)

unfoldable pub get_by_email : String → UserTable → Option (Option User) × UserTable
get_by_email email users = (scalar_one_or_none (select (λ u. u.email == email) users), users)

-- The row that a creation makes, `id` being the drawn primary key.
abbrev pub new_user : (String → String) → UserCreate → Bool → String → (ℕ → ℕ) → User
new_user hash user_data email_confirmed id clock = record {
  id = id;
  username = user_data.username;
  email = user_data.email;
  password_hash = hash user_data.password;
  is_active = true;
  is_verified = false;
  email_confirmed = email_confirmed;
  created_at = clock 0;
  updated_at = clock 1;
  last_login_at = none;
  is_deleted = false;
  deleted_at = none;
  deletion_reason = none;
}

-- `db.add(user)` and the commit, which raises on a value that a unique column holds already.
pub add_user : User → UserTable → Option User × UserTable
add_user u users = if occupied u users then (none, users) else (some u, users ++ (u ∷ []))

-- Where a lookup has found a user the method raises; else it goes on.
pub unless_found :
    Option User → (UserTable → Option User × UserTable) → UserTable → Option User × UserTable
unless_found (some u) next users = (none, users)
unless_found none next users = next users

pub create_user :
    (String → String) → UserCreate → String → (ℕ → ℕ) → UserTable → Option User × UserTable
unfolding get_by_username get_by_email add_user unless_found
create_user hash user_data id clock = do
  existing_user ← get_by_username user_data.username
  unless_found existing_user (do
    existing_email ← get_by_email user_data.email
    unless_found existing_email (add_user (new_user hash user_data false id clock)))

-- What `register_user` comes to: the user, a ValueError with its text, the RuntimeError that it
-- makes of an error of the commit, or the exception of a lookup. `RegisterEndpoint` has the text of
-- the RuntimeError.
pub data Registration : Type 0 where
  registered : User → Registration
  value_error : String → Registration
  integrity_error : Registration
  raised : Registration

-- The commit, with its rollback.
abbrev pub commit_user : User → UserTable → Registration × UserTable
commit_user u users =
    if occupied u users then (integrity_error, users) else (registered u, users ++ u ∷ [])

-- After the lookup of the user name.
abbrev pub if_name_free : Option (Option User) → User → UserTable → Registration × UserTable
if_name_free none u users = (raised, users)
if_name_free (some (some existing)) u users = (value_error "Username already taken", users)
if_name_free (some none) u users = commit_user u users

-- After the lookup of the address.
abbrev pub if_email_free : Option (Option User) → User → UserTable → Registration × UserTable
if_email_free none u users = (raised, users)
if_email_free (some (some existing)) u users = (value_error "Email already registered", users)
if_email_free (some none) u users = if_name_free (get_by_username u.username users).0 u users

unfoldable pub register_user :
    Settings
    → (String → String)
    → UserCreate
    → String
    → (ℕ → ℕ)
    → UserTable
    → Registration × UserTable
unfolding get_by_username get_by_email
register_user settings hash user_data id clock users =
    if_email_free (get_by_email user_data.email users).0
      (new_user hash user_data (not settings.require_email_confirmation) id clock) users

-- An object's new values in the row of its primary key.
unfoldable pub write_row : User → UserTable → UserTable
write_row u [] = []
write_row u (v ∷ vs) = (if v.id == u.id then u else v) ∷ write_row u vs

-- Another row holds a value that a unique column would take from `u`.
unfoldable pub conflicts : User → UserTable → Bool
conflicts u [] = false
conflicts u (v ∷ vs) = (not (v.id == u.id) && shares_key u v) || conflicts u vs

-- The commit of a changed object.
unfoldable pub store_user : User → UserTable → Option User × UserTable
store_user u users = if conflicts u users then (none, users) else (some u, write_row u users)

-- `if not user: user = await self.get_by_email(db, username)`
unfoldable pub or_by_email : String → Option User → UserTable → Option (Option User) × UserTable
unfolding get_by_email
or_by_email username (some u) users = (some (some u), users)
or_by_email username none users = get_by_email username users

module _ (settings : Settings) (verify : String → String → Option Bool) where
  -- The tests of a user that was found: `none` where the password's test raises.
  unfoldable pub admits : String → User → Option Bool
  admits password u =
      if not u.is_active
      then some false
      else if settings.require_email_confirmation && not u.email_confirmed
      then some false
      else verify password u.password_hash

  -- What `authenticate` does with the user that it has found; `updated_at` is set by the column's
  -- `onupdate`.
  unfoldable pub log_in :
      (ℕ → ℕ) → String → Option User → UserTable → Option (Option User) × UserTable
  unfolding admits store_user
  log_in clock password none users = (some none, users)
  log_in clock password (some u) users = elim (admits password u) [
    | none ↦ (none, users)
    | some false ↦ (some none, users)
    | some true ↦
        (do
          stored ← store_user (record u { last_login_at = some (clock 0); updated_at = clock 1 })
          pure (some stored))
          users
  ]

  unfoldable pub authenticate :
      (ℕ → ℕ) → String → String → UserTable → Option (Option User) × UserTable
  unfolding get_by_username or_by_email log_in
  authenticate clock username password = do
    by_name ← get_by_username username
    user ← or_by_email username by_name
    log_in clock password user

-- `if value is not None: field = value`
abbrev pub or_keep {ℓ} : {A : Type ℓ} → Option A → A → A
or_keep none old = old
or_keep (some new) old = new

abbrev pub updated : (String → String) → UserUpdate → ℕ → User → User
updated hash user_data now u = record u {
  username = or_keep user_data.username u.username;
  email = or_keep user_data.email u.email;
  password_hash = elim user_data.password [ none ↦ u.password_hash | some p ↦ hash p ];
  is_active = or_keep user_data.is_active u.is_active;
  is_verified = or_keep user_data.is_verified u.is_verified;
  updated_at = now;
}

-- What `update_user` does with the user that it has found.
pub apply_update :
    (String → String) → UserUpdate → ℕ → Option User → UserTable → Option (Option User) × UserTable
unfolding store_user
apply_update hash user_data now none users = (some none, users)
apply_update hash user_data now (some u) users =
    (do stored ← store_user (updated hash user_data now u); pure (some stored)) users

pub update_user :
    (String → String) → String → UserUpdate → ℕ → UserTable → Option (Option User) × UserTable
unfolding get_by_id apply_update
update_user hash user_id user_data now = do
  user ← get_by_id user_id
  apply_update hash user_data now user

unfoldable pub remove_row : User → UserTable → UserTable
remove_row u [] = []
remove_row u (v ∷ vs) = let rest = remove_row u vs in if v.id == u.id then rest else v ∷ rest

-- What `delete_user` does with the user that it has found.
pub delete_found : Option User → UserTable → Option Bool × UserTable
delete_found none users = (some false, users)
delete_found (some u) users = (some true, remove_row u users)

pub delete_user : String → UserTable → Option Bool × UserTable
unfolding get_by_id delete_found
delete_user user_id = do user ← get_by_id user_id; delete_found user
