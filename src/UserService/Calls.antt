-- ===== src/UserService/Calls.antt =====
-- Every operation of the service keeps the columns of the table of users unique.
use codelab_auth_service.Common.{
  ℕ, String, Bool, Bool-cases, inl, inr, true, false, not, Option, none, some,
}
use codelab_auth_service.Commands.{◌>>=◌, pure, Keeps, >>=-Keeps}
use codelab_auth_service.Settings.{Settings}
use codelab_auth_service.User.{User, UserTable, UserCreate, UserUpdate, occupied}
use codelab_auth_service.UserService.{
  commit_user, if_name_free, if_email_free, add_user, unless_found, create_user, register_user,
  store_user, log_in, or_by_email, authenticate, apply_update, update_user, delete_found,
  delete_user, get_by_id, get_by_username, get_by_email, admits, updated, new_user,
}
use codelab_auth_service.UserService.Keys.{
  IsUnique, append-IsUnique, add_user-IsUnique, store_user-IsUnique, remove_row-IsUnique,
}

get_by_id-Keeps : (user_id : String) → Keeps IsUnique (get_by_id user_id)
unfolding get_by_id
get_by_id-Keeps user_id users k = k

get_by_username-Keeps : (username : String) → Keeps IsUnique (get_by_username username)
unfolding get_by_username
get_by_username-Keeps username users k = k

get_by_email-Keeps : (email : String) → Keeps IsUnique (get_by_email email)
unfolding get_by_email
get_by_email-Keeps email users k = k

unless_found-Keeps :
    (found : Option User) (next : UserTable → Option User × UserTable)
    → Keeps IsUnique next
    → Keeps IsUnique (unless_found found next)
unfolding unless_found
unless_found-Keeps none next kn users k = kn users k
unless_found-Keeps (some u) next kn users k = k

stored-Keeps : (u : User) → Keeps IsUnique (store_user u >>= λ stored. pure (some stored))
stored-Keeps u =
    >>=-Keeps IsUnique (λ stored. pure (some stored)) (λ stored users k. k) (store_user u)
      (store_user-IsUnique u)

decided-Keeps :
    (decision : Option Bool) (m : UserTable → Option (Option User) × UserTable)
    → Keeps IsUnique m
    → Keeps {A = Option User} IsUnique (λ users.
      elim decision as (λ _. Option (Option User) × UserTable) [
        | none ↦ (none, users)
        | some false ↦ (some none, users)
        | some true ↦ m users
      ])
decided-Keeps none m km users k = k
decided-Keeps (some false) m km users k = k
decided-Keeps (some true) m km users k = km users k

or_by_email-IsUnique :
    (username : String) (found : Option User) → Keeps IsUnique (or_by_email username found)
unfolding or_by_email get_by_email
or_by_email-IsUnique username none users k = k
or_by_email-IsUnique username (some u) users k = k

delete_found-IsUnique : (found : Option User) → Keeps IsUnique (delete_found found)
unfolding delete_found
delete_found-IsUnique none users k = k
delete_found-IsUnique (some u) users k = remove_row-IsUnique u users k

commit_user-IsUnique :
    (u : User) (users : UserTable) → IsUnique users → IsUnique (commit_user u users).1
commit_user-IsUnique u users k = elim (Bool-cases (occupied u users)) [
  | inl taken ↦ rw taken k
  | inr free ↦ rw free (append-IsUnique u users free k)
]

if_name_free-IsUnique :
    (found : Option (Option User)) (u : User) (users : UserTable)
    → IsUnique users
    → IsUnique (if_name_free found u users).1
if_name_free-IsUnique none u users k = k
if_name_free-IsUnique (some (some v)) u users k = k
if_name_free-IsUnique (some none) u users k = commit_user-IsUnique u users k

if_email_free-IsUnique :
    (found : Option (Option User)) (u : User) (users : UserTable)
    → IsUnique users
    → IsUnique (if_email_free found u users).1
if_email_free-IsUnique none u users k = k
if_email_free-IsUnique (some (some v)) u users k = k
if_email_free-IsUnique (some none) u users k =
    if_name_free-IsUnique (get_by_username u.username users).0 u users k

-- A call of the service that may write.
data UserCall : Type 0 where
  create register : UserCreate → String → (ℕ → ℕ) → UserCall
  login : (ℕ → ℕ) → String → String → UserCall
  update : String → UserUpdate → ℕ → UserCall
  remove : String → UserCall

module _ (settings : Settings) (hash : String → String)
    (verify : String → String → Option Bool) where
  perform : UserCall → UserTable → UserTable
  perform (UserCall.create user_data id clock) users = (create_user hash user_data id clock users).1
  perform (UserCall.register user_data id clock) users =
      (register_user settings hash user_data id clock users).1
  perform (UserCall.login clock username password) users =
      (authenticate settings verify clock username password users).1
  perform (UserCall.update user_id user_data now) users =
      (update_user hash user_id user_data now users).1
  perform (UserCall.remove user_id) users = (delete_user user_id users).1

  log_in-IsUnique :
      (clock : ℕ → ℕ) (password : String) (found : Option User)
      → Keeps IsUnique (log_in settings verify clock password found)
  unfolding log_in
  log_in-IsUnique clock password none users k = k
  log_in-IsUnique clock password (some u) users k =
      let u' = record u { last_login_at = some (clock 0); updated_at = clock 1 } in
      decided-Keeps (admits settings verify password u)
        (store_user u' >>= λ stored. pure (some stored)) (stored-Keeps u') users k

  create_user-IsUnique :
      (user_data : UserCreate) (id : String) (clock : ℕ → ℕ)
      → Keeps IsUnique (create_user hash user_data id clock)
  unfolding create_user
  create_user-IsUnique user_data id clock =
      let u = new_user hash user_data false id clock in
      let next = λ (found : Option User). unless_found found (add_user u) in
      let rest = get_by_email user_data.email >>= next in
      >>=-Keeps IsUnique (λ found. unless_found found rest)
        (λ found. unless_found-Keeps found rest (
          >>=-Keeps IsUnique next
            (λ found'. unless_found-Keeps found' (add_user u) (add_user-IsUnique u))
            (get_by_email user_data.email) (get_by_email-Keeps user_data.email)))
        (get_by_username user_data.username) (get_by_username-Keeps user_data.username)

  register_user-IsUnique :
      (user_data : UserCreate) (id : String) (clock : ℕ → ℕ) (users : UserTable)
      → IsUnique users
      → IsUnique (register_user settings hash user_data id clock users).1
  unfolding register_user
  register_user-IsUnique user_data id clock users k =
      let u = new_user hash user_data (not settings.require_email_confirmation) id clock in
      if_email_free-IsUnique (get_by_email user_data.email users).0 u users k

  authenticate-IsUnique :
      (clock : ℕ → ℕ) (username password : String)
      → Keeps IsUnique (authenticate settings verify clock username password)
  unfolding authenticate
  authenticate-IsUnique clock username password =
      let enter = log_in settings verify clock password in
      >>=-Keeps IsUnique (λ by_name. or_by_email username by_name >>= enter)
        (λ by_name.
          >>=-Keeps IsUnique enter (log_in-IsUnique clock password) (or_by_email username by_name)
            (or_by_email-IsUnique username by_name))
        (get_by_username username) (get_by_username-Keeps username)

  apply_update-IsUnique :
      (user_data : UserUpdate) (now : ℕ) (found : Option User)
      → Keeps IsUnique (apply_update hash user_data now found)
  unfolding apply_update
  apply_update-IsUnique user_data now none users k = k
  apply_update-IsUnique user_data now (some u) users k =
      stored-Keeps (updated hash user_data now u) users k

  update_user-IsUnique :
      (user_id : String) (user_data : UserUpdate) (now : ℕ)
      → Keeps IsUnique (update_user hash user_id user_data now)
  unfolding update_user
  update_user-IsUnique user_id user_data now =
      >>=-Keeps IsUnique (apply_update hash user_data now) (apply_update-IsUnique user_data now)
        (get_by_id user_id) (get_by_id-Keeps user_id)

  delete_user-IsUnique : (user_id : String) → Keeps IsUnique (delete_user user_id)
  unfolding delete_user
  delete_user-IsUnique user_id =
      >>=-Keeps IsUnique delete_found delete_found-IsUnique (get_by_id user_id)
        (get_by_id-Keeps user_id)

  -- Every call of the service, whatever its arguments and whether it returns or raises, keeps the
  -- identifiers, the user names and the addresses of the table unique.
  perform-IsUnique :
      (call : UserCall) (users : UserTable) → IsUnique users → IsUnique (perform call users)
  unfolding perform
  perform-IsUnique (UserCall.create user_data id clock) users k =
      create_user-IsUnique user_data id clock users k
  perform-IsUnique (UserCall.register user_data id clock) users k =
      register_user-IsUnique user_data id clock users k
  perform-IsUnique (UserCall.login clock username password) users k =
      authenticate-IsUnique clock username password users k
  perform-IsUnique (UserCall.update user_id user_data now) users k =
      update_user-IsUnique user_id user_data now users k
  perform-IsUnique (UserCall.remove user_id) users k = delete_user-IsUnique user_id users k
