-- ===== src/UserService/Login.antt =====
-- `authenticate`: whom it lets in.
use codelab_auth_service.Common.{
  ℕ, String, ◌≡◌, ◌↔◌, ◌⊎◌, refl, sym, ◌∙◌, ap, Bool, Bool-cases, inl, inr, true, false, Option,
  Option-cases, none, some, arith, select, scalar_one_or_none,
}
use codelab_auth_service.Commands.{◌>>=◌, pure, >>=-reply, >>=-raise}
use codelab_auth_service.Settings.{Settings}
use codelab_auth_service.User.{User, UserTable}
use codelab_auth_service.UserService.{
  conflicts, store_user, write_row, log_in, or_by_email, authenticate, get_by_username,
  get_by_email, admits,
}
use codelab_auth_service.UserService.Keys.{IsUnique}
use codelab_auth_service.UserService.Named.{
  has_username, has_email, prefer, named, logged_in, named-In, conflicts-In, conflicts-logged_in,
}

module _ (settings : Settings) (verify : String → String → Option Bool) where
  module _ (clock : ℕ → ℕ) (name password : String) (users : UserTable) where
    by_name_raises :
        scalar_one_or_none (select (has_username name) users) ≡ none
        → authenticate settings verify clock name password users ≡ (none, users)
    unfolding authenticate
    by_name_raises e =
        >>=-raise (get_by_username name)
          (λ n. or_by_email name n >>= log_in settings verify clock password) users users
          (unfold get_by_username in rw e refl)

    by_name_replies :
        (n : Option User)
        → scalar_one_or_none (select (has_username name) users) ≡ some n
        → authenticate settings verify clock name password users
          ≡ (or_by_email name n >>= log_in settings verify clock password) users
    unfolding authenticate
    by_name_replies n e =
        >>=-reply (get_by_username name)
          (λ m. or_by_email name m >>= log_in settings verify clock password) users users n
          (unfold get_by_username in rw e refl)

    -- What `authenticate` does with what the name stands for.
    entered : Option (Option User) → Option (Option User) × UserTable
    entered none = (none, users)
    entered (some found) = log_in settings verify clock password found users

    authenticate-named :
        authenticate settings verify clock name password users ≡ entered (named name users)
    unfolding named entered
    authenticate-named =
        let preferred = λ (o : Option (Option User)).
          prefer o (scalar_one_or_none (select (has_email name) users)) in
        elim (Option-cases (scalar_one_or_none (select (has_username name) users))) [
          | inl raised ↦ by_name_raises raised ∙ sym (ap entered (ap preferred raised))
          | inr (some v, by_name) ↦
              by_name_replies (some v) by_name
              ∙ >>=-reply (or_by_email name (some v)) (log_in settings verify clock password) users
                  users (some v) (unfold or_by_email in refl)
              ∙ sym (ap entered (ap preferred by_name))
          | inr (none, by_name) ↦
              by_name_replies none by_name
              ∙ elim (Option-cases (scalar_one_or_none (select (has_email name) users))) [
                | inl raised ↦
                    >>=-raise (or_by_email name none) (log_in settings verify clock password) users
                      users (unfold or_by_email get_by_email in rw raised refl)
                    ∙ sym (ap entered (ap preferred by_name ∙ raised))
                | inr (w, by_email) ↦
                    >>=-reply (or_by_email name none) (log_in settings verify clock password) users
                      users w (unfold or_by_email get_by_email in rw by_email refl)
                    ∙ sym (ap entered (ap preferred by_name ∙ by_email))
              ]
        ]

  -- What a user must pass.
  abbrev pub IsAdmitted : String → User → Type 0
  IsAdmitted password u =
      (u.is_active ≡ true)
      × ((settings.require_email_confirmation ≡ false) ⊎ (u.email_confirmed ≡ true))
      × (verify password u.password_hash ≡ some true)

  admits_iff :
      (password : String) (u : User)
      → (admits settings verify password u ≡ some true) ↔ IsAdmitted password u
  unfolding admits
  admits_iff password u = (
    λ h. (
      ground arith,
      elim (Bool-cases u.email_confirmed) [ inl e ↦ inr e | inr e ↦ inl (ground arith) ],
      ground arith,
    ),
    λ h. ground arith,
  )

  decided :
      (decision : Option Bool) (m : UserTable → Option (Option User) × UserTable)
      (users : UserTable) (u' : User)
      → ((elim decision as (λ _. Option (Option User) × UserTable) [
        | none ↦ (none, users)
        | some false ↦ (some none, users)
        | some true ↦ m users
      ]).0
          ≡ some (some u'))
        ↔ ((decision ≡ some true) × ((m users).0 ≡ some (some u')))
  decided none m users u' = (λ h. cc h, λ h. cc (h.0))
  decided (some false) m users u' = (λ h. cc h, λ h. cc (h.0))
  decided (some true) m users u' = (λ h. (refl, h), λ h. h.1)

  stored :
      (u : User) (users : UserTable)
      → conflicts u users ≡ false
      → ((store_user u >>= λ stored. pure (some stored)) users).0 ≡ some (some u)
  stored u users free =
      ap (λ (r : Option (Option User) × UserTable). r.0)
        (>>=-reply (store_user u) (λ saved. pure (some saved)) users (write_row u users) u
          (unfold store_user in rw free refl))

  log_in_iff :
      (clock : ℕ → ℕ) (password : String) (found : Option User) (users : UserTable) (u' : User)
      → ((u : User) → found ≡ some u → conflicts (logged_in clock u) users ≡ false)
      → ((log_in settings verify clock password found users).0 ≡ some (some u'))
        ↔ ((u : User) × (found ≡ some u) × IsAdmitted password u × (u' ≡ logged_in clock u))
  unfolding log_in
  log_in_iff clock password none users u' free = (λ h. cc h, λ h. cc (h.1))
  log_in_iff clock password (some u) users u' free =
      let u1 = logged_in clock u in
      let save = store_user u1 >>= λ stored. pure (some stored) in
      let (forth, back) = decided (admits settings verify password u) save users u' in
      let saved = stored u1 users (free u refl) in
      (
        λ h. let (ok, is) = forth h in (u, refl, (admits_iff password u).0 ok, cc (is, saved)),
        λ (v, same, ok, is). back (cc ((admits_iff password v).1 ok, same), saved ∙ cc (is, same)),
      )

  -- On a table with unique columns: a login succeeds exactly if the name is the user name of one
  -- row, or of none and the address of one, this user is active, has a confirmed address where the
  -- settings ask for one, and the password agrees with the hash; the user that is returned is this
  -- row with the two times of the login.
  pub authenticate_iff :
      (clock : ℕ → ℕ) (name password : String) (users : UserTable) (u' : User)
      → IsUnique users
      → ((authenticate settings verify clock name password users).0 ≡ some (some u')) ↔ (
          (u : User) × (named name users ≡ some (some u))
          × IsAdmitted password u
          × (u' ≡ logged_in clock u))
  authenticate_iff clock name password users u' k = elim (Option-cases (named name users)) [
    | inl e ↦
        rw (authenticate-named clock name password users, e)
          (unfold entered in (λ h. cc h, λ h. cc (h.1)))
    | inr (found, e) ↦
        let (forth, back) = log_in_iff clock password found users u' (λ u is.
          conflicts-logged_in clock u users
          ∙ conflicts-In u users (named-In name users u (e ∙ ap some is)) k) in
        rw (authenticate-named clock name password users, e)
          (unfold entered in
            (
              λ h. let (u, is, rest, same) = forth h in (u, ap some is, rest, same),
              λ (u, is, rest, same). back (u, cc is, rest, same),
            ))
  ]
