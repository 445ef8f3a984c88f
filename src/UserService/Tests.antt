-- ===== src/UserService/Tests.antt =====
-- The theorems on the user service at concrete data.
use codelab_auth_service.Common.{ℕ, String, ◌≡◌, ◌↔◌, refl, Bool, Option, some, ◌==◌}
use codelab_auth_service.Settings.{default_settings}
use codelab_auth_service.User.{User, occupied}
use codelab_auth_service.User.Examples.{ann, users}
use codelab_auth_service.UserService.{authenticate}
use codelab_auth_service.UserService.Keys.{IsUnique}
use codelab_auth_service.UserService.Login.{IsAdmitted, authenticate_iff}
use codelab_auth_service.UserService.Named.{named, logged_in}

abbrev plain_hash : String → String
plain_hash s = s

abbrev plain_verify : String → String → Option Bool
plain_verify s h = some (s == h)

abbrev ticks : ℕ → ℕ
ticks i = i

users-IsUnique : IsUnique users
unfolding occupied
users-IsUnique = (refl, (refl, tt))

authenticate_iff_example :
    ((authenticate default_settings plain_verify ticks "ann@example.org" "secret-a" users).0
      ≡ some (some (logged_in ticks ann)))
    ↔ ((u : User) × (named "ann@example.org" users ≡ some (some u))
        × IsAdmitted default_settings plain_verify "secret-a" u
        × (logged_in ticks ann ≡ logged_in ticks u))
authenticate_iff_example =
    authenticate_iff default_settings plain_verify ticks "ann@example.org" "secret-a" users
      (logged_in ticks ann) users-IsUnique
