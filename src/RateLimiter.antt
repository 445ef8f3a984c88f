-- ===== src/RateLimiter.antt =====
-- app/services/rate_limiter.py: `class RateLimiter`, over any Redis server. The loggers are left
-- out. A method returns its result and the server's state.
pub mod Window
pub mod Failure
mod Tests
use codelab_auth_service.Common.{
  ℕ, ◌-◌, String, ◌<>◌, Bool, true, false, Option, none, some, [], ◌∷◌, leb, eqb, if◌then◌else◌,
}
use codelab_auth_service.Redis.Interface.{Redis}
use codelab_auth_service.Settings.{Settings}

abbrev pub ip_key : String → String
ip_key ip_address = "rate_limit:ip:" <> ip_address

abbrev pub username_key : String → String
username_key username = "rate_limit:username:" <> username

-- `if limit is None: limit = …`
abbrev pub limit_or : Option ℕ → ℕ → ℕ
limit_or none default = default
limit_or (some limit) default = limit

module _ (r : Redis) where
  -- `if current == 1: await redis.expire(key, window)`
  start_window : String → ℕ → ℕ → r.State → Option (Unit {0}) × r.State
  start_window key window current s = if eqb current 1 then r.expire key window s else (some tt, s)

  -- The `try` block and its handler, which both checks share: fail open if a command raises.
  unfoldable pub check_key : String → ℕ → ℕ → r.State → (Bool × ℕ) × r.State
  unfolding start_window
  check_key key limit window s =
      let (reply, s1) = r.incr key s in
      elim reply [
        | none ↦ ((true, limit), s1)
        | some current ↦
            let (done, s2) = start_window key window current s1 in
            elim done [
              | none ↦ ((true, limit), s2)
              | some _ ↦ ((leb current limit, limit - current), s2)
            ]
      ]

  unfoldable pub check_rate_limit_ip :
      Settings → String → Option ℕ → ℕ → r.State → (Bool × ℕ) × r.State
  check_rate_limit_ip settings ip_address limit window s =
      check_key (ip_key ip_address) (limit_or limit settings.rate_limit_per_ip) window s

  unfoldable pub check_rate_limit_username :
      Settings → String → Option ℕ → ℕ → r.State → (Bool × ℕ) × r.State
  check_rate_limit_username settings username limit window s =
      check_key (username_key username) (limit_or limit settings.rate_limit_per_username) window s

  -- `none`: the command raised, and so does the method.
  pub reset_rate_limit_ip : String → r.State → Option (Unit {0}) × r.State
  reset_rate_limit_ip ip_address s = r.delete (ip_key ip_address ∷ []) s

  pub reset_rate_limit_username : String → r.State → Option (Unit {0}) × r.State
  reset_rate_limit_username username s = r.delete (username_key username ∷ []) s
