-- ===== src/BruteForce.antt =====
-- app/services/brute_force_protection.py: `class BruteForceProtection`, over any Redis server. The
-- loggers are left out.
pub mod Keys
pub mod Counts
pub mod Lockout
pub mod Climb
mod Tests
use codelab_auth_service.Common.{
  ℕ, ◌*◌, String, ◌<>◌, Bool, true, false, Option, none, some, [], ◌∷◌, leb, eqb, if◌then◌else◌,
}
use codelab_auth_service.Redis.Interface.{Redis}
use codelab_auth_service.Commands.{◌>>=◌, ◌>>◌, pure, or_else}
use codelab_auth_service.Settings.{Settings}

abbrev pub failed_username_key : String → String
failed_username_key username = "failed_attempts:username:" <> username

abbrev pub failed_ip_key : String → String
failed_ip_key ip_address = "failed_attempts:ip:" <> ip_address

-- `count and int(count) >= threshold`
abbrev pub reaches : Option ℕ → ℕ → Bool
reaches none threshold = false
reaches (some count) threshold = leb threshold count

abbrev pub username_reason : String → String
username_reason ttl = "Too many failed attempts. Try again in " <> (ttl <> " seconds.")

abbrev pub ip_reason : String → String
ip_reason ttl = "Too many failed attempts from this IP. Try again in " <> (ttl <> " seconds.")

module _ (r : Redis) (settings : Settings) where
  -- `if count == 1: await redis.expire(key, settings.brute_force_lockout_duration)`
  start_lockout : String → ℕ → r.State → Option (Unit {0}) × r.State
  start_lockout key count =
      if eqb count 1 then r.expire key settings.brute_force_lockout_duration else pure tt

  pub record_failed_attempt : String → String → r.State → Unit {0} × r.State
  unfolding start_lockout
  record_failed_attempt username ip_address s = or_else tt (
      (do
        username_count ← r.incr (failed_username_key username)
        ip_count ← r.incr (failed_ip_key ip_address)
        start_lockout (failed_username_key username) username_count
        start_lockout (failed_ip_key ip_address) ip_count)
        s)

  check_ip : String → r.State → Option (Bool × Option String) × r.State
  check_ip ip_address = do
    ip_count ← r.get (failed_ip_key ip_address)
    if reaches ip_count (settings.brute_force_threshold * 2)
        then (do ttl ← r.ttl (failed_ip_key ip_address); pure (true, some (ip_reason ttl)))
        else pure (false, none)

  unfoldable pub is_locked_out : String → String → r.State → (Bool × Option String) × r.State
  unfolding check_ip
  is_locked_out username ip_address s =
      or_else (false, none)
        ((do
          username_count ← r.get (failed_username_key username)
          if reaches username_count settings.brute_force_threshold
              then (do
                ttl ← r.ttl (failed_username_key username)
                pure (true, some (username_reason ttl)))
              else check_ip ip_address)
          s)

module _ (r : Redis) where
  pub reset_failed_attempts : String → String → r.State → Unit {0} × r.State
  reset_failed_attempts username ip_address s =
      or_else tt (r.delete (failed_username_key username ∷ failed_ip_key ip_address ∷ []) s)

  pub get_failed_attempts_count : String → r.State → ℕ × r.State
  get_failed_attempts_count username s = or_else 0 (
      (do count ← r.get (failed_username_key username); pure (elim count [ none ↦ 0 | some n ↦ n ]))
        s)
