-- ===== src/RateLimiter/Tests.antt =====
-- Runs of the rate limiter on the server in memory, and its theorems at concrete data.
use codelab_auth_service.Common.{◌≡◌, refl, true, false, none, [], ◌∷◌, arith}
use codelab_auth_service.Redis.Memory.{Cells, memory, memory-IsLawful, fresh}
use codelab_auth_service.Settings.{default_settings}
use codelab_auth_service.RateLimiter.{check_key, check_rate_limit_ip, ip_key}
use codelab_auth_service.RateLimiter.Window.{History, serve, window_quota, window_reopens}
use codelab_auth_service.RateLimiter.Failure.{stuck_counter_blocks}

abbrev burst : History
burst = ("10.0.0.1", 1) ∷ ("10.0.0.2", 5) ∷ ("10.0.0.1", 0) ∷ ("10.0.0.1", 50) ∷ []

abbrev down : Cells
down = record { cell = λ k. none; reachable = false }

sixth_refused :
    (check_rate_limit_ip memory default_settings "10.0.0.1" none 60 (
      serve memory default_settings none 60
        (("10.0.0.1", 1)
          ∷ ("10.0.0.1", 1)
          ∷ ("10.0.0.1", 1)
          ∷ ("10.0.0.1", 1)
          ∷ ("10.0.0.1", 1)
          ∷ [])
        fresh)).0
    ≡ (false, 0)
unfolding check_rate_limit_ip serve check_key
sixth_refused = refl

window_quota_example :
    (check_rate_limit_ip memory default_settings "10.0.0.1" none 60
      (serve memory default_settings none 60 burst fresh)).0
    ≡ (true, 1)
window_quota_example =
    window_quota memory memory-IsLawful default_settings none 60 "10.0.0.1" burst fresh refl
      (omega arith) refl (omega arith)

window_reopens_example :
    (check_rate_limit_ip memory default_settings "10.0.0.1" none 60
      (memory.wait 10 (serve memory default_settings none 60 (("10.0.0.1", 0) ∷ burst) fresh))).0
    ≡ (true, 4)
window_reopens_example =
    window_reopens memory memory-IsLawful default_settings none 60 "10.0.0.1" burst 10 fresh refl
      refl (omega arith) (omega arith)

stuck_counter_blocks_example :
    (check_rate_limit_ip memory default_settings "10.0.0.1" none 60 (
      serve memory default_settings none 60
        (("10.0.0.1", 1)
          ∷ ("10.0.0.1", 1)
          ∷ ("10.0.0.2", 1)
          ∷ ("10.0.0.1", 1)
          ∷ ("10.0.0.1", 100000)
          ∷ [])
        (memory.incr (ip_key "10.0.0.1") fresh).1)).0
    ≡ (false, 0)
stuck_counter_blocks_example =
    stuck_counter_blocks memory memory-IsLawful default_settings none 60 "10.0.0.1"
      (("10.0.0.1", 1)
        ∷ ("10.0.0.1", 1)
        ∷ ("10.0.0.2", 1)
        ∷ ("10.0.0.1", 1)
        ∷ ("10.0.0.1", 100000)
        ∷ [])
      fresh refl (omega arith) refl (omega arith)
