-- ===== src/BruteForce/Tests.antt =====
-- Runs of the brute-force protection on the server in memory, and its theorems at concrete data.
use codelab_auth_service.Common.{◌≡◌, refl, true, none, some, [], ◌∷◌, arith, ◌==◌, if◌then◌else◌}
use codelab_auth_service.Redis.Memory.{Cells, memory, memory-IsLawful, fresh}
use codelab_auth_service.Settings.{default_settings}
use codelab_auth_service.BruteForce.{is_locked_out, record_failed_attempt, failed_username_key}
use codelab_auth_service.BruteForce.Keys.{Failures}
use codelab_auth_service.BruteForce.Counts.{record_all}
use codelab_auth_service.BruteForce.Lockout.{locked_out_iff}

abbrev failures : Failures
failures =
    ("eve", "10.0.0.1", 1)
    ∷ ("eve", "10.0.0.2", 1)
    ∷ ("eve", "10.0.0.1", 1)
    ∷ ("bob", "10.0.0.1", 1)
    ∷ ("eve", "10.0.0.3", 1)
    ∷ ("eve", "10.0.0.1", 1)
    ∷ []

fifth_failure_locks :
    (is_locked_out memory default_settings "eve" "10.0.0.9"
      (record_all memory default_settings failures fresh)).0.0
    ≡ true
unfolding record_all record_failed_attempt is_locked_out
fifth_failure_locks = refl

locked_out_iff_example :
    (is_locked_out memory default_settings "eve" "10.0.0.1"
      (record_all memory default_settings failures fresh)).0.0
    ≡ true
locked_out_iff_example =
    locked_out_iff memory memory-IsLawful default_settings "eve" "10.0.0.1" failures fresh refl
      (omega arith) (omega arith) refl refl (omega arith)

abbrev five_failures : Cells
five_failures = record {
  cell = λ k.
      if failed_username_key "eve" == k then some (record { count = 5; ttl = some 100 }) else none;
  reachable = true;
}

five_failures_lock :
    (is_locked_out memory default_settings "eve" "10.0.0.1" five_failures).0.0 ≡ true
unfolding is_locked_out
five_failures_lock = refl
