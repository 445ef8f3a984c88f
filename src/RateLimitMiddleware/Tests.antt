-- ===== src/RateLimitMiddleware/Tests.antt =====
-- Runs of the middleware on the server in memory, before an application that counts its calls.
use codelab_auth_service.Common.{ℕ, ◌+◌, String, ◌≡◌, refl, Option, none, some, List, [], ◌∷◌}
use codelab_auth_service.Redis.Memory.{memory, memory-IsLawful, fresh}
use codelab_auth_service.Settings.{Settings, default_settings}
use codelab_auth_service.RateLimiter.{check_rate_limit_ip, check_key}
use codelab_auth_service.RateLimitMiddleware.{
  Request, Response, State, get_client_ip, exempt, dispatch, annotate, too_many_requests,
}
use codelab_auth_service.RateLimitMiddleware.Quota.{IsQuiet, handle, after_check, quota_enforced}

abbrev one_request : Settings
one_request = record default_settings { rate_limit_per_ip = 1 }

abbrev accepted : Response
accepted = record { status = 200; headers = []; content = "{}" }

abbrev call_next : Request → State memory ℕ → Option Response × State memory ℕ
call_next q (s, n) = (some accepted, (s, n + 1))

call_next-IsQuiet : IsQuiet memory ℕ one_request call_next
call_next-IsQuiet = record { keeps_up = λ q s up. up; keeps_counters = λ q s ip up. refl }

abbrev from : String → String → Request
from address path = record {
  path = path;
  forwarded_for = some address;
  real_ip = none;
  client_host = some "172.16.0.1";
}

first_hop : get_client_ip (from " 10.0.0.1 , 192.168.0.7" "/api/v1/sessions") ≡ "10.0.0.1"
unfolding get_client_ip
first_hop = refl

abbrev earlier : List Request
earlier =
    from "10.0.0.2" "/api/v1/sessions"
    ∷ from "10.0.0.1" "/health"
    ∷ from "10.0.0.1,192.168.0.7" "/api/v1/sessions"
    ∷ []

abbrev last : Request
last = from "10.0.0.1" "/api/v1/oauth/token"

quota_enforced_example :
    dispatch memory ℕ one_request call_next last
      (handle memory ℕ one_request call_next earlier (fresh, 0))
    ≡ (
      some (too_many_requests 1 0 60),
      after_check memory ℕ one_request call_next "10.0.0.1"
          (handle memory ℕ one_request call_next earlier (fresh, 0)),
    )
unfolding get_client_ip exempt
quota_enforced_example =
    quota_enforced memory ℕ one_request call_next memory-IsLawful call_next-IsQuiet earlier last
      (fresh, 0) refl refl refl

served_first :
    (dispatch memory ℕ one_request call_next last (fresh, 0)).0 ≡ some (annotate 1 0 accepted)
unfolding dispatch check_rate_limit_ip check_key
served_first = refl
