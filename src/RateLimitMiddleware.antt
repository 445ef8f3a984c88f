-- ===== src/RateLimitMiddleware.antt =====
-- app/middleware/rate_limit.py: `class RateLimitMiddleware`, over any Redis server and any
-- application behind it. The loggers are left out. The application and the rate limiter work on one
-- state, the server's and the application's own; `none` is an exception of the application.
pub mod Quota
mod Tests
use codelab_auth_service.Common.{
  ℕ, String, Bool, true, false, ◌&&◌, ◌||◌, not, Option, none, some, List, [], ◌∷◌, truthy, ◌==◌,
  if◌then◌else◌,
}
use codelab_auth_service.Commands.{◌>>=◌, pure}
use codelab_auth_service.Redis.Interface.{Redis}
use codelab_auth_service.Settings.{Settings, is_development}
use codelab_auth_service.Text.{contains}
use codelab_auth_service.Text.Chars.{before_comma, strip}
use codelab_auth_service.RateLimiter.{check_rate_limit_ip}

-- What the middleware reads of a request: the path, two headers, and the peer's host.
pub record Request : Type 0 where
  pub path : String
  pub forwarded_for : Option String
  pub real_ip : Option String
  pub client_host : Option String

-- The names of the headers are in lower case; a header that the middleware sets holds a number, in
-- decimal.
pub record Response : Type 0 where
  pub status : ℕ
  pub headers : List (String × ℕ)
  pub content : String

abbrev pub public_paths : List String
public_paths = "/health" ∷ "/docs" ∷ "/openapi.json" ∷ "/redoc" ∷ "/.well-known/jwks.json" ∷ []

abbrev pub or_unknown : Option String → String
or_unknown none = "unknown"
or_unknown (some host) = host

-- The address without `X-Forwarded-For`: the header `X-Real-IP` if it is there and not empty.
direct_ip : Request → String
direct_ip request = elim request.real_ip [
  | none ↦ or_unknown request.client_host
  | some ip ↦ if ip == "" then or_unknown request.client_host else ip
]

unfoldable pub get_client_ip : Request → String
unfolding direct_ip strip before_comma
get_client_ip request = elim request.forwarded_for [
  | none ↦ direct_ip request
  | some text ↦ if text == "" then direct_ip request else strip (before_comma text)
]

abbrev pub local_addresses : List String
local_addresses = "127.0.0.1" ∷ "localhost" ∷ "::1" ∷ []

-- The three early returns of `dispatch`: the request goes on without a limit.
unfoldable pub exempt : Settings → Request → Bool
unfolding get_client_ip is_development contains
exempt settings request =
    not settings.enable_rate_limiting
    || (contains public_paths request.path
        || (is_development settings && contains local_addresses (get_client_ip request)))

-- `response.headers[name] = value`, of a name in lower case, as Starlette keeps the names of a
-- response: the first header of the name is replaced and the others are removed; where there is none
-- it is added at the end.
unfoldable pub without_header : String → List (String × ℕ) → List (String × ℕ)
without_header name [] = []
without_header name ((n, v) ∷ rest) =
    let rest' = without_header name rest in if n == name then rest' else (n, v) ∷ rest'

unfoldable pub set_header : String → ℕ → List (String × ℕ) → List (String × ℕ)
unfolding without_header
set_header name value [] = (name, value) ∷ []
set_header name value ((n, v) ∷ rest) =
    let rest' = set_header name value rest in
    if n == name then (name, value) ∷ without_header name rest else (n, v) ∷ rest'

unfoldable pub annotate : ℕ → ℕ → Response → Response
unfolding set_header
annotate limit remaining response = record response {
  headers =
      set_header "x-ratelimit-remaining" remaining
        (set_header "x-ratelimit-limit" limit response.headers);
}

unfoldable pub too_many_requests : ℕ → ℕ → ℕ → Response
too_many_requests limit remaining window = record {
  status = 429;
  headers =
      ("x-ratelimit-limit", limit)
      ∷ ("x-ratelimit-remaining", remaining)
      ∷ ("retry-after", window)
      ∷ [];
  content = "rate_limit_exceeded";
}

module _ (r : Redis) (W : Type 0) where
  abbrev pub State : Type 0
  State = r.State × W

  -- The counter of an address, one step on.
  check_ip : Settings → String → State → Option (Bool × ℕ) × State
  check_ip settings ip (s, w) =
      let (verdict, s') =
        check_rate_limit_ip r settings ip (some settings.rate_limit_per_ip) 60 s in
      (some verdict, (s', w))

  module _ (settings : Settings) (call_next : Request → State → Option Response × State) where
    -- What follows the rate limiter's answer.
    pub answer : Request → Bool × ℕ → State → Option Response × State
    unfolding too_many_requests annotate
    answer request (is_allowed, remaining) =
        if not is_allowed
        then pure (too_many_requests settings.rate_limit_per_ip remaining 60)
        else (do
          response ← call_next request
          pure (annotate settings.rate_limit_per_ip remaining response))

    pub dispatch : Request → State → Option Response × State
    unfolding exempt check_ip answer
    dispatch request =
        if exempt settings request
        then call_next request
        else (do verdict ← check_ip settings (get_client_ip request); answer request verdict)
