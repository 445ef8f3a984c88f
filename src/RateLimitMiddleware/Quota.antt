-- ===== src/RateLimitMiddleware/Quota.antt =====
-- How many requests of an address reach the application.
use codelab_auth_service.Common.{
  ℕ, zero, suc, ◌+◌, ◌-◌, String, ◌≡◌, refl, ap, ◌∙◌, inl, inr, Bool, true, false, ◌&&◌, not,
  Bool-cases, Option, none, some, List, [], ◌∷◌, arith, ltb, ◌==◌, eq_iff, if◌then◌else◌,
}
use codelab_auth_service.Commands.{◌>>=◌, pure}
use codelab_auth_service.Redis.Interface.{Redis, IsLawful, Counter, counted}
use codelab_auth_service.Settings.{Settings}
use codelab_auth_service.RateLimiter.{check_rate_limit_ip, ip_key}
use codelab_auth_service.RateLimiter.Window.{
  check_key_up, check_key_result, check_key_peek, ip_key_eq,
}
use codelab_auth_service.RateLimitMiddleware.{
  Request, Response, State, get_client_ip, exempt, annotate, too_many_requests, check_ip, answer,
  dispatch,
}

-- A limited request of the address.
abbrev pub is_from : Settings → String → Request → Bool
is_from settings ip request = not (exempt settings request) && get_client_ip request == ip

abbrev pub requests_from : Settings → String → List Request → ℕ
requests_from settings ip [] = 0
requests_from settings ip (q ∷ qs) =
    (if is_from settings ip q then 1 else 0) + requests_from settings ip qs

-- A counter that has counted so many requests within one window.
abbrev pub counter : ℕ → Option Counter
counter zero = none
counter (suc n) = some (record { count = suc n; ttl = some 60 })

counted-counter : (n : ℕ) → some (counted 60 (counter n)) ≡ counter (suc n)
counted-counter zero = refl
counted-counter (suc n) = ground arith

module _ (r : Redis) (W : Type 0) (settings : Settings)
    (call_next : Request → State r W → Option Response × State r W) where
  -- The application leaves the rate limiter's counters as they are, and the server up.
  pub record IsQuiet : Type 0 where
    pub keeps_up : (q : Request) (s : State r W) → r.up s.0 ≡ true → r.up (call_next q s).1.0 ≡ true
    pub keeps_counters :
        (q : Request) (s : State r W) (ip : String)
        → r.up s.0 ≡ true
        → r.peek (call_next q s).1.0 (ip_key ip) ≡ r.peek s.0 (ip_key ip)

  -- Requests one after the other.
  unfoldable pub handle : List Request → State r W → State r W
  handle [] s = s
  handle (q ∷ qs) s = handle qs (dispatch r W settings call_next q s).1

  -- The state once the address is counted.
  abbrev pub after_check : String → State r W → State r W
  after_check ip s =
      ((check_rate_limit_ip r settings ip (some settings.rate_limit_per_ip) 60 s.0).1, s.1)

  dispatch-exempt :
      (q : Request) (s : State r W)
      → exempt settings q ≡ true
      → dispatch r W settings call_next q s ≡ call_next q s
  unfolding dispatch
  dispatch-exempt q s e = rw e refl

  dispatch_limited :
      (q : Request) (s : State r W)
      → exempt settings q ≡ false
      → dispatch r W settings call_next q s
        ≡ answer r W settings call_next q
            (check_rate_limit_ip r settings
              (get_client_ip q)
              (some settings.rate_limit_per_ip)
              60
              s.0).0
            (after_check (get_client_ip q) s)
  unfolding dispatch check_ip
  dispatch_limited q s e = rw e refl

  answer_read :
      (q : Request) (n : ℕ) (s : State r W)
      → answer r W settings call_next q
          (ltb n settings.rate_limit_per_ip, settings.rate_limit_per_ip - (n + 1))
          s
        ≡ (if ltb n settings.rate_limit_per_ip
              then (call_next q >>= λ response. pure (
                  annotate settings.rate_limit_per_ip
                    (settings.rate_limit_per_ip - (n + 1))
                    response))
              else pure (too_many_requests settings.rate_limit_per_ip 0 60))
            s
  unfolding answer
  answer_read q n s = elim (Bool-cases (ltb n settings.rate_limit_per_ip)) [
    | inl below ↦ rw below refl
    | inr above ↦
        let none_left : settings.rate_limit_per_ip - (n + 1) ≡ 0 = ground arith in
        rw (above, none_left) refl
  ]

  module _ (lawful : IsLawful r) (quiet : IsQuiet) where
    after_check_up :
        (ip : String) (s : State r W) → r.up s.0 ≡ true → r.up (after_check ip s).0 ≡ true
    unfolding check_rate_limit_ip
    after_check_up ip s up = check_key_up r lawful (ip_key ip) settings.rate_limit_per_ip 60 s.0 up

    after_check_peek :
        (i ip : String) (s : State r W)
        → r.up s.0 ≡ true
        → r.peek (after_check i s).0 (ip_key ip)
          ≡ (if i == ip then some (counted 60 (r.peek s.0 (ip_key i))) else r.peek s.0 (ip_key ip))
    unfolding check_rate_limit_ip
    after_check_peek i ip s up = rw (← ip_key_eq i ip) (
        check_key_peek r lawful (ip_key i) settings.rate_limit_per_ip 60 s.0 up (ip_key ip)
          (omega arith))

    answer_up :
        (q : Request) (v : Bool × ℕ) (s : State r W)
        → r.up s.0 ≡ true
        → r.up (answer r W settings call_next q v s).1.0 ≡ true
    unfolding answer
    answer_up q (true, k) s up = ground (arith, quiet.keeps_up q s up)
    answer_up q (false, k) s up = up

    answer_peek :
        (q : Request) (v : Bool × ℕ) (s : State r W) (ip : String)
        → r.up s.0 ≡ true
        → r.peek (answer r W settings call_next q v s).1.0 (ip_key ip) ≡ r.peek s.0 (ip_key ip)
    unfolding answer
    answer_peek q (true, k) s ip up = ground (arith, quiet.keeps_counters q s ip up)
    answer_peek q (false, k) s ip up = refl

    -- The state after a limited request, before the application and after it.
    dispatch_up :
        (q : Request) (s : State r W)
        → r.up s.0 ≡ true
        → r.up (dispatch r W settings call_next q s).1.0 ≡ true
    dispatch_up q s up = elim (Bool-cases (exempt settings q)) [
      | inl e ↦ rw (dispatch-exempt q s e) (quiet.keeps_up q s up)
      | inr e ↦ rw (dispatch_limited q s e) (
          answer_up q
            (check_rate_limit_ip r settings (get_client_ip q) (some settings.rate_limit_per_ip) 60
              s.0).0
            (after_check (get_client_ip q) s) (after_check_up (get_client_ip q) s up))
    ]

    dispatch_peek :
        (q : Request) (s : State r W) (ip : String)
        → r.up s.0 ≡ true
        → r.peek (dispatch r W settings call_next q s).1.0 (ip_key ip) ≡ (
            if is_from settings ip q
            then some (counted 60 (r.peek s.0 (ip_key ip)))
            else r.peek s.0 (ip_key ip))
    dispatch_peek q s ip up = elim (Bool-cases (exempt settings q)) [
      | inl e ↦ rw (dispatch-exempt q s e, e) (quiet.keeps_counters q s ip up)
      | inr e ↦
          rw (dispatch_limited q s e, e)
            (answer_peek q
                (check_rate_limit_ip r settings (get_client_ip q) (some settings.rate_limit_per_ip)
                  60 s.0).0
                (after_check (get_client_ip q) s) ip (after_check_up (get_client_ip q) s up)
              ∙ ground (
                arith,
                after_check_peek (get_client_ip q) ip s up,
                eq_iff (get_client_ip q) ip,
                ap (λ (x : String). r.peek s.0 (ip_key x)) {x = get_client_ip q} {y = ip},
              ))
    ]

    handle_up : (h : List Request) (s : State r W) → r.up s.0 ≡ true → r.up (handle h s).0 ≡ true
    unfolding handle
    handle_up [] s up = up
    handle_up (q ∷ h) s up =
        handle_up h (dispatch r W settings call_next q s).1 (dispatch_up q s up)

    handle_counts :
        (h : List Request) (s : State r W) (ip : String) (n : ℕ)
        → r.up s.0 ≡ true
        → r.peek s.0 (ip_key ip) ≡ counter n
        → r.peek (handle h s).0 (ip_key ip) ≡ counter (n + requests_from settings ip h)
    unfolding handle
    handle_counts [] s ip n up e = ground arith
    handle_counts (q ∷ h) s ip n up e = elim (Bool-cases (is_from settings ip q)) [
      | inl from ↦ rw from (
          handle_counts h (dispatch r W settings call_next q s).1 ip (suc n) (dispatch_up q s up)
            (dispatch_peek q s ip up ∙ rw (from, e) (counted-counter n))
          ∙ ap counter (omega arith))
      | inr other ↦ rw other (
          handle_counts h (dispatch r W settings call_next q s).1 ip n (dispatch_up q s up)
            (dispatch_peek q s ip up ∙ rw (other, e) refl)
          ∙ ap counter (omega arith))
    ]

    check_result :
        (s : State r W) (ip : String) (n : ℕ)
        → r.up s.0 ≡ true
        → r.peek s.0 (ip_key ip) ≡ counter n
        → (check_rate_limit_ip r settings ip (some settings.rate_limit_per_ip) 60 s.0).0
          ≡ (ltb n settings.rate_limit_per_ip, settings.rate_limit_per_ip - (n + 1))
    unfolding check_rate_limit_ip
    check_result s ip zero up e =
        ground (arith, check_key_result r lawful (ip_key ip) settings.rate_limit_per_ip 60 s.0 up)
    check_result s ip (suc n) up e =
        ground (arith, check_key_result r lawful (ip_key ip) settings.rate_limit_per_ip 60 s.0 up)

    -- While the Redis server answers, for an application that leaves the counters alone and an
    -- address that has no counter yet: after any requests in which no counter expires, n of them limited
    -- requests of this address, its next limited request reaches the application, and the response
    -- gets the headers, exactly if n is below the limit; else the answer is 429 and the application
    -- is not called. Either way the limiter has counted the request first.
    pub quota_enforced :
        (h : List Request) (q : Request) (s : State r W)
        → r.up s.0 ≡ true
        → r.peek s.0 (ip_key (get_client_ip q)) ≡ none
        → exempt settings q ≡ false
        → dispatch r W settings call_next q (handle h s)
          ≡ (if ltb (requests_from settings (get_client_ip q) h) settings.rate_limit_per_ip
                then (call_next q >>= λ response. pure (
                    annotate settings.rate_limit_per_ip
                      (settings.rate_limit_per_ip
                        - (requests_from settings (get_client_ip q) h + 1))
                      response))
                else pure (too_many_requests settings.rate_limit_per_ip 0 60))
              (after_check (get_client_ip q) (handle h s))
    quota_enforced h q s up empty limited =
        let n = requests_from settings (get_client_ip q) h in
        dispatch_limited q (handle h s) limited
        ∙ rw
            (check_result (handle h s) (get_client_ip q) n (handle_up h s up)
              (handle_counts h s (get_client_ip q) 0 up empty ∙ ap counter (omega arith)))
            (answer_read q n (after_check (get_client_ip q) (handle h s)))
