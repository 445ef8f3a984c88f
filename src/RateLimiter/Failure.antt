-- ===== src/RateLimiter/Failure.antt =====
-- What `check_key` does when a command raises, and what becomes of a counter without an expiry.
use codelab_auth_service.Common.{
  ℕ, suc, ◌+◌, ◌≤◌, ◌<◌, String, ◌≡◌, ◌⊎◌, ap, true, false, Option, none, some, [], ◌∷◌, arith,
  eq_iff, eq_refl, ◌∙◌,
}
use codelab_auth_service.Redis.Interface.{Redis, IsLawful}
use codelab_auth_service.Settings.{Settings}
use codelab_auth_service.RateLimiter.{check_key, check_rate_limit_ip, ip_key, limit_or}
use codelab_auth_service.RateLimiter.Window.{
  History, requests_of, serve, after_one, after_one_up, after_one_peek, serve_up, check_key_result,
}

-- If INCR raises, or EXPIRE raises on the first request of a window, the request is allowed with
-- its full quota.
pub fail_open :
    (r : Redis) (key : String) (limit window : ℕ) (s : r.State)
    → ((r.incr key s).0 ≡ none)
      ⊎ ((r.incr key s).0 ≡ some 1) × ((r.expire key window (r.incr key s).1).0 ≡ none)
    → (check_key r key limit window s).0 ≡ (true, limit)
unfolding check_key
fail_open r key limit window s h = ground arith

module _ (r : Redis) (lawful : IsLawful r) (settings : Settings) (limit : Option ℕ)
    (window : ℕ) where
  stuck_step :
      (i ip : String) (d : ℕ) (s : r.State) (n : ℕ)
      → r.up s ≡ true
      → 0 < window
      → r.peek s (ip_key ip) ≡ some (record { count = suc n; ttl = none })
      → r.peek (after_one r lawful settings limit window i d s) (ip_key ip)
        ≡ some (record { count = suc (n + requests_of ip ((i, d) ∷ [])); ttl = none })
  stuck_step i ip d s n up pos e = ground (
    arith,
    after_one_peek r lawful settings limit window i ip d s up pos,
    eq_iff i ip,
    ap (λ (x : String). r.peek s (ip_key x)) {x = i} {y = ip},
  )

  serve_stuck :
      (ip : String) (h : History) (s : r.State) (n : ℕ)
      → r.up s ≡ true
      → 0 < window
      → r.peek s (ip_key ip) ≡ some (record { count = suc n; ttl = none })
      → r.peek (serve r settings limit window h s) (ip_key ip)
        ≡ some (record { count = suc (n + requests_of ip h); ttl = none })
  unfolding serve
  serve_stuck ip [] s n up pos e = ground arith
  serve_stuck ip ((i, d) ∷ h) s n up pos e = ground (
    arith,
    serve_stuck ip h (after_one r lawful settings limit window i d s)
        (n + requests_of ip ((i, d) ∷ [])) (after_one_up r lawful settings limit window i d s up)
        pos (stuck_step i ip d s n up pos e),
  )

  -- While the server answers and the window is not 0: if it has run the INCR of the first request of
  -- an address and not its EXPIRE, then once the requests of the address, with that one, have reached
  -- the limit, every later one is refused, whatever time passes and whatever requests of other
  -- addresses come in between.
  pub stuck_counter_blocks :
      (ip : String) (h : History) (s : r.State)
      → r.up s ≡ true
      → 0 < window
      → r.peek s (ip_key ip) ≡ none
      → limit_or limit settings.rate_limit_per_ip ≤ suc (requests_of ip h)
      → (check_rate_limit_ip r settings ip limit window
          (serve r settings limit window h (r.incr (ip_key ip) s).1)).0
        ≡ (false, 0)
  unfolding check_rate_limit_ip
  stuck_counter_blocks ip h s up pos e le =
      let s' = (r.incr (ip_key ip) s).1 in
      let up' : r.up s' ≡ true = lawful.incr_up (ip_key ip) s ∙ up in
      let stuck : r.peek s' (ip_key ip) ≡ some (record { count = 1; ttl = none }) =
        ground (arith, lawful.incr_peek (ip_key ip) (ip_key ip) s up, eq_refl (ip_key ip)) in
      ground (
        arith,
        serve_stuck ip h s' 0 up' pos stuck,
        check_key_result r lawful (ip_key ip) (limit_or limit settings.rate_limit_per_ip) window
            (serve r settings limit window h s') (serve_up r lawful settings limit window h s' up'),
      )
