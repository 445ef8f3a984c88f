-- ===== src/RateLimiter/Window.antt =====
-- While the server answers, `check_key` is a fixed-window counter.
use codelab_auth_service.Common.{
  ℕ, suc, ◌+◌, ◌-◌, ◌≤◌, ◌<◌, String, ◌≡◌, Bool, ap, ◌∙◌, inl, inr, Bool-cases, true, Option, none,
  some, List, [], ◌∷◌, arith, ◌==◌, leb, eq_refl, eq_iff, prefixed_eq, if◌then◌else◌,
}
use codelab_auth_service.Redis.Interface.{Redis, IsLawful, increased, counted, later}
use codelab_auth_service.Settings.{Settings}
use codelab_auth_service.RateLimiter.{check_key, check_rate_limit_ip, ip_key, limit_or}

module _ (r : Redis) (lawful : IsLawful r) where
  module _ (key : String) (limit window : ℕ) (s : r.State) (up : r.up s ≡ true) where
    pub check_key_up : r.up (check_key r key limit window s).1 ≡ true
    unfolding check_key
    check_key_up = ground (
      arith,
      lawful.incr_reply key s up,
      lawful.incr_up key s,
      lawful.expire_up key window (r.incr key s).1,
    )

    -- The result is read off the counter.
    pub check_key_result :
        (check_key r key limit window s).0
        ≡ (leb (increased (r.peek s key)).count limit, limit - (increased (r.peek s key)).count)
    unfolding check_key
    check_key_result = ground (
      arith,
      lawful.incr_reply key s up,
      lawful.incr_up key s,
      lawful.expire_reply key window (r.incr key s).1,
    )

    -- What the server holds afterwards, under this key and any other.
    pub check_key_peek :
        (j : String)
        → 0 < window
        → r.peek (check_key r key limit window s).1 j
          ≡ (if key == j then some (counted window (r.peek s key)) else r.peek s j)
    unfolding check_key
    check_key_peek j pos = ground (
      arith,
      lawful.incr_reply key s up,
      lawful.incr_up key s,
      lawful.incr_peek key key s up,
      lawful.incr_peek key j s up,
      lawful.expire_reply key window (r.incr key s).1,
      lawful.expire_peek key j window (r.incr key s).1,
      eq_iff key j,
      eq_refl key,
    )

-- Two addresses have two counters.
pub ip_key_eq : (i j : String) → (ip_key i == ip_key j) ≡ (i == j)
ip_key_eq i j = prefixed_eq "rate_limit:ip:" i j

-- A history: requests from addresses, each followed by some seconds.
abbrev pub History : Type 0
History = List (String × ℕ)

abbrev pub requests_of : String → History → ℕ
requests_of ip [] = 0
requests_of ip ((i, d) ∷ h) = (if i == ip then 1 else 0) + requests_of ip h

abbrev pub elapsed : History → ℕ
elapsed [] = 0
elapsed ((i, d) ∷ h) = d + elapsed h

module _ (r : Redis) (settings : Settings) (limit : Option ℕ) (window : ℕ) where
  unfoldable pub serve : History → r.State → r.State
  serve [] s = s
  serve ((i, d) ∷ h) s = serve h (r.wait d (check_rate_limit_ip r settings i limit window s).1)

module _ (r : Redis) (lawful : IsLawful r) (settings : Settings) (limit : Option ℕ)
    (window : ℕ) where
  abbrev pub after_one : String → ℕ → r.State → r.State
  after_one i d s = r.wait d (check_rate_limit_ip r settings i limit window s).1

  pub after_one_up :
      (i : String) (d : ℕ) (s : r.State) → r.up s ≡ true → r.up (after_one i d s) ≡ true
  unfolding check_rate_limit_ip
  after_one_up i d s up =
      lawful.wait_up d _
      ∙ check_key_up r lawful (ip_key i) (limit_or limit settings.rate_limit_per_ip) window s up

  pub after_one_peek :
      (i ip : String) (d : ℕ) (s : r.State)
      → r.up s ≡ true
      → 0 < window
      → r.peek (after_one i d s) (ip_key ip)
        ≡ later d
            (if i == ip then some (counted window (r.peek s (ip_key i))) else r.peek s (ip_key ip))
  unfolding check_rate_limit_ip
  after_one_peek i ip d s up pos =
      rw (lawful.wait_peek d (ip_key ip) (check_rate_limit_ip r settings i limit window s).1) (
        ap (later d) (
          rw (← ip_key_eq i ip) (
            check_key_peek r lawful (ip_key i) (limit_or limit settings.rate_limit_per_ip) window s
              up (ip_key ip) pos)))

  pub serve_up :
      (h : History) (s : r.State) → r.up s ≡ true → r.up (serve r settings limit window h s) ≡ true
  unfolding serve
  serve_up [] s up = up
  serve_up ((i, d) ∷ h) s up = serve_up h (after_one i d s) (after_one_up i d s up)

  after_one_running :
      (i ip : String) (d : ℕ) (s : r.State) (n t : ℕ)
      → r.up s ≡ true
      → 0 < window
      → r.peek s (ip_key ip) ≡ some (record { count = suc n; ttl = some t })
      → d < t
      → r.peek (after_one i d s) (ip_key ip)
        ≡ some (record { count = suc (n + requests_of ip ((i, d) ∷ [])); ttl = some (t - d) })
  after_one_running i ip d s n t up pos e lt = ground (
    arith,
    after_one_peek i ip d s up pos,
    eq_iff i ip,
    ap (λ (x : String). r.peek s (ip_key x)) {x = i} {y = ip},
  )

  after_one_idle :
      (i ip : String) (d : ℕ) (s : r.State)
      → r.up s ≡ true
      → 0 < window
      → r.peek s (ip_key ip) ≡ none
      → d < window
      → r.peek (after_one i d s) (ip_key ip)
        ≡ (if i == ip then some (record { count = 1; ttl = some (window - d) }) else none)
  after_one_idle i ip d s up pos e lt = ground (
    arith,
    after_one_peek i ip d s up pos,
    eq_iff i ip,
    ap (λ (x : String). r.peek s (ip_key x)) {x = i} {y = ip},
  )

  -- A counter with a deadline counts the requests until then, and the deadline stays.
  serve_running :
      (ip : String) (h : History) (s : r.State) (n t : ℕ)
      → r.up s ≡ true
      → 0 < window
      → r.peek s (ip_key ip) ≡ some (record { count = suc n; ttl = some t })
      → elapsed h < t
      → r.peek (serve r settings limit window h s) (ip_key ip)
        ≡ some (record { count = suc (n + requests_of ip h); ttl = some (t - elapsed h) })
  unfolding serve
  serve_running ip [] s n t up pos e lt = ground arith
  serve_running ip ((i, d) ∷ h) s n t up pos e lt = ground (
    arith,
    serve_running ip h (after_one i d s) (n + requests_of ip ((i, d) ∷ [])) (t - d)
        (after_one_up i d s up) pos (after_one_running i ip d s n t up pos e (omega arith))
        (omega arith),
  )

  abbrev quota_left : ℕ → Bool × ℕ
  quota_left n = (
    leb n (limit_or limit settings.rate_limit_per_ip),
    limit_or limit settings.rate_limit_per_ip - n,
  )

  check_counted :
      (ip : String) (s : r.State) (n t : ℕ)
      → r.up s ≡ true
      → r.peek s (ip_key ip) ≡ some (record { count = n; ttl = some t })
      → (check_rate_limit_ip r settings ip limit window s).0 ≡ quota_left (n + 1)
  unfolding check_rate_limit_ip
  check_counted ip s n t up e = ground (
    arith,
    check_key_result r lawful (ip_key ip) (limit_or limit settings.rate_limit_per_ip) window s up,
  )

  check_idle :
      (ip : String) (s : r.State)
      → r.up s ≡ true
      → r.peek s (ip_key ip) ≡ none
      → (check_rate_limit_ip r settings ip limit window s).0 ≡ quota_left 1
  unfolding check_rate_limit_ip
  check_idle ip s up e = ground (
    arith,
    check_key_result r lawful (ip_key ip) (limit_or limit settings.rate_limit_per_ip) window s up,
  )

  -- While the server answers and an address has no counter yet: after any history shorter than the
  -- window, with n requests of this address among those of others, its next request is allowed
  -- exactly if n + 1 is within the limit, and the limit less n + 1 requests remain.
  pub window_quota :
      (ip : String) (h : History) (s : r.State)
      → r.up s ≡ true
      → 0 < window
      → r.peek s (ip_key ip) ≡ none
      → elapsed h < window
      → (check_rate_limit_ip r settings ip limit window (serve r settings limit window h s)).0
        ≡ quota_left (requests_of ip h + 1)
  unfolding serve
  window_quota ip [] s up pos e lt = ground (arith, check_idle ip s up e)
  window_quota ip ((i, d) ∷ h) s up pos e lt =
      let s' = after_one i d s in
      let up' : r.up s' ≡ true = after_one_up i d s up in
      elim (Bool-cases (i == ip)) [
        | inl same ↦ ground (
          arith,
          same,
          after_one_idle i ip d s up pos e,
          serve_running ip h s' 0 (window - d) up' pos,
          check_counted ip (serve r settings limit window h s') (1 + requests_of ip h)
              (window - d - elapsed h) (serve_up h s' up'),
        )
        | inr other ↦
            ground (arith, other, after_one_idle i ip d s up pos e, window_quota ip h s' up' pos)
      ]

  -- While the server answers: the first request of an address opens a window, which closes after
  -- its seconds however many requests, allowed or refused, came meanwhile; the next request is
  -- judged as a first one.
  pub window_reopens :
      (ip : String) (h : History) (d : ℕ) (s : r.State)
      → r.up s ≡ true
      → r.peek s (ip_key ip) ≡ none
      → elapsed h < window
      → window ≤ elapsed h + d
      → (check_rate_limit_ip r settings ip limit window
          (r.wait d (serve r settings limit window ((ip, 0) ∷ h) s))).0
        ≡ quota_left 1
  unfolding serve
  window_reopens ip h d s up e lt le =
      let s' = after_one ip 0 s in
      let up' : r.up s' ≡ true = after_one_up ip 0 s up in
      let end = serve r settings limit window h s' in
      ground (
        arith,
        eq_refl ip,
        after_one_idle ip ip 0 s up (omega arith) e,
        serve_running ip h s' 0 window up',
        lawful.wait_peek d (ip_key ip) end,
        lawful.wait_up d end,
        serve_up h s' up',
        check_idle ip (r.wait d end),
      )
