-- ===== src/Redis/Interface.antt =====
-- The Redis server as the rate limiter and the brute-force protection use it: counters under text
-- keys. The server is not part of the repository, so it is an interface with laws.
use codelab_auth_service.Common.{
  ℕ, ◌+◌, ◌-◌, ◌<◌, String, ◌≡◌, ◌≢◌, Bool, true, false, ◌||◌, Option, none, some, List, [], ◌∷◌,
  ◌==◌, leb, eqb, if◌then◌else◌,
}

-- What the server holds under a key: the counter, and the seconds left if an expiry is set.
pub record Counter : Type 0 where
  pub count : ℕ
  pub ttl : Option ℕ

-- A command gives its reply, or `none` where the client raises, and the server's next state.
pub record Redis : Type 1 where
  pub State : Type 0
  pub incr : String → State → Option ℕ × State
  pub expire : String → ℕ → State → Option (Unit {0}) × State
  pub get : String → State → Option (Option ℕ) × State
  pub ttl : String → State → Option String × State
  pub delete : List String → State → Option (Unit {0}) × State
  -- What the laws speak of: the live counters, whether the server answers, and time that passes.
  pub peek : State → String → Option Counter
  pub up : State → Bool
  pub wait : ℕ → State → State

-- INCR of a counter that is not there makes one with no expiry; INCR keeps an expiry.
abbrev pub increased : Option Counter → Counter
increased none = record { count = 1; ttl = none }
increased (some c) = record c { count = c.count + 1 }

abbrev pub expiring : ℕ → Option Counter → Option Counter
expiring d none = none
expiring d (some c) = some (record c { ttl = some d })

-- A counter after `d` seconds.
abbrev pub later : ℕ → Option Counter → Option Counter
later d none = none
later d (some c) = elim c.ttl [
  | none ↦ some c
  | some t ↦ if leb t d then none else some (record c { ttl = some (t - d) })
]

-- The counter that INCR, with EXPIRE if it has made the counter, leaves behind.
abbrev pub counted : ℕ → Option Counter → Counter
counted window c = record (increased c) {
  ttl = if eqb (increased c).count 1 then some window else (increased c).ttl;
}

abbrev pub count_of : Option Counter → Option ℕ
count_of none = none
count_of (some c) = some c.count

abbrev pub listed : String → List String → Bool
listed k [] = false
listed k (j ∷ js) = k == j || listed k js

pub record IsLawful (r : Redis) : Type 0 where
  pub incr_reply :
      (k : String) (s : r.State)
      → r.up s ≡ true
      → (r.incr k s).0 ≡ some (increased (r.peek s k)).count
  pub incr_peek :
      (k j : String) (s : r.State)
      → r.up s ≡ true
      → r.peek (r.incr k s).1 j ≡ (if k == j then some (increased (r.peek s k)) else r.peek s j)
  pub incr_up : (k : String) (s : r.State) → r.up (r.incr k s).1 ≡ r.up s
  pub expire_reply :
      (k : String) (d : ℕ) (s : r.State) → r.up s ≡ true → (r.expire k d s).0 ≡ some tt
  pub expire_peek :
      (k j : String) (d : ℕ) (s : r.State)
      → r.up s ≡ true
      → 0 < d
      → r.peek (r.expire k d s).1 j ≡ (if k == j then expiring d (r.peek s k) else r.peek s j)
  pub expire_up : (k : String) (d : ℕ) (s : r.State) → r.up (r.expire k d s).1 ≡ r.up s
  pub get_reply :
      (k : String) (s : r.State) → r.up s ≡ true → (r.get k s).0 ≡ some (count_of (r.peek s k))
  pub get_peek : (k j : String) (s : r.State) → r.peek (r.get k s).1 j ≡ r.peek s j
  pub get_up : (k : String) (s : r.State) → r.up (r.get k s).1 ≡ r.up s
  pub ttl_peek : (k j : String) (s : r.State) → r.peek (r.ttl k s).1 j ≡ r.peek s j
  pub ttl_up : (k : String) (s : r.State) → r.up (r.ttl k s).1 ≡ r.up s
  pub ttl_reply : (k : String) (s : r.State) → r.up s ≡ true → (r.ttl k s).0 ≢ none
  pub delete_reply : (ks : List String) (s : r.State) → r.up s ≡ true → (r.delete ks s).0 ≡ some tt
  pub delete_peek :
      (ks : List String) (j : String) (s : r.State)
      → r.up s ≡ true
      → r.peek (r.delete ks s).1 j ≡ (if listed j ks then none else r.peek s j)
  pub delete_up : (ks : List String) (s : r.State) → r.up (r.delete ks s).1 ≡ r.up s
  pub wait_peek : (d : ℕ) (j : String) (s : r.State) → r.peek (r.wait d s) j ≡ later d (r.peek s j)
  pub wait_up : (d : ℕ) (s : r.State) → r.up (r.wait d s) ≡ r.up s
