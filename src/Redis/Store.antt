-- ===== src/Redis/Store.antt =====
-- The Redis server as the token blacklist uses it: texts that expire and sets of texts. The server
-- is not part of the repository, so it is an interface with laws.
use codelab_auth_service.Common.{
  ℕ, ◌-◌, ◌<◌, String, ◌≡◌, Bool, true, false, not, ◌&&◌, ◌||◌, Option, none, some, List, [], ◌∷◌,
  ◌==◌, leb, if◌then◌else◌,
}
use codelab_auth_service.Redis.Interface.{listed}

-- A value that JSON encodes, in a dictionary of the service.
pub data Json : Type 0 where
  null : Json
  text : String → Json
  number : ℕ → Json

-- A stored text: the text "1", or the JSON of a dictionary, which stands for the dictionary.
pub data Value : Type 0 where
  one : Value
  document : List (String × Json) → Value

-- A command gives its reply, or `none` where the client raises, and the server's next state.
pub record Store : Type 1 where
  pub State : Type 0
  pub setex : String → ℕ → Value → State → Option (Unit {0}) × State
  pub sadd : String → List String → State → Option (Unit {0}) × State
  pub srem : String → String → State → Option (Unit {0}) × State
  pub expire : String → ℕ → State → Option (Unit {0}) × State
  pub exists : String → State → Option Bool × State
  pub get : String → State → Option (Option Value) × State
  pub smembers : String → State → Option (List String) × State
  -- `pipeline()`, the commands put into it, and `execute()`
  pub execute : List (State → Option (Unit {0}) × State) → State → Option (Unit {0}) × State
  -- What the laws speak of: the live texts with the seconds that they have left, the members of a
  -- live set, whether the server answers, and time that passes.
  pub lookup : State → String → Option (Value × ℕ)
  pub members : State → String → List String
  pub up : State → Bool
  pub wait : ℕ → State → State

abbrev pub restarted : ℕ → Option (Value × ℕ) → Option (Value × ℕ)
restarted d none = none
restarted d (some (v, t)) = some (v, d)

-- A text after `d` seconds.
abbrev pub lapsed : ℕ → Option (Value × ℕ) → Option (Value × ℕ)
lapsed d none = none
lapsed d (some (v, t)) = if leb t d then none else some (v, t - d)

abbrev pub stored : Option (Value × ℕ) → Option Value
stored none = none
stored (some (v, t)) = some v

abbrev pub is_there : Option (Value × ℕ) → Bool
is_there none = false
is_there (some e) = true

abbrev pub has_any : List String → Bool
has_any [] = false
has_any (x ∷ xs) = true

abbrev pub is_reply : Option (Unit {0}) → Bool
is_reply none = false
is_reply (some _) = true

module _ {S : Type 0} where
  -- The commands one after the other, each of them whatever became of those before.
  unfoldable pub run_all : List (S → Option (Unit {0}) × S) → S → S
  run_all [] s = s
  run_all (c ∷ cs) s = run_all cs (c s).1

  unfoldable pub all_reply : List (S → Option (Unit {0}) × S) → S → Bool
  all_reply [] s = true
  all_reply (c ∷ cs) s = is_reply (c s).0 && all_reply cs (c s).1

pub record IsLawful (r : Store) : Type 0 where
  pub setex_reply :
      (k : String) (d : ℕ) (v : Value) (s : r.State)
      → r.up s ≡ true
      → 0 < d
      → (r.setex k d v s).0 ≡ some tt
  pub setex_lookup :
      (k j : String) (d : ℕ) (v : Value) (s : r.State)
      → r.up s ≡ true
      → 0 < d
      → r.lookup (r.setex k d v s).1 j ≡ (if k == j then some (v, d) else r.lookup s j)
  pub setex_members :
      (k j : String) (d : ℕ) (v : Value) (s : r.State)
      → r.up s ≡ true
      → 0 < d
      → r.members (r.setex k d v s).1 j ≡ (if k == j then [] else r.members s j)
  pub setex_up : (k : String) (d : ℕ) (v : Value) (s : r.State) → r.up (r.setex k d v s).1 ≡ r.up s
  -- SADD and SREM refuse a key that holds a text.
  pub sadd_reply :
      (k : String) (ms : List String) (s : r.State)
      → r.up s ≡ true
      → r.lookup s k ≡ none
      → (r.sadd k ms s).0 ≡ some tt
  pub sadd_lookup :
      (k j : String) (ms : List String) (s : r.State) → r.lookup (r.sadd k ms s).1 j ≡ r.lookup s j
  pub sadd_members :
      (k j : String) (ms : List String) (s : r.State)
      → (k == j) ≡ false
      → r.members (r.sadd k ms s).1 j ≡ r.members s j
  pub sadd_up : (k : String) (ms : List String) (s : r.State) → r.up (r.sadd k ms s).1 ≡ r.up s
  pub srem_reply :
      (k m : String) (s : r.State)
      → r.up s ≡ true
      → r.lookup s k ≡ none
      → (r.srem k m s).0 ≡ some tt
  pub srem_lookup : (k j m : String) (s : r.State) → r.lookup (r.srem k m s).1 j ≡ r.lookup s j
  pub srem_listed :
      (k j m x : String) (s : r.State)
      → r.up s ≡ true
      → listed x (r.members (r.srem k m s).1 j)
        ≡ (listed x (r.members s j) && not (k == j && x == m))
  pub srem_other :
      (k j m : String) (s : r.State)
      → (k == j) ≡ false
      → r.members (r.srem k m s).1 j ≡ r.members s j
  pub srem_up : (k m : String) (s : r.State) → r.up (r.srem k m s).1 ≡ r.up s
  pub expire_reply :
      (k : String) (d : ℕ) (s : r.State) → r.up s ≡ true → (r.expire k d s).0 ≡ some tt
  pub expire_lookup :
      (k j : String) (d : ℕ) (s : r.State)
      → r.up s ≡ true
      → 0 < d
      → r.lookup (r.expire k d s).1 j
        ≡ (if k == j then restarted d (r.lookup s j) else r.lookup s j)
  pub expire_members :
      (k j : String) (d : ℕ) (s : r.State) → 0 < d → r.members (r.expire k d s).1 j ≡ r.members s j
  pub expire_up : (k : String) (d : ℕ) (s : r.State) → r.up (r.expire k d s).1 ≡ r.up s
  -- A read leaves the server as it is.
  pub exists_lem :
      (k : String) (s : r.State)
      → r.up s ≡ true
      → r.exists k s ≡ (some (is_there (r.lookup s k) || has_any (r.members s k)), s)
  pub get_lem :
      (k : String) (s : r.State)
      → r.up s ≡ true
      → r.members s k ≡ []
      → r.get k s ≡ (some (stored (r.lookup s k)), s)
  pub smembers_lem :
      (k : String) (s : r.State)
      → r.up s ≡ true
      → r.lookup s k ≡ none
      → r.smembers k s ≡ (some (r.members s k), s)
  pub execute_lem :
      (cs : List (r.State → Option (Unit {0}) × r.State)) (s : r.State)
      → r.up s ≡ true
      → r.execute cs s ≡ (if all_reply cs s then some tt else none, run_all cs s)
  pub wait_lookup :
      (d : ℕ) (j : String) (s : r.State) → r.lookup (r.wait d s) j ≡ lapsed d (r.lookup s j)
  pub wait_members :
      (d : ℕ) (j : String) (s : r.State) → r.members s j ≡ [] → r.members (r.wait d s) j ≡ []
  pub wait_up : (d : ℕ) (s : r.State) → r.up (r.wait d s) ≡ r.up s
