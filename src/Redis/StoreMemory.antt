-- ===== src/Redis/StoreMemory.antt =====
-- A server of texts and sets in memory that meets the laws, on which the tests run.
use codelab_auth_service.Common.{
  ℕ, String, ◌≡◌, refl, Bool, true, not, ◌&&◌, ◌||◌, Option, none, some, List, [], ◌∷◌, arith, ◌==◌,
  eq_iff, if◌then◌else◌,
}
use codelab_auth_service.Redis.Interface.{listed}
use codelab_auth_service.Redis.Store.{
  Value, Store, IsLawful, restarted, lapsed, stored, is_there, has_any, run_all, all_reply,
}

-- A set has no expiry here: nothing in the service relies on when one lapses.
pub record Shelf : Type 0 where
  pub texts : String → Option (Value × ℕ)
  pub sets : String → List String
  pub reachable : Bool

abbrev add_all : List String → List String → List String
add_all [] xs = xs
add_all (m ∷ ms) xs = let rest = add_all ms xs in if listed m rest then rest else m ∷ rest

abbrev remove : String → List String → List String
remove m [] = []
remove m (x ∷ xs) = let rest = remove m xs in if x == m then rest else x ∷ rest

abbrev pub shelf : Store
shelf = record {
  State = Shelf;
  setex = λ k d v s.
      if s.reachable
      then (
        some tt,
        record s {
          texts = λ j. if k == j then some (v, d) else s.texts j;
          sets = λ j. if k == j then [] else s.sets j;
        },
      )
      else (none, s);
  sadd = λ k ms s.
      if s.reachable && not (is_there (s.texts k))
      then (some tt, record s { sets = λ j. if k == j then add_all ms (s.sets j) else s.sets j })
      else (none, s);
  srem = λ k m s.
      if s.reachable
      then (
        (if is_there (s.texts k) then none else some tt),
        record s { sets = λ j. if k == j then remove m (s.sets j) else s.sets j },
      )
      else (none, s);
  expire = λ k d s.
      if s.reachable
      then (
        some tt,
        record s { texts = λ j. if k == j then restarted d (s.texts j) else s.texts j },
      )
      else (none, s);
  exists =
      λ k s. ((if s.reachable then some (is_there (s.texts k) || has_any (s.sets k)) else none), s);
  get = λ k s. ((if s.reachable then some (stored (s.texts k)) else none), s);
  smembers = λ k s. ((if s.reachable then some (s.sets k) else none), s);
  execute = λ cs s.
      if s.reachable then ((if all_reply cs s then some tt else none), run_all cs s) else (none, s);
  lookup = λ s k. s.texts k;
  members = λ s k. s.sets k;
  up = λ s. s.reachable;
  wait = λ d s. record s { texts = λ j. lapsed d (s.texts j) };
}

listed-remove :
    (m x : String) (xs : List String) → listed x (remove m xs) ≡ (listed x xs && not (x == m))
listed-remove m x [] = refl
listed-remove m x (y ∷ xs) =
    ground (arith, listed-remove m x xs, eq_iff y m, eq_iff x y, eq_iff x m)

pub shelf-IsLawful : IsLawful shelf
shelf-IsLawful = record {
  setex_reply = λ k d v s h pos. ground arith;
  setex_lookup = λ k j d v s h pos. ground arith;
  setex_members = λ k j d v s h pos. ground arith;
  setex_up = λ k d v s. ground arith;
  sadd_reply = λ k ms s h e. ground arith;
  sadd_lookup = λ k j ms s. ground arith;
  sadd_members = λ k j ms s other. ground arith;
  sadd_up = λ k ms s. ground arith;
  srem_reply = λ k m s h e. ground arith;
  srem_lookup = λ k j m s. ground arith;
  srem_listed = λ k j m x s h. ground (arith, listed-remove m x (s.sets j));
  srem_other = λ k j m s other. ground arith;
  srem_up = λ k m s. ground arith;
  expire_reply = λ k d s h. ground arith;
  expire_lookup = λ k j d s h pos. ground arith;
  expire_members = λ k j d s pos. ground arith;
  expire_up = λ k d s. ground arith;
  exists_lem = λ k s h. ground arith;
  get_lem = λ k s h e. ground arith;
  smembers_lem = λ k s h e. ground arith;
  execute_lem = λ cs s h. rw h refl;
  wait_lookup = λ d j s. refl;
  wait_members = λ d j s e. e;
  wait_up = λ d s. refl;
}

abbrev pub empty_shelf : Shelf
empty_shelf = record { texts = λ k. none; sets = λ k. []; reachable = true }
