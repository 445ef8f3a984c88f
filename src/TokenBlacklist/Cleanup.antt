-- ===== src/TokenBlacklist/Cleanup.antt =====
-- What `cleanup_user_tokens` takes out of the user's set.
use codelab_auth_service.Common.{
  ℕ, ◌+◌, String, ◌≡◌, refl, ap, ◌∙◌, Bool, true, not, ◌&&◌, ◌||◌, none, some, List, [], ◌∷◌, arith,
  ◌==◌, eq_iff, eq_refl, Bool-cases, inl, inr, if◌then◌else◌,
}
use codelab_auth_service.Commands.{>>=-reply}
use codelab_auth_service.Redis.Interface.{listed}
use codelab_auth_service.Redis.Store.{Store, IsLawful, is_there, has_any}
use codelab_auth_service.TokenBlacklist.{
  blacklist_key, user_tokens_key, cleanup_one, cleanup_loop, cleanup_user_tokens,
}
use codelab_auth_service.TokenBlacklist.Keys.{user_tokens-apart_blacklist}

module _ (r : Store) where
  -- Whether the server has the token's entry in the blacklist.
  abbrev pub is_blacklisted : String → r.State → Bool
  is_blacklisted jti s =
      is_there (r.lookup s (blacklist_key jti)) || has_any (r.members s (blacklist_key jti))

  -- How many of a list's elements have no entry.
  abbrev pub stale_count : List String → r.State → ℕ
  stale_count [] s = 0
  stale_count (jti ∷ jtis) s = (if is_blacklisted jti s then 0 else 1) + stale_count jtis s

module _ (r : Store) (lawful : IsLawful r) (user_id : String) where
  abbrev key : String
  key = user_tokens_key user_id

  -- The members that are taken out: those of the list without an entry.
  abbrev is_stale : List String → r.State → String → Bool
  is_stale jtis s jti = listed jti jtis && not (is_blacklisted r jti s)

  abbrev after_one : String → r.State → r.State
  after_one jti s = if is_blacklisted r jti s then s else (r.srem key jti s).1

  -- What the loop leaves as it was.
  record IsSame (s s' : r.State) : Type 0 where
    still_up : r.up s' ≡ true
    still_free : r.lookup s' key ≡ none
    same_entries : (j : String) → is_blacklisted r j s' ≡ is_blacklisted r j s

  after_one-IsSame :
      (jti : String) (s : r.State)
      → r.up s ≡ true
      → r.lookup s key ≡ none
      → IsSame s (after_one jti s)
  after_one-IsSame jti s up free = elim (Bool-cases (is_blacklisted r jti s)) [
    | inl there ↦ rw there (record { still_up = up; still_free = free; same_entries = λ j. refl })
    | inr gone ↦ rw gone (record {
      still_up = lawful.srem_up key jti s ∙ up;
      still_free = lawful.srem_lookup key key jti s ∙ free;
      same_entries = λ j.
          rw
            (
              lawful.srem_lookup key (blacklist_key j) jti s,
              lawful.srem_other key (blacklist_key j) jti s (user_tokens-apart_blacklist user_id j),
            )
            refl;
    })
  ]

  cleanup_one_runs :
      (jti : String) (n : ℕ) (s : r.State)
      → r.up s ≡ true
      → r.lookup s key ≡ none
      → cleanup_one r key jti n s
        ≡ (some (if is_blacklisted r jti s then n else n + 1), after_one jti s)
  unfolding cleanup_one
  cleanup_one_runs jti n s up free = elim (Bool-cases (is_blacklisted r jti s)) [
    | inl there ↦ ground (arith, lawful.exists_lem (blacklist_key jti) s up)
    | inr gone ↦
        ground
          (arith, lawful.exists_lem (blacklist_key jti) s up, lawful.srem_reply key jti s up free)
  ]

  abbrev after_all : List String → r.State → r.State
  after_all [] s = s
  after_all (jti ∷ jtis) s = after_all jtis (after_one jti s)

  after_all-IsSame :
      (jtis : List String) (s : r.State)
      → r.up s ≡ true
      → r.lookup s key ≡ none
      → IsSame s (after_all jtis s)
  after_all-IsSame [] s up free = record {
    still_up = up;
    still_free = free;
    same_entries = λ j. refl;
  }
  after_all-IsSame (jti ∷ jtis) s up free =
      let h = after_one-IsSame jti s up free in
      let g = after_all-IsSame jtis (after_one jti s) h.still_up h.still_free in
      record {
        still_up = g.still_up;
        still_free = g.still_free;
        same_entries = λ j. g.same_entries j ∙ h.same_entries j;
      }

  stale_count_same :
      (jtis : List String) (s s' : r.State)
      → IsSame s s'
      → stale_count r jtis s' ≡ stale_count r jtis s
  stale_count_same [] s s' h = refl
  stale_count_same (jti ∷ jtis) s s' h = rw (h.same_entries jti, stale_count_same jtis s s' h) refl

  cleanup_loop_runs :
      (jtis : List String) (n : ℕ) (s : r.State)
      → r.up s ≡ true
      → r.lookup s key ≡ none
      → cleanup_loop r key jtis n s ≡ (some (n + stale_count r jtis s), after_all jtis s)
  unfolding cleanup_loop
  cleanup_loop_runs [] n s up free = ground arith
  cleanup_loop_runs (jti ∷ jtis) n s up free =
      let h = after_one-IsSame jti s up free in
      let n' = if is_blacklisted r jti s then n else n + 1 in
      >>=-reply (cleanup_one r key jti n) (λ count. cleanup_loop r key jtis count) s
        (after_one jti s) n' (cleanup_one_runs jti n s up free)
      ∙ cleanup_loop_runs jtis n' (after_one jti s) h.still_up h.still_free
      ∙ rw (stale_count_same jtis s (after_one jti s) h)
          (ap (λ (k : ℕ). (some k, after_all jtis (after_one jti s))) (ground arith))

  listed-after_one :
      (jti x : String) (s : r.State)
      → r.up s ≡ true
      → listed x (r.members (after_one jti s) key)
        ≡ (listed x (r.members s key) && not (x == jti && not (is_blacklisted r jti s)))
  listed-after_one jti x s up = elim (Bool-cases (is_blacklisted r jti s)) [
    | inl there ↦ rw there (ground arith)
    | inr gone ↦ rw gone (ground (arith, lawful.srem_listed key key jti x s up, eq_refl key))
  ]

  listed-after_all :
      (jtis : List String) (x : String) (s : r.State)
      → r.up s ≡ true
      → r.lookup s key ≡ none
      → listed x (r.members (after_all jtis s) key)
        ≡ (listed x (r.members s key) && not (is_stale jtis s x))
  listed-after_all [] x s up free = ground arith
  listed-after_all (jti ∷ jtis) x s up free =
      let h = after_one-IsSame jti s up free in
      listed-after_all jtis x (after_one jti s) h.still_up h.still_free
      ∙ rw (h.same_entries x, listed-after_one jti x s up) (step (is_blacklisted r jti s) refl)
    where
      step :
          (b : Bool)
          → b ≡ is_blacklisted r jti s
          → ((listed x (r.members s key) && not (x == jti && not b))
              && not (listed x jtis && not (is_blacklisted r x s)))
            ≡ (listed x (r.members s key)
                && not ((x == jti || listed x jtis) && not (is_blacklisted r x s)))
      step b e =
          ground (arith, eq_iff x jti, ap (λ (y : String). is_blacklisted r y s) {x = x} {y = jti})

  cleanup_runs :
      (s : r.State)
      → r.up s ≡ true
      → r.lookup s key ≡ none
      → cleanup_user_tokens r user_id s
        ≡ (some (0 + stale_count r (r.members s key) s), after_all (r.members s key) s)
  unfolding cleanup_user_tokens
  cleanup_runs s up free =
      >>=-reply (r.smembers key) (λ jtis. cleanup_loop r key jtis 0) s s (r.members s key)
        (lawful.smembers_lem key s up free)
      ∙ cleanup_loop_runs (r.members s key) 0 s up free

  -- While the server answers and holds no text under the key of the user's set:
  -- `cleanup_user_tokens` answers how many elements of the set have no entry in the blacklist any
  -- more. The set keeps exactly the others, and no token's report changes.
  pub cleanup_keeps_blacklisted :
      (s : r.State) (x : String)
      → r.up s ≡ true
      → r.lookup s key ≡ none
      → ((cleanup_user_tokens r user_id s).0 ≡ some (stale_count r (r.members s key) s))
        × (listed x (r.members (cleanup_user_tokens r user_id s).1 key)
            ≡ (listed x (r.members s key) && is_blacklisted r x s))
        × (is_blacklisted r x (cleanup_user_tokens r user_id s).1 ≡ is_blacklisted r x s)
  cleanup_keeps_blacklisted s x up free =
      let jtis = r.members s key in
      rw (cleanup_runs s up free) (
        ap some (omega arith),
        listed-after_all jtis x s up free ∙ ground arith,
        (after_all-IsSame jtis s up free).same_entries x,
      )
