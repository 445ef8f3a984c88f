-- ===== src/TokenBlacklist/Batch.antt =====
-- What `revoke_all_user_tokens` promises `is_token_revoked`.
use codelab_auth_service.Common.{
  ℕ, suc, String, ◌≡◌, refl, ◌∙◌, Bool, true, false, not, ◌&&◌, ◌||◌, Option, none, some, List, [],
  ◌∷◌, ◌++◌, arith, leb, ◌==◌, Bool-cases, inl, inr, if◌then◌else◌,
}
use codelab_auth_service.Redis.Store.{
  Value, one, document, Store, IsLawful, is_there, run_all, all_reply,
}
use codelab_auth_service.TokenBlacklist.{
  Command, blacklist_key, user_tokens_key, metadata_key, ttl_of, metadata_dict, batch,
  index_commands, revoke_all_user_tokens, is_token_revoked,
}
use codelab_auth_service.TokenBlacklist.Index.{index_reply, index_up, index_lookup, index_members}
use codelab_auth_service.TokenBlacklist.Keys.{
  blacklist-apart_user_tokens, metadata-apart_blacklist, metadata-apart_user_tokens,
  blacklist_key_eq, ttl_pos,
}

-- Whether a list has the token with a time of expiry that is still to come.
abbrev pub live_in : ℕ → String → List (String × ℕ) → Bool
live_in now j [] = false
live_in now j ((jti, exp) ∷ rest) = (not (leb exp now) && jti == j) || live_in now j rest

abbrev pub live_count : ℕ → List (String × ℕ) → ℕ
live_count now [] = 0
live_count now ((jti, exp) ∷ rest) =
    if leb exp now then live_count now rest else suc (live_count now rest)

module _ {S : Type 0} where
  run_all-append :
      (cs ds : List (S → Option (Unit {0}) × S)) (s : S)
      → run_all (cs ++ ds) s ≡ run_all ds (run_all cs s)
  unfolding run_all
  run_all-append [] ds s = refl
  run_all-append (c ∷ cs) ds s = run_all-append cs ds (c s).1

  all_reply-append :
      (cs ds : List (S → Option (Unit {0}) × S)) (s : S)
      → all_reply (cs ++ ds) s ≡ (all_reply cs s && all_reply ds (run_all cs s))
  unfolding all_reply run_all
  all_reply-append [] ds s = refl
  all_reply-append (c ∷ cs) ds s = ground (arith, all_reply-append cs ds (c s).1)

module _ (r : Store) (lawful : IsLawful r) (user_id reason : String) (admin_id : Option String)
    (now : ℕ) where
  abbrev commands : List (String × ℕ) → List (Command r)
  commands l = (batch r user_id reason admin_id now l).0

  abbrev info : Value
  unfolding metadata_dict
  info = document (metadata_dict user_id reason now admin_id)

  -- The two commands for one token.
  abbrev first_set : String → ℕ → r.State → r.State
  first_set jti exp s = (r.setex (blacklist_key jti) (ttl_of now exp) one s).1

  abbrev both_set : String → ℕ → r.State → r.State
  both_set jti exp s = (r.setex (metadata_key jti) (ttl_of now exp) info (first_set jti exp s)).1

  both_set_up :
      (jti : String) (exp : ℕ) (s : r.State) → r.up s ≡ true → r.up (both_set jti exp s) ≡ true
  both_set_up jti exp s up =
      lawful.setex_up (metadata_key jti) (ttl_of now exp) info (first_set jti exp s)
      ∙ lawful.setex_up (blacklist_key jti) (ttl_of now exp) one s
      ∙ up

  both_set_lookup :
      (jti j : String) (exp : ℕ) (s : r.State)
      → r.up s ≡ true
      → r.lookup (both_set jti exp s) (blacklist_key j)
        ≡ (if jti == j then some (one, ttl_of now exp) else r.lookup s (blacklist_key j))
  both_set_lookup jti j exp s up = ground (
    arith,
    lawful.setex_lookup (metadata_key jti) (blacklist_key j) (ttl_of now exp) info
        (first_set jti exp s),
    metadata-apart_blacklist jti j,
    lawful.setex_lookup (blacklist_key jti) (blacklist_key j) (ttl_of now exp) one s up,
    lawful.setex_up (blacklist_key jti) (ttl_of now exp) one s,
    blacklist_key_eq jti j,
    ttl_pos now exp,
  )

  both_set_free :
      (jti : String) (exp : ℕ) (s : r.State)
      → r.up s ≡ true
      → r.lookup (both_set jti exp s) (user_tokens_key user_id)
        ≡ r.lookup s (user_tokens_key user_id)
  both_set_free jti exp s up = ground (
    arith,
    lawful.setex_lookup (metadata_key jti) (user_tokens_key user_id) (ttl_of now exp) info
        (first_set jti exp s),
    metadata-apart_user_tokens jti user_id,
    blacklist-apart_user_tokens jti user_id,
    lawful.setex_lookup (blacklist_key jti) (user_tokens_key user_id) (ttl_of now exp) one s up,
    lawful.setex_up (blacklist_key jti) (ttl_of now exp) one s,
    ttl_pos now exp,
  )

  both_set_members :
      (jti j : String) (exp : ℕ) (s : r.State)
      → r.up s ≡ true
      → r.members s (blacklist_key j) ≡ []
      → r.members (both_set jti exp s) (blacklist_key j) ≡ []
  both_set_members jti j exp s up e = ground (
    arith,
    lawful.setex_members (metadata_key jti) (blacklist_key j) (ttl_of now exp) info
        (first_set jti exp s),
    metadata-apart_blacklist jti j,
    lawful.setex_members (blacklist_key jti) (blacklist_key j) (ttl_of now exp) one s up,
    lawful.setex_up (blacklist_key jti) (ttl_of now exp) one s,
    ttl_pos now exp,
  )

  -- What holds once the commands of the loop are through.
  record IsBatched (l : List (String × ℕ)) (s s' : r.State) : Type 0 where
    still_up : r.up s' ≡ true
    no_text : r.lookup s' (user_tokens_key user_id) ≡ r.lookup s (user_tokens_key user_id)
    entries :
        (j : String)
        → is_there (r.lookup s' (blacklist_key j))
          ≡ (live_in now j l || is_there (r.lookup s (blacklist_key j)))
    no_set : (j : String) → r.members s (blacklist_key j) ≡ [] → r.members s' (blacklist_key j) ≡ []

  commands_past :
      (jti : String) (exp : ℕ) (rest : List (String × ℕ))
      → leb exp now ≡ true
      → commands ((jti, exp) ∷ rest) ≡ commands rest
  unfolding batch
  commands_past jti exp rest past = ground arith

  commands_live :
      (jti : String) (exp : ℕ) (rest : List (String × ℕ))
      → leb exp now ≡ false
      → commands ((jti, exp) ∷ rest)
        ≡ r.setex (blacklist_key jti) (ttl_of now exp) one
          ∷ r.setex (metadata_key jti) (ttl_of now exp) info
          ∷ commands rest
  unfolding batch
  commands_live jti exp rest live = ground arith

  batch_runs :
      (l : List (String × ℕ)) (s : r.State) → r.up s ≡ true → IsBatched l s (run_all (commands l) s)
  unfolding run_all
  batch_runs [] s up =
      unfold batch in
      record { still_up = up; no_text = refl; entries = λ j. refl; no_set = λ j e. e }
  batch_runs ((jti, exp) ∷ rest) s up = elim (Bool-cases (leb exp now)) [
    | inl past ↦
        let h = batch_runs rest s up in
        rw (commands_past jti exp rest past) (record {
          still_up = h.still_up;
          no_text = h.no_text;
          entries = λ j. ground (arith, h.entries j);
          no_set = h.no_set;
        })
    | inr live ↦
        let h = batch_runs rest (both_set jti exp s) (both_set_up jti exp s up) in
        rw (commands_live jti exp rest live) (record {
          still_up = h.still_up;
          no_text = h.no_text ∙ both_set_free jti exp s up;
          entries = λ j. ground (arith, h.entries j, both_set_lookup jti j exp s up);
          no_set = λ j e. h.no_set j (both_set_members jti j exp s up e);
        })
  ]

  batch_reply :
      (l : List (String × ℕ)) (s : r.State) → r.up s ≡ true → all_reply (commands l) s ≡ true
  unfolding all_reply
  batch_reply [] s up = unfold batch in refl
  batch_reply ((jti, exp) ∷ rest) s up = elim (Bool-cases (leb exp now)) [
    | inl past ↦ rw (commands_past jti exp rest past) (batch_reply rest s up)
    | inr live ↦ rw (commands_live jti exp rest live) (
        ground (
          arith,
          batch_reply rest (both_set jti exp s) (both_set_up jti exp s up),
          lawful.setex_reply (blacklist_key jti) (ttl_of now exp) one s up (ttl_pos now exp),
          lawful.setex_reply (metadata_key jti) (ttl_of now exp) info (first_set jti exp s)
              (lawful.setex_up (blacklist_key jti) (ttl_of now exp) one s ∙ up) (ttl_pos now exp),
        ))
  ]

  batch_count :
      (l : List (String × ℕ)) → (batch r user_id reason admin_id now l).1 ≡ live_count now l
  unfolding batch
  batch_count [] = refl
  batch_count ((jti, exp) ∷ rest) = ground (arith, batch_count rest)

  -- The state that `execute` leaves.
  abbrev after_loop : List (String × ℕ) → r.State → r.State
  after_loop l s = run_all (commands l) s

  abbrev after_index : List (String × ℕ) → r.State → r.State
  after_index l s =
      run_all (index_commands r user_id l now (batch r user_id reason admin_id now l).1)
        (after_loop l s)

  execute_runs :
      (l : List (String × ℕ)) (s : r.State)
      → r.up s ≡ true
      → r.lookup s (user_tokens_key user_id) ≡ none
      → r.execute
          (commands l ++ index_commands r user_id l now (batch r user_id reason admin_id now l).1)
          s
        ≡ (some tt, after_index l s)
  execute_runs l s up free =
      let h = batch_runs l s up in
      let n = (batch r user_id reason admin_id now l).1 in
      let index = index_commands r user_id l now n in
      lawful.execute_lem (commands l ++ index) s up
      ∙ rw
          (
            all_reply-append (commands l) index s,
            run_all-append (commands l) index s,
            batch_reply l s up,
            index_reply r lawful user_id now l n (after_loop l s) h.still_up (h.no_text ∙ free),
          )
          refl

  revoke_all_runs :
      (l : List (String × ℕ)) (s : r.State)
      → r.up s ≡ true
      → r.lookup s (user_tokens_key user_id) ≡ none
      → revoke_all_user_tokens r user_id reason admin_id now l s
        ≡ (some (live_count now l), after_index l s)
  unfolding revoke_all_user_tokens
  revoke_all_runs [] s up free = unfold batch index_commands run_all in refl
  revoke_all_runs ((jti, exp) ∷ rest) s up free =
      ground (arith, execute_runs ((jti, exp) ∷ rest) s up free, batch_count ((jti, exp) ∷ rest))

  -- While the server answers, and holds sets under no blacklist key and no text under the key of
  -- the user's set: `revoke_all_user_tokens` answers the number of entries of its list that have not
  -- expired. Then a token is reported as revoked exactly if the list has it with an expiry to come,
  -- or it was reported so before.
  pub all_live_revoked :
      (l : List (String × ℕ)) (j : String) (s : r.State)
      → r.up s ≡ true
      → r.lookup s (user_tokens_key user_id) ≡ none
      → r.members s (blacklist_key j) ≡ []
      → (was : Bool) → (is_token_revoked r j s).0 ≡ some was
      → ((revoke_all_user_tokens r user_id reason admin_id now l s).0 ≡ some (live_count now l))
        × ((is_token_revoked r j (revoke_all_user_tokens r user_id reason admin_id now l s).1).0
            ≡ some (live_in now j l || was))
  unfolding is_token_revoked
  all_live_revoked l j s up free none_set was before =
      let h = batch_runs l s up in
      let n = (batch r user_id reason admin_id now l).1 in
      rw (revoke_all_runs l s up free) (
        refl,
        ground (
          arith,
          h.entries j,
          lawful.exists_lem (blacklist_key j) s up,
          lawful.exists_lem (blacklist_key j) (after_index l s)
              (index_up r lawful user_id now l n (after_loop l s) h.still_up),
          index_lookup r lawful user_id now l n (after_loop l s) j h.still_up,
          index_members r lawful user_id now l n (after_loop l s) j (h.no_set j none_set),
        ),
      )
