-- ===== src/BruteForce/Lockout.antt =====
-- When a username and an address are locked out.
use codelab_auth_service.Common.{
  ◌⊎◌, ℕ, ◌*◌, ◌≤◌, ◌<◌, String, ◌≡◌, ◌≢◌, sym, ◌∙◌, true, false, ◌||◌, none, some, [], ◌∷◌, arith,
  leb, eq_refl, eq_iff, eq-false_of_ne,
}
use codelab_auth_service.Redis.Interface.{Redis, IsLawful, count_of}
use codelab_auth_service.Settings.{Settings}
use codelab_auth_service.BruteForce.{
  is_locked_out, reset_failed_attempts, failed_username_key, failed_ip_key, reaches,
}
use codelab_auth_service.BruteForce.Keys.{
  Failures, elapsed, failures_of_username, failures_of_ip, hits_username, hits_ip, keys_apart,
  failed_username_key_eq, failed_ip_key_eq,
}
use codelab_auth_service.BruteForce.Counts.{record_all, record_all_up, reaches-hits}

module _ (r : Redis) (lawful : IsLawful r) (settings : Settings) where
  pub locked_by_counts :
      (u i : String) (s : r.State)
      → r.up s ≡ true
      → (is_locked_out r settings u i s).0.0 ≡ (
          reaches (count_of (r.peek s (failed_username_key u))) settings.brute_force_threshold
          || reaches (count_of (r.peek s (failed_ip_key i))) (settings.brute_force_threshold * 2))
  unfolding is_locked_out
  locked_by_counts u i s up =
      let s1 = (r.get (failed_username_key u) s).1 in
      let up1 : r.up s1 ≡ true = lawful.get_up (failed_username_key u) s ∙ up in
      let s2 = (r.get (failed_ip_key i) s1).1 in
      let up2 : r.up s2 ≡ true = lawful.get_up (failed_ip_key i) s1 ∙ up1 in
      ground (
        arith,
        lawful.get_reply (failed_username_key u) s up,
        lawful.get_peek (failed_username_key u) (failed_ip_key i) s,
        lawful.get_reply (failed_ip_key i) s1 up1,
        lawful.ttl_reply (failed_username_key u) s1 up1,
        lawful.ttl_reply (failed_ip_key i) s2 up2,
      )

  -- While the server answers, within the lockout duration after a time when neither key had a
  -- counter: a username and an address are locked out exactly if the recorded failures of the
  -- username, from any address, reach the threshold, or those of the address, with any username,
  -- reach twice the threshold.
  pub locked_out_iff :
      (u i : String) (h : Failures) (s : r.State)
      → r.up s ≡ true
      → 0 < settings.brute_force_lockout_duration
      → 0 < settings.brute_force_threshold
      → r.peek s (failed_username_key u) ≡ none
      → r.peek s (failed_ip_key i) ≡ none
      → elapsed h < settings.brute_force_lockout_duration
      → (is_locked_out r settings u i (record_all r settings h s)).0.0 ≡ (
          leb settings.brute_force_threshold (failures_of_username u h)
          || leb (settings.brute_force_threshold * 2) (failures_of_ip i h))
  locked_out_iff u i h s up pos some_needed eu ei lt = ground (
    arith,
    locked_by_counts u i (record_all r settings h s) (record_all_up r lawful settings h s up),
    reaches-hits r lawful settings (failed_username_key u) h settings.brute_force_threshold s up pos
        some_needed eu lt,
    reaches-hits r lawful settings (failed_ip_key i) h (settings.brute_force_threshold * 2) s up pos
        (omega arith) ei lt,
    hits_username u h,
    hits_ip i h,
  )

  -- While the server answers, a reset unlocks the username and the address, and leaves the
  -- counters of every other username and address as they were.
  pub reset_unlocks :
      (u i : String) (s : r.State)
      → r.up s ≡ true
      → let s' = (reset_failed_attempts r u i s).1 in
        ((is_locked_out r settings u i s').0 ≡ (false, none))
        × ((v : String)
            → v ≢ u
            → r.peek s' (failed_username_key v) ≡ r.peek s (failed_username_key v))
        × ((j : String) → j ≢ i → r.peek s' (failed_ip_key j) ≡ r.peek s (failed_ip_key j))
  unfolding reset_failed_attempts is_locked_out
  reset_unlocks u i s up =
      let uk = failed_username_key u in
      let ik = failed_ip_key i in
      let s' = (r.delete (uk ∷ ik ∷ []) s).1 in
      let up' : r.up s' ≡ true = lawful.delete_up (uk ∷ ik ∷ []) s ∙ up in
      let s'' = (r.get uk s').1 in
      let up'' : r.up s'' ≡ true = lawful.get_up uk s' ∙ up' in
      (
        ground (
          arith,
          lawful.get_reply uk s' up',
          lawful.get_peek uk ik s',
          lawful.get_reply ik s'' up'',
          lawful.delete_peek (uk ∷ ik ∷ []) uk s up,
          lawful.delete_peek (uk ∷ ik ∷ []) ik s up,
          eq_refl uk,
          eq_refl ik,
        ),
        λ v ne. ground (
          arith,
          lawful.delete_peek (uk ∷ ik ∷ []) (failed_username_key v) s up,
          failed_username_key_eq v u,
          eq_iff v u,
          eq-false_of_ne (failed_username_key v) ik (keys_apart v i),
        ),
        λ j ne. ground (
          arith,
          lawful.delete_peek (uk ∷ ik ∷ []) (failed_ip_key j) s up,
          failed_ip_key_eq j i,
          eq_iff j i,
          eq-false_of_ne (failed_ip_key j) uk (λ e. keys_apart u j (sym e)),
        ),
      )

-- For any server: a lockout rests on a reply that reaches the threshold, for the username, or
-- twice the threshold, for the address; a command that raises locks nobody out.
pub locked_out_needs_count :
    (r : Redis) (settings : Settings) (u i : String) (s : r.State)
    → (is_locked_out r settings u i s).0.0 ≡ true
    → ((n : ℕ) × ((r.get (failed_username_key u) s).0 ≡ some (some n))
        × (settings.brute_force_threshold ≤ n))
      ⊎ ((n : ℕ) × ((r.get (failed_ip_key i) (r.get (failed_username_key u) s).1).0 ≡ some (some n))
          × (settings.brute_force_threshold * 2 ≤ n))
unfolding is_locked_out
locked_out_needs_count r settings u i s h = ground arith
