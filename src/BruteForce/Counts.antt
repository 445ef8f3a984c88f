-- ===== src/BruteForce/Counts.antt =====
-- While the server answers, each key counts the failures that bear on it.
use codelab_auth_service.Common.{
  ℕ, suc, ◌+◌, ◌-◌, ◌<◌, String, ◌≡◌, ◌∙◌, true, none, some, [], ◌∷◌, arith, ◌==◌, leb, eqb,
  eq_refl, eq_iff, eq-false_of_ne, if◌then◌else◌,
}
use codelab_auth_service.Redis.Interface.{Redis, IsLawful, counted, count_of}
use codelab_auth_service.Settings.{Settings}
use codelab_auth_service.BruteForce.{
  record_failed_attempt, failed_username_key, failed_ip_key, reaches,
}
use codelab_auth_service.BruteForce.Keys.{Failures, elapsed, hits, keys_apart}

module _ (r : Redis) (settings : Settings) where
  unfoldable pub record_all : Failures → r.State → r.State
  record_all [] s = s
  record_all ((v, i, d) ∷ h) s = record_all h (r.wait d (record_failed_attempt r settings v i s).1)

module _ (r : Redis) (lawful : IsLawful r) (settings : Settings) where
  abbrev pub duration : ℕ
  duration = settings.brute_force_lockout_duration

  module _ (u i : String) (s : r.State) (up : r.up s ≡ true) where
    abbrev after_username : r.State
    after_username = (r.incr (failed_username_key u) s).1

    abbrev after_ip : r.State
    after_ip = (r.incr (failed_ip_key i) after_username).1

    pub record_up : r.up (record_failed_attempt r settings u i s).1 ≡ true
    unfolding record_failed_attempt
    record_up = ground (
      arith,
      lawful.incr_up (failed_username_key u) s,
      lawful.incr_up (failed_ip_key i) after_username,
      lawful.expire_up (failed_username_key u) duration after_ip,
      lawful.expire_up (failed_ip_key i) duration after_ip,
      lawful.expire_up (failed_ip_key i) duration
          (r.expire (failed_username_key u) duration after_ip).1,
    )

    pub record_peek :
        (k : String)
        → 0 < duration
        → r.peek (record_failed_attempt r settings u i s).1 k ≡ (
            if failed_username_key u == k
            then some (counted duration (r.peek s k))
            else if failed_ip_key i == k
            then some (counted duration (r.peek s k))
            else r.peek s k)
    unfolding record_failed_attempt
    record_peek k pos =
        let uk = failed_username_key u in
        let ik = failed_ip_key i in
        let s1 = after_username in
        let s2 = after_ip in
        let s3 = (r.expire uk duration s2).1 in
        let up1 : r.up s1 ≡ true = lawful.incr_up uk s ∙ up in
        let up2 : r.up s2 ≡ true = lawful.incr_up ik s1 ∙ up1 in
        let up3 : r.up s3 ≡ true = lawful.expire_up uk duration s2 ∙ up2 in
        ground (
          arith,
          lawful.incr_reply uk s up,
          lawful.incr_reply ik s1 up1,
          lawful.expire_reply uk duration s2 up2,
          lawful.incr_peek uk ik s up,
          lawful.incr_peek uk k s up,
          lawful.incr_peek ik k s1 up1,
          lawful.expire_peek uk k duration s2 up2 pos,
          lawful.expire_peek ik k duration s2 up2 pos,
          lawful.expire_peek ik k duration s3 up3 pos,
          lawful.expire_reply ik duration s2 up2,
          lawful.expire_reply ik duration s3 up3,
          eq-false_of_ne uk ik (keys_apart u i),
          eq_iff uk k,
          eq_iff ik k,
          eq_refl uk,
          eq_refl ik,
          keys_apart u i,
        )

  abbrev after_one : String → String → ℕ → r.State → r.State
  after_one u i d s = r.wait d (record_failed_attempt r settings u i s).1

  after_one_up :
      (u i : String) (d : ℕ) (s : r.State) → r.up s ≡ true → r.up (after_one u i d s) ≡ true
  after_one_up u i d s up = lawful.wait_up d _ ∙ record_up u i s up

  after_one_running :
      (u i k : String) (d : ℕ) (s : r.State) (n t : ℕ)
      → r.up s ≡ true
      → 0 < duration
      → r.peek s k ≡ some (record { count = suc n; ttl = some t })
      → d < t
      → r.peek (after_one u i d s) k
        ≡ some (record { count = suc (n + hits k ((u, i, d) ∷ [])); ttl = some (t - d) })
  after_one_running u i k d s n t up pos e lt = ground (
    arith,
    lawful.wait_peek d k (record_failed_attempt r settings u i s).1,
    record_peek u i s up k pos,
  )

  pub after_one_idle :
      (u i k : String) (d : ℕ) (s : r.State)
      → r.up s ≡ true
      → 0 < duration
      → r.peek s k ≡ none
      → d < duration
      → r.peek (after_one u i d s) k ≡ (
          if eqb (hits k ((u, i, d) ∷ [])) 0
          then none
          else some (record { count = 1; ttl = some (duration - d) }))
  after_one_idle u i k d s up pos e lt = ground (
    arith,
    lawful.wait_peek d k (record_failed_attempt r settings u i s).1,
    record_peek u i s up k pos,
  )

  pub record_all_up :
      (h : Failures) (s : r.State) → r.up s ≡ true → r.up (record_all r settings h s) ≡ true
  unfolding record_all
  record_all_up [] s up = up
  record_all_up ((u, i, d) ∷ h) s up = record_all_up h (after_one u i d s) (after_one_up u i d s up)

  record_all_running :
      (k : String) (h : Failures) (s : r.State) (n t : ℕ)
      → r.up s ≡ true
      → 0 < duration
      → r.peek s k ≡ some (record { count = suc n; ttl = some t })
      → elapsed h < t
      → r.peek (record_all r settings h s) k
        ≡ some (record { count = suc (n + hits k h); ttl = some (t - elapsed h) })
  unfolding record_all
  record_all_running k [] s n t up pos e lt = ground arith
  record_all_running k ((u, i, d) ∷ h) s n t up pos e lt = ground (
    arith,
    record_all_running k h (after_one u i d s) (n + hits k ((u, i, d) ∷ [])) (t - d)
        (after_one_up u i d s up) pos (after_one_running u i k d s n t up pos e (omega arith))
        (omega arith),
  )

  -- Within the lockout duration a key that had no counter reaches a threshold by its failures.
  pub reaches-hits :
      (k : String) (h : Failures) (threshold : ℕ) (s : r.State)
      → r.up s ≡ true
      → 0 < duration
      → 0 < threshold
      → r.peek s k ≡ none
      → elapsed h < duration
      → reaches (count_of (r.peek (record_all r settings h s) k)) threshold
        ≡ leb threshold (hits k h)
  unfolding record_all
  reaches-hits k [] threshold s up pos some_needed e lt = ground arith
  reaches-hits k ((u, i, d) ∷ h) threshold s up pos some_needed e lt =
      let s' = after_one u i d s in
      let up' : r.up s' ≡ true = after_one_up u i d s up in
      ground (
        arith,
        after_one_idle u i k d s up pos e,
        record_all_running k h s' 0 (duration - d) up' pos,
        reaches-hits k h threshold s' up' pos some_needed,
      )
