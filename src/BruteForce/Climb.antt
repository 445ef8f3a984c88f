-- ===== src/BruteForce/Climb.antt =====
-- The counters of a user name that fails from any address, while every address has failed with it only.
use codelab_auth_service.Common.{
  ℕ, suc, ◌-◌, ◌≤◌, ◌<◌, String, ◌≡◌, ◌∙◌, Bool-cases, inl, inr, true, false, not, ◌&&◌, none, some,
  arith, leb, eqb, eq_refl, eq-false_of_ne, if◌then◌else◌,
}
use codelab_auth_service.Redis.Interface.{Redis, IsLawful, count_of}
use codelab_auth_service.Settings.{Settings}
use codelab_auth_service.BruteForce.{
  is_locked_out, record_failed_attempt, failed_username_key, failed_ip_key, reaches,
}
use codelab_auth_service.BruteForce.Keys.{keys_apart}
use codelab_auth_service.BruteForce.Counts.{record_peek, record_up}
use codelab_auth_service.BruteForce.Lockout.{locked_by_counts}

module _ (r : Redis) (lawful : IsLawful r) (settings : Settings) (u : String) where
  -- The user name has `n` failures, the first of which expires in `left` seconds, and no address has
  -- more.
  pub record IsClimb (n left : ℕ) (s : r.State) : Type 0 where
    pub is_up : r.up s ≡ true
    pub named :
        r.peek s (failed_username_key u)
        ≡ (if eqb n 0 then none else some (record { count = n; ttl = some left }))
    pub fresh : (eqb n 0 && not (eqb left settings.brute_force_lockout_duration)) ≡ false
    pub bounded : (i : String) → reaches (count_of (r.peek s (failed_ip_key i))) (suc n) ≡ false

  pub lock_up :
      (i : String) (s : r.State) → r.up s ≡ true → r.up (is_locked_out r settings u i s).1 ≡ true
  unfolding is_locked_out
  lock_up i s up =
      let s1 = (r.get (failed_username_key u) s).1 in
      let s2 = (r.get (failed_ip_key i) s1).1 in
      ground (
        arith,
        lawful.get_up (failed_username_key u) s,
        lawful.get_up (failed_ip_key i) s1,
        lawful.ttl_up (failed_username_key u) s1,
        lawful.ttl_up (failed_ip_key i) s2,
      )

  pub lock_peek :
      (i k : String) (s : r.State) → r.peek (is_locked_out r settings u i s).1 k ≡ r.peek s k
  unfolding is_locked_out
  lock_peek i k s =
      let s1 = (r.get (failed_username_key u) s).1 in
      let s2 = (r.get (failed_ip_key i) s1).1 in
      ground (
        arith,
        lawful.get_peek (failed_username_key u) k s,
        lawful.get_peek (failed_ip_key i) k s1,
        lawful.ttl_peek (failed_username_key u) k s1,
        lawful.ttl_peek (failed_ip_key i) k s2,
      )

  -- On such counters the threshold alone decides.
  pub locked-IsClimb :
      (i : String) (n left : ℕ) (s : r.State)
      → 0 < settings.brute_force_threshold
      → n ≤ settings.brute_force_threshold
      → IsClimb n left s
      → (is_locked_out r settings u i s).0.0 ≡ leb settings.brute_force_threshold n
  locked-IsClimb i n left s some_needed most c =
      ground (arith, locked_by_counts r lawful settings u i s c.is_up, c.named, c.bounded i)

  lock-IsClimb :
      (i : String) (n left : ℕ) (s : r.State)
      → IsClimb n left s
      → IsClimb n left (is_locked_out r settings u i s).1
  lock-IsClimb i n left s c = record {
    is_up = lock_up i s c.is_up;
    named = lock_peek i (failed_username_key u) s ∙ c.named;
    fresh = c.fresh;
    bounded = λ j. rw (lock_peek i (failed_ip_key j) s) (c.bounded j);
  }

  wait-IsClimb :
      (d n left : ℕ) (s : r.State)
      → 0 < n
      → d < left
      → IsClimb n left s
      → IsClimb n (left - d) (r.wait d s)
  wait-IsClimb d n left s some_failed lt c = record {
    is_up = lawful.wait_up d s ∙ c.is_up;
    named = ground (arith, lawful.wait_peek d (failed_username_key u) s, c.named);
    fresh = ground arith;
    bounded = λ j. ground (arith, lawful.wait_peek d (failed_ip_key j) s, c.bounded j);
  }

  record-IsClimb :
      (i : String) (n left : ℕ) (s : r.State)
      → 0 < settings.brute_force_lockout_duration
      → IsClimb n left s
      → IsClimb (suc n) left (record_failed_attempt r settings u i s).1
  record-IsClimb i n left s pos c = record {
    is_up = record_up r lawful settings u i s c.is_up;
    named = ground (
      arith,
      record_peek r lawful settings u i s c.is_up (failed_username_key u) pos,
      eq_refl (failed_username_key u),
      c.named,
      c.fresh,
    );
    fresh = ground arith;
    bounded = λ j. ground (
      arith,
      record_peek r lawful settings u i s c.is_up (failed_ip_key j) pos,
      eq-false_of_ne (failed_username_key u) (failed_ip_key j) (keys_apart u j),
      c.bounded j,
    );
  }

  -- One attempt, which is recorded unless it is locked out, and the seconds after it.
  pub step-IsClimb :
      (i : String) (d n left : ℕ) (s : r.State)
      → 0 < settings.brute_force_lockout_duration
      → 0 < settings.brute_force_threshold
      → n ≤ settings.brute_force_threshold
      → d < left
      → IsClimb n left s
      → let lock = is_locked_out r settings u i s in
        let s' = if lock.0.0 then lock.1 else (record_failed_attempt r settings u i lock.1).1 in
        IsClimb (if leb settings.brute_force_threshold n then n else suc n) (left - d) (r.wait d s')
  step-IsClimb i d n left s pos some_needed most lt c =
      let lock = is_locked_out r settings u i s in
      let locked = locked-IsClimb i n left s some_needed most c in
      let c' = lock-IsClimb i n left s c in
      elim (Bool-cases (leb settings.brute_force_threshold n)) [
        | inl many ↦ rw (locked, many) (wait-IsClimb d n left lock.1 (ground arith) lt c')
        | inr few ↦
            rw (locked, few)
              (wait-IsClimb d (suc n) left (record_failed_attempt r settings u i lock.1).1
                (ground arith) lt (record-IsClimb i n left lock.1 pos c'))
      ]
