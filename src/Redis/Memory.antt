-- ===== src/Redis/Memory.antt =====
-- A server in memory that meets the laws, on which the tests run.
use codelab_auth_service.Common.{
  String, refl, Bool, true, Option, none, some, arith, ◌==◌, if◌then◌else◌,
}
use codelab_auth_service.Redis.Interface.{
  Counter, Redis, IsLawful, increased, expiring, later, count_of, listed,
}

pub record Cells : Type 0 where
  pub cell : String → Option Counter
  pub reachable : Bool

abbrev write : (String → Option Counter) → String → Option Counter → String → Option Counter
write f k c j = if k == j then c else f j

abbrev pub memory : Redis
memory = record {
  State = Cells;
  incr = λ k s.
      if s.reachable
      then (
        some (increased (s.cell k)).count,
        record s { cell = write s.cell k (some (increased (s.cell k))) },
      )
      else (none, s);
  expire = λ k d s.
      if s.reachable
      then (some tt, record s { cell = write s.cell k (expiring d (s.cell k)) })
      else (none, s);
  get = λ k s. if s.reachable then (some (count_of (s.cell k)), s) else (none, s);
  ttl = λ k s. if s.reachable then (some "some", s) else (none, s);
  delete = λ ks s.
      if s.reachable
      then (some tt, record s { cell = λ j. if listed j ks then none else s.cell j })
      else (none, s);
  peek = λ s k. s.cell k;
  up = λ s. s.reachable;
  wait = λ d s. record s { cell = λ j. later d (s.cell j) };
}

pub memory-IsLawful : IsLawful memory
memory-IsLawful = record {
  incr_reply = λ k s h. ground arith;
  incr_peek = λ k j s h. ground arith;
  incr_up = λ k s. ground arith;
  expire_reply = λ k d s h. ground arith;
  expire_peek = λ k j d s h pos. ground arith;
  expire_up = λ k d s. ground arith;
  get_reply = λ k s h. ground arith;
  get_peek = λ k j s. ground arith;
  get_up = λ k s. ground arith;
  ttl_peek = λ k j s. ground arith;
  ttl_up = λ k s. ground arith;
  ttl_reply = λ k s h. ground arith;
  delete_reply = λ ks s h. ground arith;
  delete_peek = λ ks j s h. ground arith;
  delete_up = λ ks s. ground arith;
  wait_peek = λ d j s. refl;
  wait_up = λ d s. refl;
}

abbrev pub fresh : Cells
fresh = record { cell = λ k. none; reachable = true }
