-- ===== src/Supervision/Examples.antt =====
-- Runs of the model of crates/walastack-runtime/src/supervision.rs on small inputs.
use walastack_rs.Base.{
  ◌+◌, ◌*◌, ◌≤◌, min, max, String, ◌≡◌, true, false, List, [], ◌∷◌, ◌++◌, arith, ltb, nat_eq,
  nat_keys, string_keys, count, Result, ok,
}
use walastack_rs.Scheduler.Backoff.{Floats, linear}
use walastack_rs.Supervision.Watcher.{one_shot, on_failure, Exit, panicked, Turn, supervise}
use walastack_rs.Supervision.Restarts.{is_start, supervise_restarts_bounded, supervise_ends}

-- A linear backoff uses none of these.
abbrev pub no_floats : Floats
no_floats = record {
  of_int = λ n. n;
  float_zero = 0;
  float_one = 0;
  float_max = max;
  float_min = min;
  clamp = λ x lo hi. x;
  add = ◌+◌;
  mul = ◌*◌;
  div = λ a b. 0;
  powi = λ x n. x;
  is_finite = λ x. true;
  float_lt = ltb;
  float_eq = nat_eq;
  to_u64 = λ x. x;
}

abbrev pub turn : Exit → Result (Unit {0}) String → Turn
turn exit restart = record {
  shut_first = false;
  exit = exit;
  subsec = 0;
  shut_in_backoff = false;
  restart = restart;
}

abbrev panics : List Turn
panics =
    turn (panicked "a") (ok tt) ∷ turn (panicked "b") (ok tt) ∷ turn (panicked "c") (ok tt) ∷ []

supervise_restarts_bounded_example :
    (count is_start (supervise no_floats "cache" one_shot panics) ≡ 0)
    × (1 + count is_start (supervise no_floats "cache" (on_failure 3 (linear 10 5)) panics) ≤ 3)
supervise_restarts_bounded_example =
    supervise_restarts_bounded no_floats "cache" 3 (linear 10 5) panics (omega arith)

supervise_ends_example :
    (supervise no_floats "cache" one_shot (turn (panicked "z") (ok tt) ∷ panics)
      ≡ supervise no_floats "cache" one_shot (turn (panicked "z") (ok tt) ∷ []))
    × (supervise no_floats "cache" (on_failure 2 (linear 10 5)) (panics ++ panics)
        ≡ supervise no_floats "cache" (on_failure 2 (linear 10 5)) panics)
supervise_ends_example =
    supervise_ends no_floats "cache" 2 (linear 10 5) (turn (panicked "z") (ok tt)) panics panics
      (omega arith) (omega arith)
