-- ===== src/CircuitBreaker/Invariant.antt =====
-- CircuitBreaker.hpp: what holds of a breaker after any calls.
use distributed_notification.Base.{
  ℕ, ◌≡◌, refl, ◌⊎◌, inl, ℤ, at_least, true, false, List, [], ◌∷◌, arith,
}
use distributed_notification.CircuitBreaker.{
  CircuitBreaker, half_open, new, allow_request, on_success, on_failure,
}
use distributed_notification.CircuitBreaker.Runs.{Call, requests, succeeds, fails, step, run}

-- The failures counted stay below the threshold, and a probe is in flight only when half open.
pub record IsWellFormed (threshold : ℤ) (b : CircuitBreaker) : Type 0 where
  pub same_threshold : b.failure_threshold ≡ threshold
  pub counted : (b.failure_count ≡ 0) ⊎ (at_least b.failure_count threshold ≡ false)
  pub probing : b.probe_in_flight ≡ true → b.state ≡ half_open

step-IsWellFormed :
    (k : ℤ) (b : CircuitBreaker) (c : ℕ × Call) → IsWellFormed k b → IsWellFormed k (step b c)
unfolding step allow_request on_success on_failure
step-IsWellFormed k b (now, requests) v = ground arith
step-IsWellFormed k b (now, succeeds) v = ground arith
step-IsWellFormed k b (now, fails) v = ground arith

pub run-IsWellFormed :
    (k : ℤ) (b : CircuitBreaker) (cs : List (ℕ × Call))
    → IsWellFormed k b
    → IsWellFormed k (run b cs)
unfolding run
run-IsWellFormed k b [] v = v
run-IsWellFormed k b (c ∷ cs) v = run-IsWellFormed k (step b c) cs (step-IsWellFormed k b c v)

new-IsWellFormed : (k d : ℤ) → IsWellFormed k (new k d)
unfolding new
new-IsWellFormed k d = record {
  same_threshold = refl;
  counted = inl refl;
  probing = λ e. ground arith;
}

-- After any calls on a new breaker, at any times: the failures counted are none or fewer than the
-- threshold, and a probe is marked in flight only in the half-open state.
pub new-run-IsWellFormed : (k d : ℤ) (cs : List (ℕ × Call)) → IsWellFormed k (run (new k d) cs)
new-run-IsWellFormed k d cs = run-IsWellFormed k (new k d) cs (new-IsWellFormed k d)
