-- ===== src/CircuitBreaker/Runs.antt =====
-- CircuitBreaker.hpp under a sequence of timed calls, in the order in which the mutex admits them.
use distributed_notification.Base.{ℕ, Bool, List, [], ◌∷◌}
use distributed_notification.CircuitBreaker.{CircuitBreaker, allow_request, on_success, on_failure}

pub data Call : Type 0 where
  requests succeeds fails : Call

unfoldable pub step : CircuitBreaker → ℕ × Call → CircuitBreaker
step b (now, requests) = (allow_request b now).0
step b (now, succeeds) = on_success b
step b (now, fails) = on_failure b now

unfoldable pub run : CircuitBreaker → List (ℕ × Call) → CircuitBreaker
run b [] = b
run b (c ∷ cs) = run (step b c) cs

-- Failures reported at the given times, with no other call between them.
unfoldable pub fail_all : CircuitBreaker → List ℕ → CircuitBreaker
fail_all b [] = b
fail_all b (t ∷ ts) = fail_all (on_failure b t) ts

-- Requests at the given times, and the answers to them.
unfoldable pub request_all : CircuitBreaker → List ℕ → CircuitBreaker × List Bool
request_all b [] = (b, [])
request_all b (t ∷ ts) =
    let (b', allowed) = allow_request b t in
    let (b'', rest) = request_all b' ts in (b'', allowed ∷ rest)
