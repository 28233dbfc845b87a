-- ===== src/CircuitBreaker/Tripping.antt =====
-- CircuitBreaker.hpp: when a breaker opens, and what it answers while it is open.
use distributed_notification.Base.{
  ℕ, suc, ◌+◌, ◌-◌, ◌*◌, ◌≤◌, ◌<◌, ◌≡◌, refl, pos, false, List, [], ◌∷◌, arith, All, length,
  replicate, ◌==◌, if◌then◌else◌,
}
use distributed_notification.CircuitBreaker.{
  CircuitBreaker, closed, opened, allow_request, on_success, on_failure,
}
use distributed_notification.CircuitBreaker.Runs.{fail_all, request_all}

-- Closed, with n failures counted towards the threshold k + 1.
record Counts (k n : ℕ) (b : CircuitBreaker) : Type 0 where
  is_closed : b.state ≡ closed
  threshold : b.failure_threshold ≡ pos (suc k)
  count : b.failure_count ≡ n

on_failure-Counts :
    (k n : ℕ) (b : CircuitBreaker) (t : ℕ)
    → n < k
    → Counts k n b
    → Counts k (suc n) (on_failure b t)
unfolding on_failure
on_failure-Counts k n b t h v = ground arith

fail_all-Counts :
    (k n : ℕ) (b : CircuitBreaker) (ts : List ℕ)
    → n + length ts ≤ k
    → Counts k n b
    → Counts k (n + length ts) (fail_all b ts)
unfolding fail_all
fail_all-Counts k n b [] h v = ground arith
fail_all-Counts k n b (t ∷ ts) h v =
    let ih =
      fail_all-Counts k (suc n) (on_failure b t) ts (omega arith)
        (on_failure-Counts k n b t (omega arith) v) in
    ground (arith, ih)

on_failure_at :
    (k n : ℕ) (b : CircuitBreaker) (t : ℕ)
    → n ≤ k
    → Counts k n b
    → (on_failure b t).state ≡ (if n == k then opened else closed)
unfolding on_failure
on_failure_at k n b t h v = ground arith

-- A breaker with threshold k + 1, in any state, reports a success and then at most k failures: it
-- is closed and has counted each of them. One more failure opens it exactly if there were k.
pub trips_at_threshold :
    (k : ℕ) (b : CircuitBreaker) (ts : List ℕ) (t : ℕ)
    → b.failure_threshold ≡ pos (suc k)
    → length ts ≤ k
    → let c = fail_all (on_success b) ts in
      (c.state ≡ closed)
      × (c.failure_count ≡ length ts)
      × ((on_failure c t).state ≡ (if length ts == k then opened else closed))
unfolding on_success
trips_at_threshold k b ts t e h =
    let v =
      fail_all-Counts k 0 (on_success b) ts (omega arith)
        (record { is_closed = refl; threshold = e; count = refl }) in
    let v' : Counts k (length ts) (fail_all (on_success b) ts) = ground (arith, v) in
    (v'.is_closed, v'.count, on_failure_at k (length ts) (fail_all (on_success b) ts) t h v')

refuses_one :
    (b : CircuitBreaker) (ms t : ℕ)
    → b.state ≡ opened
    → b.open_duration ≡ pos ms
    → t - b.opened_at < ms * 1000000
    → allow_request b t ≡ (b, false)
unfolding allow_request
refuses_one b ms t o d h = ground arith

-- An open breaker refuses every request that comes before its open duration is over, and stays as
-- it was.
pub fails_fast :
    (b : CircuitBreaker) (ms : ℕ) (ts : List ℕ)
    → b.state ≡ opened
    → b.open_duration ≡ pos ms
    → All (λ t. t - b.opened_at < ms * 1000000) ts
    → request_all b ts ≡ (b, replicate (length ts) false)
unfolding request_all
fails_fast b ms [] o d h = refl
fails_fast b ms (t ∷ ts) o d h =
    ground (arith, refuses_one b ms t o d h.0, fails_fast b ms ts o d h.1)
