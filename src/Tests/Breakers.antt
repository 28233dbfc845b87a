-- ===== src/Tests/Breakers.antt =====
-- The circuit breaker and the router at concrete inputs.
use distributed_notification.Base.{ℕ, ◌≡◌, refl, pos, true, false, List, [], ◌∷◌, arith, All}
use distributed_notification.Enums.{email, sms}
use distributed_notification.CircuitBreaker.{
  closed, opened, half_open, new, allow_request, on_success, on_failure,
}
use distributed_notification.CircuitBreaker.Runs.{
  Call, requests, fails, step, run, fail_all, request_all,
}
use distributed_notification.CircuitBreaker.Invariant.{IsWellFormed, new-run-IsWellFormed}
use distributed_notification.CircuitBreaker.Tripping.{trips_at_threshold, fails_fast}
use distributed_notification.CircuitBreaker.Probes.{two_probes}
use distributed_notification.Effects.{World}
use distributed_notification.ProviderRouter.{breaker, send}
use distributed_notification.ProviderRouter.Stuck.{
  IsRefused, send_each, rejected_probe_sticks, probed,
}
use distributed_notification.ProviderRouter.Isolation.{send-isolation}
use distributed_notification.Tests.Toy.{toy}
use distributed_notification.Tests.Worlds.{
  opened_breaker, trying_breaker, all_closed, order, start, times_out, rejects,
}

abbrev history : List (ℕ × Call)
history =
    (1, requests)
    ∷ (2, fails)
    ∷ (3, fails)
    ∷ (4, requests)
    ∷ (2000000, requests)
    ∷ (2000001, requests)
    ∷ []

-- Two failures open the breaker; a millisecond later it lets a probe through, and then another.
history_ends : (run (new (pos 2) (pos 1)) history).state ≡ half_open
unfolding run step new allow_request on_failure
history_ends = refl

new-run-IsWellFormed_example : IsWellFormed (pos 2) (run (new (pos 2) (pos 1)) history)
new-run-IsWellFormed_example = new-run-IsWellFormed (pos 2) (pos 1) history

trips_at_threshold_example :
    let c = fail_all (on_success opened_breaker) (9 ∷ []) in
    (c.state ≡ closed) × (c.failure_count ≡ 1) × ((on_failure c 10).state ≡ opened)
trips_at_threshold_example = trips_at_threshold 1 opened_breaker (9 ∷ []) 10 refl (omega arith)

fails_fast_example :
    request_all opened_breaker (6 ∷ 1000004 ∷ []) ≡ (opened_breaker, false ∷ false ∷ [])
fails_fast_example = fails_fast opened_breaker 1 (6 ∷ 1000004 ∷ []) refl refl (omega arith)

two_probes_example : request_all opened_breaker (1000005 ∷ 1000006 ∷ 1000007 ∷ []) ≡ (
  record opened_breaker { state = half_open; probe_in_flight = true },
  true ∷ true ∷ false ∷ [],
)
two_probes_example = two_probes opened_breaker 1000005 1000006 (1000007 ∷ []) refl refl refl

abbrev trying : World toy
trying = record start { breakers = record all_closed { sms = trying_breaker } }

rejected_probe_sticks_example :
    let v = (send toy rejects order trying).1 in
    let q = send_each toy rejects ((99000000, order) ∷ []) v in
    All (IsRefused sms) q.0 × (q.1 ≡ record v { now = 99000000 })
rejected_probe_sticks_example =
    rejected_probe_sticks toy rejects order trying (probed toy rejects sms trying) "rejected"
      ((99000000, order) ∷ []) refl refl refl refl (refl, tt)

send-isolation_example :
    breaker email (send toy times_out order start).1.breakers ≡ breaker email start.breakers
send-isolation_example = send-isolation toy times_out order start email (λ v. refl) (λ e. cc)
