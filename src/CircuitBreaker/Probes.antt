-- ===== src/CircuitBreaker/Probes.antt =====
-- CircuitBreaker.hpp: how many calls a breaker lets through once its open duration is over.
use distributed_notification.Base.{
  ℕ, ◌-◌, ◌≡◌, refl, true, false, List, [], ◌∷◌, arith, length, replicate,
}
use distributed_notification.CircuitBreaker.{
  CircuitBreaker, opened, half_open, allow_request, elapsed_at_least,
}
use distributed_notification.CircuitBreaker.Runs.{request_all}

-- A half-open breaker whose probe flag is set refuses every request, at any times, and stays as it
-- was: only a reported outcome changes it.
pub probing_refuses :
    (b : CircuitBreaker) (ts : List ℕ)
    → b.state ≡ half_open
    → b.probe_in_flight ≡ true
    → request_all b ts ≡ (b, replicate (length ts) false)
unfolding request_all
probing_refuses b [] s p = refl
probing_refuses b (t ∷ ts) s p = ground (arith, refused, probing_refuses b ts s p)
  where
    refused : allow_request b t ≡ (b, false)
    refused = unfold allow_request in ground arith

-- An open breaker with no probe marked, asked first when its open duration is over, lets exactly
-- the first two requests through, whatever the times of the later ones, until an outcome is
-- reported. (The move to half open does not set the probe flag.)
pub two_probes :
    (b : CircuitBreaker) (t u : ℕ) (ts : List ℕ)
    → b.state ≡ opened
    → b.probe_in_flight ≡ false
    → elapsed_at_least (t - b.opened_at) b.open_duration ≡ true
    → request_all b (t ∷ u ∷ ts) ≡ (
      record b { state = half_open; probe_in_flight = true },
      true ∷ true ∷ replicate (length ts) false,
    )
unfolding request_all allow_request
two_probes b t u ts s p e =
    ground
      (arith, probing_refuses (record b { state = half_open; probe_in_flight = true }) ts refl refl)
