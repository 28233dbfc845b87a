-- ===== src/ProviderRouter/Stuck.antt =====
-- src/ProviderRouter.cpp: what the router makes of the breakers.
use distributed_notification.Base.{
  ℕ, ◌≡◌, refl, sym, ◌∙◌, ap, true, false, String, ◌<>◌, List, [], ◌∷◌, arith, All, subst,
}
use distributed_notification.Enums.{Channel, email, sms, push, channel_to_string}
use distributed_notification.Models.{Notification}
use distributed_notification.Platform.{Platform}
use distributed_notification.CircuitBreaker.{CircuitBreaker, half_open, allow_request}
use distributed_notification.Provider.{Provider}
use distributed_notification.Effects.{
  World, Breakers, Exception, provider_exception, Outcome, throws,
}
use distributed_notification.ProviderRouter.{breaker, set_breaker, send}

abbrev pub open_exception : Channel → Exception
open_exception c =
    provider_exception ("circuit breaker open for channel " <> channel_to_string c) true

-- The breaker of channel c waits for the outcome of a probe.
abbrev pub IsProbing : Channel → Breakers → Type 0
IsProbing c bs = ((breaker c bs).state ≡ half_open) × ((breaker c bs).probe_in_flight ≡ true)

abbrev pub IsRefused : Channel → Outcome String → Type 0
IsRefused c r = r ≡ throws (open_exception c)

kept : (c : Channel) (bs : Breakers) → set_breaker c (breaker c bs) bs ≡ bs
kept email bs = refl
kept sms bs = refl
kept push bs = refl

breaker-set_breaker :
    (c : Channel) (b : CircuitBreaker) (bs : Breakers) → breaker c (set_breaker c b bs) ≡ b
breaker-set_breaker email b bs = refl
breaker-set_breaker sms b bs = refl
breaker-set_breaker push b bs = refl

abbrev pub last_time : List (ℕ × Notification) → ℕ → ℕ
last_time [] t = t
last_time ((t, m) ∷ ms) s = last_time ms t

module _ (P : Platform) (providers : Channel → Provider P) where
  -- Sends at the given times, and their outcomes.
  unfoldable pub send_each : List (ℕ × Notification) → World P → List (Outcome String) × World P
  send_each [] w = ([], w)
  send_each ((t, m) ∷ ms) w =
      let (r, v) = send P providers m (record w { now = t }) in
      let (rs, u) = send_each ms v in (r ∷ rs, u)

  refused-send :
      (m : Notification) (w : World P)
      → IsProbing m.channel w.breakers
      → send P providers m w ≡ (throws (open_exception m.channel), w)
  unfolding send allow_request
  refused-send m w h = ground (arith, h.0, h.1, kept m.channel w.breakers)

  -- While a channel's breaker waits for the outcome of a probe, every send on the channel, at any
  -- time, fails as transient, and nothing of the world changes but the time, which
  -- is that of the last.
  probing-send_each :
      (c : Channel) (ms : List (ℕ × Notification)) (w : World P)
      → IsProbing c w.breakers
      → All (λ m. m.1.channel ≡ c) ms
      → let (rs, v) = send_each ms w in
        All (IsRefused c) rs × (v ≡ record w { now = last_time ms w.now })
  unfolding send_each
  probing-send_each c [] w h a = (tt, refl)
  probing-send_each c ((t, m) ∷ ms) w h a =
      let x : World P = record w { now = t } in
      let e = refused-send m x (subst (λ (d : Channel). IsProbing d w.breakers) (sym a.0) h) in
      let ih = probing-send_each c ms x h a.1 in
      rw e ((ap (λ (d : Channel). throws (open_exception d)) a.0, ih.0), ih.1)

  -- The world in which the provider is called as the marked probe.
  abbrev pub probed : Channel → World P → World P
  probed c w = record w {
    breakers = set_breaker c (record (breaker c w.breakers) { probe_in_flight = true }) w.breakers;
  }

  rejected-send :
      (m : Notification) (w u : World P) (what : String)
      → (breaker m.channel w.breakers).state ≡ half_open
      → (breaker m.channel w.breakers).probe_in_flight ≡ false
      → providers m.channel m (probed m.channel w) ≡ (throws (provider_exception what false), u)
      → send P providers m w ≡ (throws (provider_exception what false), u)
  unfolding send allow_request
  rejected-send m w u what s p e = ground (arith, s, p, e)

  -- A half-open breaker lets a probe through. If the provider rejects it for good, and does not
  -- touch the breakers itself, then every later send on the channel, at any times, is refused as
  -- transient, and after all of them the world is as after the probe, with the time of the last.
  pub rejected_probe_sticks :
      (m : Notification) (w u : World P) (what : String) (ms : List (ℕ × Notification))
      → (breaker m.channel w.breakers).state ≡ half_open
      → (breaker m.channel w.breakers).probe_in_flight ≡ false
      → providers m.channel m (probed m.channel w) ≡ (throws (provider_exception what false), u)
      → u.breakers ≡ (probed m.channel w).breakers
      → All (λ later. later.1.channel ≡ m.channel) ms
      → let v = (send P providers m w).1 in
        let q = send_each ms v in
        All (IsRefused m.channel) q.0 × (q.1 ≡ record v { now = last_time ms v.now })
  rejected_probe_sticks m w u what ms s p e same a =
      let b : CircuitBreaker = record (breaker m.channel w.breakers) { probe_in_flight = true } in
      let still : breaker m.channel u.breakers ≡ b =
        ap (breaker m.channel) same ∙ breaker-set_breaker m.channel b w.breakers in
      rw (rejected-send m w u what s p e) (
        probing-send_each m.channel ms u
          (ap (λ b. b.state) still ∙ s, ap (λ b. b.probe_in_flight) still) a)
