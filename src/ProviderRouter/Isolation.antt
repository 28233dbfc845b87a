-- ===== src/ProviderRouter/Isolation.antt =====
-- src/ProviderRouter.cpp: the channels do not share a breaker.
use distributed_notification.Base.{◌≡◌, refl, ◌∙◌, ap, ◌≢◌, Bool, true, false, String}
use distributed_notification.Enums.{Channel, email, sms, push}
use distributed_notification.Models.{Notification}
use distributed_notification.Platform.{Platform}
use distributed_notification.CircuitBreaker.{CircuitBreaker, allow_request}
use distributed_notification.Provider.{Provider}
use distributed_notification.Effects.{
  World, Breakers, provider_exception, database_error, json_error, invalid_argument, Outcome,
  returns, throws, blocked, continue, recover, on_provider_exception, pure, ◌>>◌,
}
use distributed_notification.ProviderRouter.{
  breaker, set_breaker, send, call_provider, failed_send, report_success,
}

breaker-set_breaker_ne :
    (c d : Channel) (b : CircuitBreaker) (bs : Breakers)
    → d ≢ c
    → breaker d (set_breaker c b bs) ≡ breaker d bs
breaker-set_breaker_ne email email b bs h = absurd (h refl)
breaker-set_breaker_ne email sms b bs h = refl
breaker-set_breaker_ne email push b bs h = refl
breaker-set_breaker_ne sms email b bs h = refl
breaker-set_breaker_ne sms sms b bs h = absurd (h refl)
breaker-set_breaker_ne sms push b bs h = refl
breaker-set_breaker_ne push email b bs h = refl
breaker-set_breaker_ne push sms b bs h = refl
breaker-set_breaker_ne push push b bs h = absurd (h refl)

module _ (P : Platform) (providers : Channel → Provider P) where
  reported :
      (c d : Channel) (b : CircuitBreaker) (u : World P)
      → d ≢ c
      → breaker d u.breakers ≡ b
      → (r : Outcome String)
      → let o = continue r (λ result. report_success P c >> pure result) u in
        let q = recover o.0 (on_provider_exception (failed_send P providers c)) o.1 in
        breaker d q.1.breakers ≡ b
  reported c d b u ne e (returns x) = breaker-set_breaker_ne c d _ u.breakers ne ∙ e
  reported c d b u ne e (throws (provider_exception what true)) =
      breaker-set_breaker_ne c d _ u.breakers ne ∙ e
  reported c d b u ne e (throws (provider_exception what false)) = e
  reported c d b u ne e (throws (database_error x)) = e
  reported c d b u ne e (throws (json_error x)) = e
  reported c d b u ne e (throws (invalid_argument x)) = e
  reported c d b u ne e blocked = e

  called :
      (m : Notification) (w : World P) (d : Channel) (allowed : Bool)
      → ((v : World P) → (providers m.channel m v).1.breakers ≡ v.breakers)
      → d ≢ m.channel
      → breaker d (call_provider P providers allowed m w).1.breakers ≡ breaker d w.breakers
  called m w d false alone ne = refl
  called m w d true alone ne =
      let q = providers m.channel m w in
      reported m.channel d (breaker d w.breakers) q.1 ne (ap (breaker d) (alone w)) q.0

  -- A send on one channel leaves the breakers of the other channels as they were, if the providers
  -- leave all breakers alone.
  pub send-isolation :
      (m : Notification) (w : World P) (d : Channel)
      → ((v : World P) → (providers m.channel m v).1.breakers ≡ v.breakers)
      → d ≢ m.channel
      → breaker d (send P providers m w).1.breakers ≡ breaker d w.breakers
  unfolding send
  send-isolation m w d alone ne =
      let asked = allow_request (breaker m.channel w.breakers) w.now in
      let x : World P = record w { breakers = set_breaker m.channel asked.0 w.breakers } in
      called m x d asked.1 alone ne ∙ breaker-set_breaker_ne m.channel d asked.0 w.breakers ne
