-- ===== src/ProviderRouter/Down.antt =====
-- src/ProviderRouter.cpp: a provider that always fails as transient. An open breaker fails alike.
use distributed_notification.Base.{◌≡◌, refl, Bool, true, false, String, ◌<>◌}
use distributed_notification.Enums.{Channel, channel_to_string}
use distributed_notification.Models.{Notification}
use distributed_notification.Platform.{Platform}
use distributed_notification.CircuitBreaker.{allow_request}
use distributed_notification.Provider.{Provider}
use distributed_notification.Effects.{World, Outcome, throws, provider_exception}
use distributed_notification.Effects.Calm.{IsAside}
use distributed_notification.ProviderRouter.{
  breaker, set_breaker, send, call_provider, report_failure,
}

-- r is a transient failure, and v is like w but for the breakers, the clocks and the random device.
abbrev pub FailsAside : {P : Platform} → World P → Outcome String × World P → Type 0
FailsAside {P} w q =
    (what : String) × (v : World P) × (q ≡ (throws (provider_exception what true), v)) × IsAside w v

-- Every call of the provider of a channel ends so.
abbrev pub IsDown : {P : Platform} → Provider P → Type 0
IsDown {P} provider = (m : Notification) (w : World P) → FailsAside w (provider m w)

module _ (P : Platform) (providers : Channel → Provider P) where
  called :
      (allowed : Bool) (m : Notification) (w : World P)
      → IsDown (providers m.channel)
      → FailsAside w (call_provider P providers allowed m w)
  called false m w down = (
    "circuit breaker open for channel " <> channel_to_string m.channel,
    w,
    refl,
    record { tables = refl; outcomes = refl; available = refl; commands = refl },
  )
  called true m w down =
      let (what, v, e, aside) = down m w in
      (
        what,
        (report_failure P m.channel v).1,
        rw e,
        record {
          tables = aside.tables;
          outcomes = aside.outcomes;
          available = aside.available;
          commands = aside.commands;
        },
      )

  -- While the provider of a notification's channel is down, every send fails as transient, whether
  -- the breaker lets it through or not, and touches nothing but breakers, clocks and random device.
  pub send-FailsAside :
      (m : Notification) (w : World P)
      → IsDown (providers m.channel)
      → FailsAside w (send P providers m w)
  unfolding send
  send-FailsAside m w down =
      let asked = allow_request (breaker m.channel w.breakers) w.now in
      let x : World P = record w { breakers = set_breaker m.channel asked.0 w.breakers } in
      let (what, v, e, aside) = called asked.1 m x down in
      (
        what,
        v,
        e,
        record {
          tables = aside.tables;
          outcomes = aside.outcomes;
          available = aside.available;
          commands = aside.commands;
        },
      )
