-- ===== src/ProviderRouter.antt =====
-- include/notification/ProviderRouter.hpp and src/ProviderRouter.cpp. The providers are a
-- parameter, as the virtual `send` is; the constructor's are `mock_send` (Provider). The breakers
-- are in the world, since all worker threads share them. `entries_.at` finds each channel, because
-- the constructor makes an entry for all three.
pub mod Calm
pub mod Stuck
pub mod Down
pub mod Isolation
pub mod Apart
use distributed_notification.Base.{ℤ, Bool, true, false, String, ◌<>◌}
use distributed_notification.Enums.{Channel, email, sms, push, channel_to_string}
use distributed_notification.Models.{Notification}
use distributed_notification.Platform.{Platform}
use distributed_notification.CircuitBreaker.{
  CircuitBreaker, new, allow_request, on_success, on_failure,
}
use distributed_notification.Provider.{Provider}
use distributed_notification.Effects.{
  M, World, Breakers, provider_exception, returns, pure, throw, ◌>>=◌, ◌>>◌, catch_provider,
}

-- entries_.at(channel).breaker
abbrev pub breaker : Channel → Breakers → CircuitBreaker
breaker email bs = bs.email
breaker sms bs = bs.sms
breaker push bs = bs.push

abbrev pub set_breaker : Channel → CircuitBreaker → Breakers → Breakers
set_breaker email b bs = record bs { email = b }
set_breaker sms b bs = record bs { sms = b }
set_breaker push b bs = record bs { push = b }

-- The constructor, with the configured threshold and duration.
unfoldable pub new_breakers : ℤ → ℤ → Breakers
new_breakers threshold duration = record {
  email = new threshold duration;
  sms = new threshold duration;
  push = new threshold duration;
}

module _ (P : Platform) where
  abbrev pub ask_breaker : Channel → M P Bool
  ask_breaker c w =
      let (b, allowed) = allow_request (breaker c w.breakers) w.now in
      (returns allowed, record w { breakers = set_breaker c b w.breakers })

  abbrev pub report_success : Channel → M P (Unit {0})
  report_success c w = (
    returns tt,
    record w { breakers = set_breaker c (on_success (breaker c w.breakers)) w.breakers },
  )

  abbrev pub report_failure : Channel → M P (Unit {0})
  report_failure c w = (
    returns tt,
    record w { breakers = set_breaker c (on_failure (breaker c w.breakers) w.now) w.breakers },
  )

  module _ (providers : Channel → Provider P) where
    -- The `catch` block: only a transient failure is reported to the breaker.
    abbrev pub failed_send : Channel → String → Bool → M P String
    failed_send c message true = do report_failure c; throw (provider_exception message true)
    failed_send c message false = throw (provider_exception message false)

    abbrev pub call_provider : Bool → Notification → M P String
    call_provider false n = throw (
        provider_exception ("circuit breaker open for channel " <> channel_to_string n.channel)
          true)
    call_provider true n =
        catch_provider (do result ← providers n.channel n; report_success n.channel; pure result)
          (failed_send n.channel)

    unfoldable pub send : Notification → M P String
    send n = do allowed ← ask_breaker n.channel; call_provider allowed n
