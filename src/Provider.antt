-- ===== src/Provider.antt =====
-- include/notification/Provider.hpp, include/notification/MockProviders.hpp and
-- src/MockProviders.cpp. A provider is its `send`: it returns the provider's reference, or throws a
-- provider exception.
use distributed_notification.Base.{ℕ, ◌+◌, ◌*◌, true, false, String, ◌<>◌, if◌then◌else◌}
use distributed_notification.Enums.{Channel, email, sms, push}
use distributed_notification.Models.{Notification}
use distributed_notification.Platform.{Platform}
use distributed_notification.Effects.{M, provider_exception, pure, throw, returns, ◌>>=◌, ◌>>◌}
use distributed_notification.NotificationRepository.{new_id}

abbrev pub Provider : Platform → Type 0
Provider P = Notification → M P String

module _ (P : Platform) where
  -- `sleep_for(milliseconds(latency(rng)))`; the steady clock counts nanoseconds.
  abbrev pub sleep : ℕ → ℕ → M P (Unit {0})
  sleep min_latency_ms max_latency_ms w =
      let (ms, rng) = P.uniform_int w.rng min_latency_ms max_latency_ms in
      (returns tt, record w { rng = rng; now = w.now + ms * 1000000 })

  abbrev pub chance : M P P.Real
  chance w = let (roll, rng) = P.uniform_real w.rng in (returns roll, record w { rng = rng })

  abbrev pub rejected : Notification → String → M P String
  rejected n prefix =
      throw (provider_exception (prefix <> " provider rejected recipient " <> n.recipient) false)

  abbrev pub timed_out : String → M P String
  timed_out prefix = throw (provider_exception (prefix <> " provider timed out") true)

  abbrev pub accepted : String → M P String
  accepted prefix = do id ← new_id P; pure (prefix <> "-" <> id)

  -- The two tests of the roll.
  unfoldable pub by_roll : Notification → String → P.Real → M P String
  by_roll n prefix roll =
      if P.less roll (P.percent 2)
      then rejected n prefix
      else if P.less roll (P.percent 12)
      then timed_out prefix
      else accepted prefix

  unfoldable pub simulate : Notification → String → ℕ → ℕ → M P String
  simulate n prefix min_latency_ms max_latency_ms = do
    sleep min_latency_ms max_latency_ms
    roll ← chance
    by_roll n prefix roll

  unfoldable pub mock_send : Channel → Provider P
  mock_send email n = simulate n "email" 20 80
  mock_send sms n = simulate n "sms" 10 50
  mock_send push n = simulate n "push" 5 30
