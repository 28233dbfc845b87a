-- ===== src/ProviderRouter/Calm.antt =====
-- src/ProviderRouter.cpp and src/MockProviders.cpp leave the pool and the AMQP channel alone.
use distributed_notification.Base.{ℕ, refl, Bool, true, false, String, ◌<>◌, if◌then◌else◌}
use distributed_notification.Enums.{Channel, email, sms, push}
use distributed_notification.Models.{Notification}
use distributed_notification.Platform.{Platform}
use distributed_notification.Provider.{
  Provider, simulate, sleep, chance, by_roll, rejected, timed_out, accepted, mock_send,
}
use distributed_notification.NotificationRepository.{new_id}
use distributed_notification.Effects.{pure, ◌>>=◌}
use distributed_notification.Effects.Calm.{
  IsCalm, IsCalm-pure, IsCalm-throw, IsCalm-bind, IsCalm-then, IsCalm-if, IsCalm-catch_provider,
}
use distributed_notification.ProviderRouter.{
  send, ask_breaker, call_provider, failed_send, report_success, report_failure,
}

module _ (P : Platform) (n : ℕ) where
  new_id-IsCalm : IsCalm n (new_id P)
  new_id-IsCalm = record { at = λ w h. record { idle = h; silent = refl; goes_on = refl } }

  by_roll-IsCalm :
      (m : Notification) (prefix : String) (roll : P.Real) → IsCalm n (by_roll P m prefix roll)
  unfolding by_roll
  by_roll-IsCalm m prefix roll =
      IsCalm-if n (P.less roll (P.percent 2)) (rejected P m prefix)
        (if P.less roll (P.percent 12) then timed_out P prefix else accepted P prefix)
        (IsCalm-throw n _)
        (IsCalm-if n (P.less roll (P.percent 12)) (timed_out P prefix) (accepted P prefix)
          (IsCalm-throw n _)
          (IsCalm-bind n (new_id P) (λ id. pure (prefix <> "-" <> id)) new_id-IsCalm
            λ id. IsCalm-pure n (prefix <> "-" <> id)))

  simulate-IsCalm :
      (m : Notification) (prefix : String) (lo hi : ℕ) → IsCalm n (simulate P m prefix lo hi)
  unfolding simulate
  simulate-IsCalm m prefix lo hi =
      IsCalm-then n (sleep P lo hi) (chance P >>= by_roll P m prefix)
        (record { at = λ w h. record { idle = h; silent = refl; goes_on = refl } })
        (IsCalm-bind n (chance P) (by_roll P m prefix)
          (record { at = λ w h. record { idle = h; silent = refl; goes_on = refl } })
          (by_roll-IsCalm m prefix))

  -- The mock providers use no session of the pool and tell the broker nothing.
  pub mock_send-IsCalm : (c : Channel) (m : Notification) → IsCalm n (mock_send P c m)
  unfolding mock_send
  mock_send-IsCalm email m = simulate-IsCalm m "email" 20 80
  mock_send-IsCalm sms m = simulate-IsCalm m "sms" 10 50
  mock_send-IsCalm push m = simulate-IsCalm m "push" 5 30

  module _ (providers : Channel → Provider P)
      (calm : (c : Channel) (m : Notification) → IsCalm n (providers c m)) where
    failed_send-IsCalm :
        (c : Channel) (what : String) (transient : Bool)
        → IsCalm n (failed_send P providers c what transient)
    failed_send-IsCalm c what true =
        IsCalm-then n (report_failure P c) _
          (record { at = λ w h. record { idle = h; silent = refl; goes_on = refl } })
          (IsCalm-throw n _)
    failed_send-IsCalm c what false = IsCalm-throw n _

    call_provider-IsCalm :
        (allowed : Bool) (m : Notification) → IsCalm n (call_provider P providers allowed m)
    call_provider-IsCalm false m = IsCalm-throw n _
    call_provider-IsCalm true m =
        IsCalm-catch_provider n _ _
          (IsCalm-bind n (providers m.channel m) _ (calm m.channel m) λ result.
            IsCalm-then n (report_success P m.channel) _
              (record { at = λ w h. record { idle = h; silent = refl; goes_on = refl } })
              (IsCalm-pure n result))
          (failed_send-IsCalm m.channel)

    pub send-IsCalm : (m : Notification) → IsCalm n (send P providers m)
    unfolding send
    send-IsCalm m =
        IsCalm-bind n (ask_breaker P m.channel) _
          (record { at = λ w h. record { idle = h; silent = refl; goes_on = refl } })
          λ allowed. call_provider-IsCalm allowed m
