-- ===== src/ProviderRouter/Apart.antt =====
-- src/ProviderRouter.cpp: sending touches neither the tables nor the broker, if the providers touch
-- neither.
use distributed_notification.Base.{Bool, true, false, String}
use distributed_notification.Enums.{Channel}
use distributed_notification.Models.{Notification}
use distributed_notification.Platform.{Platform}
use distributed_notification.Provider.{Provider}
use distributed_notification.Effects.{provider_exception}
use distributed_notification.Effects.Ensures.{
  Facts, Ensures, Ensures-pure, Ensures-throw, Ensures-bind, Ensures-then, Ensures-catch_provider,
}
use distributed_notification.ProviderRouter.{
  send, ask_breaker, report_success, report_failure, failed_send, call_provider,
}

-- Whatever is true of the tables and of what the broker is told stays so over every call.
abbrev pub AllApart : (P : Platform) → (Channel → Provider P) → Type 1
AllApart P providers =
    (S : Facts P) (c : Channel) (m : Notification) → Ensures S (providers c m) (λ _. S) S

module _ (P : Platform) (providers : Channel → Provider P) (apart : AllApart P providers)
    (S : Facts P) where
  failed :
      (c : Channel) (what : String) (transient : Bool)
      → Ensures S (failed_send P providers c what transient) (λ _. S) S
  failed c what true =
      Ensures-then S (report_failure P c) _ S (λ _. S) S (record { at = λ w h. h })
        (Ensures-throw (λ _. S) S (provider_exception what true))
  failed c what false = Ensures-throw (λ _. S) S (provider_exception what false)

  called :
      (allowed : Bool) (m : Notification)
      → Ensures S (call_provider P providers allowed m) (λ _. S) S
  called false m = Ensures-throw (λ _. S) S _
  called true m =
      Ensures-catch_provider S _ (failed_send P providers m.channel) (λ _. S) S S (λ t cs h. h)
        (Ensures-bind S (providers m.channel m) _ (λ _. S) (λ _. S) S (apart S m.channel m)
          λ result.
            Ensures-then S (report_success P m.channel) _ S (λ _. S) S (record { at = λ w h. h })
              (Ensures-pure (λ _. S) S result))
        (failed m.channel)

  pub send-Ensures : (m : Notification) → Ensures S (send P providers m) (λ _. S) S
  unfolding send
  send-Ensures m =
      Ensures-bind S (ask_breaker P m.channel) _ (λ _. S) (λ _. S) S (record { at = λ w h. h })
        λ allowed. called allowed m
