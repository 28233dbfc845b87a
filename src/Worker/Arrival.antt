-- ===== src/Worker/Arrival.antt =====
-- src/HttpServer.cpp and src/Worker.cpp: the way of a notification from its submission to its
-- delivery.
use distributed_notification.Base.{◌≡◌, String}
use distributed_notification.Enums.{Channel}
use distributed_notification.Models.{Notification}
use distributed_notification.Config.{Config}
use distributed_notification.Platform.{Platform, IsCollation, IsJson}
use distributed_notification.Effects.{World, Breakers, returns}
use distributed_notification.Effects.Calm.{IsAside}
use distributed_notification.Provider.{Provider}
use distributed_notification.ProviderRouter.{send}
use distributed_notification.HttpServer.{Request, post}

module _ (P : Platform) (laws : IsCollation P) (json : IsJson P) where
  -- The request of a submission.
  abbrev pub submission : P.Body → Request P.Body
  submission body = record { method = post; target = "/api/notifications"; body = body }

  module _ (providers : Channel → Provider P) (config : Config) where
    -- With these breakers the provider of every channel takes every notification.
    abbrev pub TakesAll : String → Breakers → Type 0
    TakesAll ref bs =
        (m : Notification) (x : World P)
        → x.breakers ≡ bs
        → (y : World P) × (send P providers m x ≡ (returns ref, y)) × IsAside x y
