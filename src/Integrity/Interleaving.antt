-- ===== src/Integrity/Interleaving.antt =====
-- src/NotificationRepository.cpp, src/DeliveryAttemptRepository.cpp: what the statements of handlers that
-- overlap in any way keep. Each statement, and the transaction of a submission, is one step of the
-- server.
use distributed_notification.Base.{ℕ, ◌≡◌, String}
use distributed_notification.Models.{Notification, DeliveryAttempt}
use distributed_notification.Platform.{Platform}
use distributed_notification.Database.{reply}
use distributed_notification.Database.Schema.{Tables}
use distributed_notification.NotificationRepository.{
  new_row, new_event, insert_row, insert_event, set_status, count_attempt, update_table,
}
use distributed_notification.NotificationRepository.Idempotency.{IsPaired}
use distributed_notification.DeliveryAttemptRepository.{upsert}
use distributed_notification.DeliveryAttemptRepository.Upsert.{HasUniqueKeys}
use distributed_notification.Integrity.{AllDistinct, AllOwned}

module _ (P : Platform) where
  -- What a statement or a committed transaction makes of the tables.
  pub data Write (t : Tables) : Tables → Type 0 where
    submits :
        (m : Notification) (ts : ℕ) (u v : Tables)
        → insert_row P (new_row m ts) t ≡ reply tt u
        → insert_event P (new_event m) u ≡ reply tt v
        → Write t v
    sets : (status id : String) → Write t (update_table P (set_status status) id t)
    counts : (id : String) → Write t (update_table P count_attempt id t)
    records : (a : DeliveryAttempt) (n : ℕ) (v : Tables) → upsert P a n t ≡ reply tt v → Write t v

  pub data Writes (t : Tables) : Tables → Type 0 where
    nothing : Writes t t
    also : {u v : Tables} → Writes t u → Write u v → Writes t v

  pub record IsSound (t : Tables) : Type 0 where
    pub distinct : AllDistinct P t.notifications
    pub paired : IsPaired t
    pub unique : HasUniqueKeys P t.attempts
    pub owned : AllOwned P t.notifications t.attempts
