-- ===== src/Worker/Redelivery.antt =====
-- src/Worker.cpp: a message that RabbitMQ delivers again.
use distributed_notification.Base.{ℕ, ◌≡◌, refl, true, String, some, [], ◌∷◌, ◌++◌, arith}
use distributed_notification.Enums.{Channel, sent}
use distributed_notification.Models.{Notification}
use distributed_notification.Config.{Config}
use distributed_notification.Platform.{Platform, IsCollation, ok}
use distributed_notification.Message.{Task, decode}
use distributed_notification.Effects.{World, returns, ack}
use distributed_notification.Effects.Calm.{IsAside}
use distributed_notification.Provider.{Provider}
use distributed_notification.ProviderRouter.{send}
use distributed_notification.Database.Schema.{NotificationRow}
use distributed_notification.NotificationRepository.{
  find_row, row_to_notification, set_status, count_attempt, status_from_string,
}
use distributed_notification.NotificationRepository.Rows.{next_count, to_int-next_count}
use distributed_notification.NotificationRepository.Quiet.{IsQuiet, find_by_id-quiet}
use distributed_notification.Worker.{on_message, is_done}
use distributed_notification.Worker.Branches.{IsDue, marked, on_message-delivers}

reads-sent :
    (row : NotificationRow) (m : Notification)
    → row_to_notification row ≡ some m
    → row_to_notification (count_attempt (set_status "SENT" (set_status "PROCESSING" row)))
      ≡ some (record m { status = sent; attempt_count = next_count m.attempt_count })
unfolding row_to_notification status_from_string
reads-sent row m h = ground (arith, h, to_int-next_count row.attempt_count)

module _ (P : Platform) (laws : IsCollation P) (n : ℕ) (providers : Channel → Provider P)
    (c : Channel) (config : Config) where
  skips :
      (task : Task) (body : P.Body) (w : World P) (row : NotificationRow) (m : Notification)
      (tag : ℕ)
      → IsQuiet n w
      → decode P body ≡ ok task
      → find_row P task.notification_id w.tables.notifications ≡ some row
      → row_to_notification row ≡ some m
      → is_done m.status ≡ true
      → on_message P providers c config body tag w
        ≡ (returns tt, record w { commands = w.commands ++ ack tag ∷ [] })
  unfolding on_message
  skips task body w row m tag quiet decoded found reads done =
      rw (decoded, find_by_id-quiet P n w quiet task.notification_id row m found reads, done)

  -- A due message whose provider takes the notification is handled; when the same message comes a
  -- second time, with any tag, it is acknowledged and the rest of the world, the tables, the
  -- breakers and the random device, is as it was.
  pub delivered_once :
      (task : Task) (k : ℕ) (body : P.Body) (w u : World P) (row : NotificationRow)
      (m : Notification) (tag again : ℕ) (ref : String)
      → IsDue P laws n providers c config task k body w row m
      → send P providers m (marked P laws n providers c config task w) ≡ (returns ref, u)
      → IsAside (marked P laws n providers c config task w) u
      → (v : World P) × (on_message P providers c config body tag w ≡ (returns tt, v))
        × (on_message P providers c config body again v
            ≡ (returns tt, record v { commands = v.commands ++ ack again ∷ [] }))
  delivered_once task k body w u row m tag again ref d sends aside =
      let (v, done, settled) =
        on_message-delivers P laws n providers c config task k body w u row m tag ref d sends
          aside in
      (
        v,
        done,
        skips task body v _ _ again settled.quiet d.decoded settled.row_found
            (reads-sent row m d.reads) refl,
      )
