-- ===== src/NotificationRepository/Quiet.antt =====
-- src/NotificationRepository.cpp: the methods as equations, with a session idle and a server that
-- takes every statement.
use distributed_notification.Base.{ℕ, suc, ◌≡◌, String, Option, some, []}
use distributed_notification.Models.{Notification}
use distributed_notification.Platform.{Platform}
use distributed_notification.Effects.{World, returns}
use distributed_notification.Database.{reply}
use distributed_notification.Database.Laws.{with_session-returns, execute-quiet}
use distributed_notification.Database.Schema.{NotificationRow}
use distributed_notification.NotificationRepository.{
  find_row, find_key, find_by_id, find_by_idempotency_key, read_row, row_to_notification, update,
  update_table,
}

-- What the methods need of the world.
pub record IsQuiet {P : Platform} (n : ℕ) (w : World P) : Type 0 where
  pub idle : w.available ≡ suc n
  pub accepting : w.outcomes ≡ []

module _ (P : Platform) (n : ℕ) (w : World P) (quiet : IsQuiet n w) where
  looked :
      (o : Option NotificationRow) (row : NotificationRow) (m : Notification) (v : World P)
      → o ≡ some row
      → row_to_notification row ≡ some m
      → read_row P o v ≡ (returns (some m), v)
  looked o row m v found reads = rw (found, reads)

  pub find_by_id-quiet :
      (id : String) (row : NotificationRow) (m : Notification)
      → find_row P id w.tables.notifications ≡ some row
      → row_to_notification row ≡ some m
      → find_by_id P id w ≡ (returns (some m), w)
  unfolding find_by_id
  find_by_id-quiet id row m found reads = with_session-returns _ w n (some m) w.tables quiet.idle (
      rw
        (execute-quiet (λ t. reply (find_row P id t.notifications) t) (record w { available = n })
          quiet.accepting)
        (looked _ row m (record w { available = n }) found reads))

  pub find_by_idempotency_key-quiet :
      (key : String) (row : NotificationRow) (m : Notification)
      → find_key P key w.tables.notifications ≡ some row
      → row_to_notification row ≡ some m
      → find_by_idempotency_key P key w ≡ (returns (some m), w)
  unfolding find_by_idempotency_key
  find_by_idempotency_key-quiet key row m found reads =
      with_session-returns _ w n (some m) w.tables quiet.idle (
        rw
          (execute-quiet (λ t. reply (find_key P key t.notifications) t)
            (record w { available = n }) quiet.accepting)
          (looked _ row m (record w { available = n }) found reads))

  pub update-quiet :
      (f : NotificationRow → NotificationRow) (id : String)
      → update P f id w ≡ (returns tt, record w { tables = update_table P f id w.tables })
  unfolding update
  update-quiet f id = with_session-returns _ w n tt (update_table P f id w.tables) quiet.idle (
      execute-quiet (λ t. reply tt (update_table P f id t)) (record w { available = n })
        quiet.accepting)
