-- ===== src/Integrity.antt =====
-- sql/schema.sql, with what src/NotificationRepository.cpp, src/DeliveryAttemptRepository.cpp and
-- src/Worker.cpp mean the rows to say of one another.
pub mod Rows
pub mod Attempts
pub mod Statements
pub mod Interleaving
use distributed_notification.Base.{ℕ, ◌≡◌, ◌⊎◌, String, none, some, List, [], ◌∷◌}
use distributed_notification.Platform.{Platform}
use distributed_notification.Database.Schema.{Tables, NotificationRow, AttemptRow}
use distributed_notification.NotificationRepository.{find_row, find_key}
use distributed_notification.NotificationRepository.Idempotency.{IsPaired}
use distributed_notification.DeliveryAttemptRepository.{find_attempt}
use distributed_notification.DeliveryAttemptRepository.Upsert.{HasUniqueKeys}

module _ (P : Platform) where
  -- PRIMARY KEY (id), and the unique idempotency_key: no row is found below under those of another.
  abbrev pub AllDistinct : List NotificationRow → Type 0
  AllDistinct [] = Unit {0}
  AllDistinct (row ∷ rows) =
      (find_row P row.id rows ≡ none)
      × (find_key P row.idempotency_key rows ≡ none)
      × AllDistinct rows

  -- FOREIGN KEY (notification_id)
  abbrev pub AllOwned : List NotificationRow → List AttemptRow → Type 0
  AllOwned rows [] = Unit {0}
  AllOwned rows (a ∷ attempts) =
      ((row : NotificationRow) × (find_row P a.notification_id rows ≡ some row))
      × AllOwned rows attempts

  -- An attempt of the notification with this status is on record.
  abbrev pub HasAttempt : String → String → Tables → Type 0
  HasAttempt id status t =
      (n : ℕ) × (a : AttemptRow) × (find_attempt P id n t.attempts ≡ some a) × (a.status ≡ status)

  abbrev pub HasFailure : String → Tables → Type 0
  HasFailure id t = HasAttempt id "TRANSIENT_FAILURE" t ⊎ HasAttempt id "PERMANENT_FAILURE" t

  -- A notification is SENT only with a success on record, and DEAD_LETTERED only with a failure.
  abbrev pub HasEvidence : Tables → Type 0
  HasEvidence t =
      (id : String) (row : NotificationRow)
      → find_row P id t.notifications ≡ some row
      → (row.status ≡ "SENT" → HasAttempt id "SUCCESS" t)
        × (row.status ≡ "DEAD_LETTERED" → HasFailure id t)

  pub record IsIntact (t : Tables) : Type 0 where
    pub distinct : AllDistinct t.notifications
    pub paired : IsPaired t
    pub unique : HasUniqueKeys P t.attempts
    pub owned : AllOwned t.notifications t.attempts
    pub evidence : HasEvidence t
