-- ===== src/Models.antt =====
-- include/notification/Models.hpp. A time point is a count from the epoch, 0 when never assigned.
use distributed_notification.Base.{ℕ, ℤ, String, Option}
use distributed_notification.Enums.{Channel, Priority, NotificationStatus, AttemptStatus}

pub record Notification : Type 0 where
  pub id : String
  pub idempotency_key : String
  pub channel : Channel
  pub priority : Priority
  pub recipient : String
  pub subject : String
  pub body : String
  pub status : NotificationStatus
  pub attempt_count : ℤ
  pub created_at : ℕ
  pub updated_at : ℕ

pub record DeliveryAttempt : Type 0 where
  pub id : ℕ
  pub notification_id : String
  pub attempt_number : ℤ
  pub channel : Channel
  pub status : AttemptStatus
  pub provider_ref : Option String
  pub error_message : Option String
  pub attempted_at : ℕ
