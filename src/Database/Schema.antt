-- ===== src/Database/Schema.antt =====
-- sql/schema.sql: the three tables. ENUM columns hold their texts; a NULL is `none`. The columns
-- that no statement of the program reads or writes (updated_at, published_at and the like) are
-- left out.
use distributed_notification.Base.{ℕ, String, Option, List, []}

pub record NotificationRow : Type 0 where
  pub id : String
  pub idempotency_key : String
  pub channel : String
  pub priority : String
  pub recipient : String
  pub subject : Option String
  pub body : String
  pub status : String
  pub attempt_count : ℕ
  pub created_at : ℕ

pub record AttemptRow : Type 0 where
  pub id : ℕ
  pub notification_id : String
  pub attempt_number : ℕ
  pub channel : String
  pub status : String
  pub provider_ref : Option String
  pub error_message : Option String

pub record OutboxRow : Type 0 where
  pub notification_id : String
  pub event_type : String
  pub payload : String
  pub status : String

-- The newest row of each table stands first.
pub record Tables : Type 0 where
  pub notifications : List NotificationRow
  pub attempts : List AttemptRow
  pub outbox : List OutboxRow
  pub next_attempt_id : ℕ

abbrev pub empty : Tables
empty = record { notifications = []; attempts = []; outbox = []; next_attempt_id = 1 }
