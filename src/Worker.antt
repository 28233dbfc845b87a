-- ===== src/Worker.antt =====
-- include/notification/Worker.hpp and src/Worker.cpp: what a worker thread does with a message.
pub mod Told
pub mod Acking
pub mod Quiet
pub mod Branches
pub mod Journey
pub mod Arrival
pub mod Redelivery
pub mod Overlap
pub mod Local
pub mod Settling
pub mod Keeping
use distributed_notification.Base.{
  ℕ, ℤ, pos, suc_ℤ, gtb_ℤ, to_u8, Bool, true, false, not, ◌&&◌, String, Option, none, some, List,
  [], ◌∷◌, ◌++◌, if◌then◌else◌,
}
use distributed_notification.Enums.{
  Channel, NotificationStatus, pending, processing, sent, failed, dead_lettered, cancelled,
  AttemptStatus, success, transient_failure, permanent_failure,
}
use distributed_notification.Models.{Notification, DeliveryAttempt}
use distributed_notification.Config.{Config}
use distributed_notification.Platform.{Platform, Parsed, ok, bad}
use distributed_notification.Message.{Task, decode, message}
use distributed_notification.Provider.{Provider}
use distributed_notification.Effects.{
  M, World, Command, publish, ack, returns, pure, ◌>>=◌, ◌>>◌, catch_provider,
}
use distributed_notification.NotificationRepository.{
  find_by_id, mark_processing, mark_sent, mark_dead_lettered, increment_attempt_count,
}
use distributed_notification.DeliveryAttemptRepository.{record_attempt}
use distributed_notification.ProviderRouter.{send}
use distributed_notification.RabbitMqTopology.{retry_queue, dlq}

abbrev pub is_done : NotificationStatus → Bool
is_done pending = false
is_done processing = false
is_done sent = true
is_done failed = false
is_done dead_lettered = false
is_done cancelled = true

abbrev pub failure_status : Bool → AttemptStatus
failure_status true = transient_failure
failure_status false = permanent_failure

module _ (P : Platform) where
  open P use {Body}

  -- `amqpChannel_->publish(…)` and `amqpChannel_->ack(…)`
  abbrev pub tell : Command Body → M P (Unit {0})
  tell c w = (returns tt, record w { commands = w.commands ++ (c ∷ []) })

  abbrev pub attempt_of : Channel → Task → DeliveryAttempt
  attempt_of c task = record {
    id = 0;
    notification_id = task.notification_id;
    attempt_number = task.attempt_number;
    channel = c;
    status = success;
    provider_ref = none;
    error_message = none;
    attempted_at = 0;
  }

  module _ (providers : Channel → Provider P) (channel : Channel) (config : Config) where
    -- The `try` block around the provider, up to the acknowledgement.
    unfoldable pub send_and_record : Notification → Task → M P (Unit {0})
    send_and_record n task = do
      provider_ref ← send P providers n
      record_attempt P
          (record (attempt_of channel task) { status = success; provider_ref = some provider_ref })
      mark_sent P task.notification_id
      increment_attempt_count P task.notification_id

    -- The whole of it.
    unfoldable pub deliver : Notification → Task → ℕ → M P (Unit {0})
    deliver n task tag = do send_and_record n task; tell (ack tag)

    -- The first branch of the `catch` block.
    unfoldable pub schedule_retry : Task → String → M P (Unit {0})
    schedule_retry task what = do
      record_attempt P (record (attempt_of channel task) {
        status = transient_failure;
        error_message = some what;
      })
      tell (
          publish "" (retry_queue channel task.attempt_number)
            (message P (record task { attempt_number = suc_ℤ task.attempt_number })) true
            (some task.priority))

    -- The other branch; the body goes on as it came.
    unfoldable pub give_up : Task → Body → String → Bool → M P (Unit {0})
    give_up task body what transient = do
      record_attempt P (record (attempt_of channel task) {
        status = failure_status transient;
        error_message = some what;
      })
      tell (publish "" (dlq channel) body true none)
      mark_dead_lettered P task.notification_id

    abbrev pub exhausted : Task → Bool
    exhausted task = gtb_ℤ task.attempt_number config.max_retries

    -- The `if` of the `catch` block.
    unfoldable pub retry_or_give_up : Task → Body → String → Bool → M P (Unit {0})
    retry_or_give_up task body what transient =
        if transient && not (exhausted task)
        then schedule_retry task what
        else give_up task body what transient

    -- The `catch` block.
    unfoldable pub on_failed : Task → Body → ℕ → String → Bool → M P (Unit {0})
    on_failed task body tag what transient = do
      increment_attempt_count P task.notification_id
      retry_or_give_up task body what transient
      tell (ack tag)

    -- From the line that marks the notification as being processed.
    unfoldable pub process : Notification → Task → Body → ℕ → M P (Unit {0})
    process n task body tag = do
      mark_processing P task.notification_id
      catch_provider (deliver n task tag) (on_failed task body tag)

    abbrev pub handle_found : Option Notification → Task → Body → ℕ → M P (Unit {0})
    handle_found none task body tag = tell (ack tag)
    handle_found (some n) task body tag =
        if is_done n.status then tell (ack tag) else process n task body tag

    abbrev pub handle_decoded : Parsed Task → Body → ℕ → M P (Unit {0})
    handle_decoded (bad e) body tag = tell (ack tag)
    handle_decoded (ok task) body tag = do
      found ← find_by_id P task.notification_id
      handle_found found task body tag

    unfoldable pub on_message : Body → ℕ → M P (Unit {0})
    on_message body tag = handle_decoded (decode P body) body tag
