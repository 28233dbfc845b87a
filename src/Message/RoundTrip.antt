-- ===== src/Message/RoundTrip.antt =====
-- The messages of the service read back.
use distributed_notification.Base.{◌<◌, pos, ◌≡◌, refl, arith}
use distributed_notification.Platform.{Platform, IsJson, InInt, ok, field}
use distributed_notification.Message.{Task, decode, message, message_fields}

-- A message whose attempt number is an `int` and whose priority fits eight bits is decoded to what
-- it was built from.
pub decode-message :
    (P : Platform) (laws : IsJson P) (task : Task)
    → InInt task.attempt_number
    → task.priority < 256
    → decode P (message P task) ≡ ok task
unfolding decode message field
decode-message P laws task int byte =
    let fs = message_fields P task in
    rw
      (
        laws.parse-dump (P.obj fs),
        laws.at_string-obj fs "notificationId" task.notification_id refl,
        laws.value_int-obj fs "attemptNumber" task.attempt_number (pos 1) int refl,
        laws.value_int-obj fs "priority" (pos task.priority) (pos 3) (omega arith) refl,
      )
      (ground arith)
