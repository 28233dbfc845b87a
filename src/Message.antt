-- ===== src/Message.antt =====
-- The JSON messages between the API, the retry queues and the workers: `decode` is the first `try`
-- block of WorkerThread::onMessage in src/Worker.cpp, and `message` is what it and
-- HttpServer::handleConnection in src/HttpServer.cpp build.
pub mod RoundTrip
use distributed_notification.Base.{ℕ, ℤ, pos, to_u8, String, List, [], ◌∷◌}
use distributed_notification.Platform.{Platform, Parsed, ok, bad, ◌>>=◌}

-- What a message says.
pub record Task : Type 0 where
  pub notification_id : String
  pub attempt_number : ℤ
  pub priority : ℕ  -- uint8_t

module _ (P : Platform) where
  -- `bad` is the exception that the worker catches.
  unfoldable pub decode : P.Body → Parsed Task
  decode body = do
    j ← P.parse body
    notification_id ← P.at_string j "notificationId"
    attempt_number ← P.value_int j "attemptNumber" (pos 1)
    priority ← P.value_int j "priority" (pos 3)
    ok (record {
      notification_id = notification_id;
      attempt_number = attempt_number;
      priority = to_u8 priority;
    })

  abbrev pub message_fields : Task → List (String × P.Json)
  message_fields task =
      ("notificationId", P.str task.notification_id)
      ∷ ("attemptNumber", P.num task.attempt_number)
      ∷ ("priority", P.num (pos task.priority))
      ∷ []

  unfoldable pub message : Task → P.Body
  message task = P.dump (P.obj (message_fields task))
