-- ===== src/HttpServer.antt =====
-- include/notification/HttpServer.hpp and src/HttpServer.cpp: the REST API. A request is what
-- boost::beast has read, and a response its status and body; the version, the fields server,
-- content_type and keep_alive, and the sockets are left out.
pub mod Submission
pub mod Plain
pub mod Answers
pub mod Reads
pub mod Accepting
pub mod Threads
use Prim.Native.String.{slice, len}
use text.Mathlib.Text.{starts_with}
use distributed_notification.Base.{
  ℕ, ℤ, pos, Bool, true, false, String, Option, none, some, List, [], ◌∷◌, map, str_eq,
  if◌then◌else◌,
}
use distributed_notification.Enums.{
  channel_to_string, priority_to_string, priority_weight, status_to_string,
  attempt_status_to_string,
}
use distributed_notification.Models.{Notification, DeliveryAttempt}
use distributed_notification.Platform.{Platform}
use distributed_notification.Effects.{
  M, Exception, provider_exception, database_error, json_error, invalid_argument, pure, throw,
  ◌>>=◌, ◌>>◌, catch_all,
}
use distributed_notification.NotificationRepository.{insert_with_outbox, find_by_id, list, new_id}
use distributed_notification.DeliveryAttemptRepository.{find_by_notification_id}
use distributed_notification.Message.{Task, message}
use distributed_notification.RabbitMqTopology.{exchange_name, routing_key}
use distributed_notification.RabbitMqPublisher.{publish_to_exchange}
use Submission.{Checked, fine, fails, from_json, checked, read_notification}

pub data Verb : Type 0 where
  get post other : Verb

pub data Status : Type 0 where
  okay accepted bad_request not_found : Status

pub record Request (B : Type 0) : Type 0 where
  pub method : Verb
  pub target : String
  pub body : B

pub record Response (B : Type 0) : Type 0 where
  pub status : Status
  pub body : B

-- ex.what(); `none` is a text that is not UTF-8.
abbrev pub what : Exception → Option String
what (provider_exception e transient) = some e
what (database_error e) = some e
what (json_error e) = e
what (invalid_argument e) = some e

module _ (P : Platform) where
  open P use {Body, Json}

  abbrev pub json_response : Status → Json → Response Body
  json_response status body = record { status = status; body = P.dump body }

  abbrev pub notification_to_json : Notification → Json
  notification_to_json n = P.obj (
      ("id", P.str n.id)
      ∷ ("idempotencyKey", P.str n.idempotency_key)
      ∷ ("channel", P.str (channel_to_string n.channel))
      ∷ ("priority", P.str (priority_to_string n.priority))
      ∷ ("recipient", P.str n.recipient)
      ∷ ("subject", P.str n.subject)
      ∷ ("status", P.str (status_to_string n.status))
      ∷ ("attemptCount", P.num n.attempt_count)
      ∷ [])

  abbrev pub text_or_null : Option String → Json
  text_or_null none = P.null
  text_or_null (some s) = P.str s

  abbrev pub attempt_to_json : DeliveryAttempt → Json
  attempt_to_json a =
      P.set_field
        (P.set_field
          (P.obj (
            ("attemptNumber", P.num a.attempt_number)
            ∷ ("status", P.str (attempt_status_to_string a.status))
            ∷ []))
          "providerRef" (text_or_null a.provider_ref))
        "errorMessage" (text_or_null a.error_message)

  abbrev pub error_response : Status → String → Response Body
  error_response status e = json_response status (P.obj (("error", P.str e) ∷ []))

  -- The `catch` block: `jsonResponse` with the text of the exception, whose `dump` may throw.
  abbrev pub respond_error : Option String → M P (Response Body)
  respond_error (some e) = pure (error_response bad_request e)
  respond_error none = throw (json_error (some P.dump_error))

  -- What is published for a notification.
  abbrev pub first_task : Notification → Task
  first_task saved = record {
    notification_id = saved.id;
    attempt_number = pos 1;
    priority = priority_weight saved.priority;
  }

  -- From the call of insertWithOutbox on.
  unfoldable pub submit : Notification → M P (Response Body)
  submit n = do
    saved ← insert_with_outbox P n
    publish_to_exchange exchange_name (routing_key saved.channel) (message P (first_task saved))
        (priority_weight saved.priority)
    pure (json_response accepted (notification_to_json saved))

  -- POST /api/notifications
  unfoldable pub post_notification : Body → M P (Response Body)
  post_notification body = do
    j ← checked (from_json (P.parse body))
    fallback ← new_id P
    n ← checked (read_notification P j fallback)
    submit n

  abbrev pub show_found : String → Option Notification → M P (Response Body)
  show_found id none = pure (error_response not_found "not found")
  show_found id (some n) = do
    attempts ← find_by_notification_id P id
    pure (
        json_response okay (
          P.set_field (notification_to_json n) "deliveryAttempts"
            (P.arr (map attempt_to_json attempts))))

  -- GET /api/notifications/<id>
  unfoldable pub get_notification : String → M P (Response Body)
  get_notification id = do found ← find_by_id P id; show_found id found

  -- GET /api/notifications
  unfoldable pub get_notifications : M P (Response Body)
  get_notifications = do
    notifications ← list P none none (pos 50) (pos 0)
    pure (
        json_response okay
          (P.obj (("notifications", P.arr (map notification_to_json notifications)) ∷ [])))

  abbrev pub route_get : String → M P (Response Body)
  route_get target =
      if str_eq target "/healthz"
      then pure (json_response okay (P.obj (("status", P.str "ok") ∷ [])))
      else if starts_with target "/api/notifications/"
      then get_notification (slice target 19 (len target))
      else if starts_with target "/api/notifications"
      then get_notifications
      else pure (error_response not_found "no such route")

  abbrev pub route_post : String → Body → M P (Response Body)
  route_post target body =
      if str_eq target "/api/notifications"
      then post_notification body
      else pure (error_response not_found "no such route")

  abbrev pub route : Verb → String → Body → M P (Response Body)
  route get target body = route_get target
  route post target body = route_post target body
  route other target body = pure (error_response not_found "no such route")

  -- From the request to the response that is written.
  unfoldable pub handle_connection : Request Body → M P (Response Body)
  handle_connection req =
      catch_all (route req.method req.target req.body) (λ e. respond_error (what e))
