-- ===== src/HttpServer/Submission.antt =====
-- src/HttpServer.cpp: the reading of a submission, in the order of the statements of
-- HttpServer::handleConnection.
use distributed_notification.Base.{String, Option, none, some, ◌<>◌, pos}
use distributed_notification.Enums.{Channel, pending, channel_from_string, priority_from_string}
use distributed_notification.Models.{Notification}
use distributed_notification.Platform.{Platform, Parsed, ok, bad}
use distributed_notification.Effects.{M, Exception, json_error, invalid_argument, pure, throw}

-- A computed value, or the exception thrown on the way.
pub data Checked (A : Type 0) : Type 0 where
  fine : A → Checked A
  fails : Exception → Checked A

infixl 5 ◌>>=◌
abbrev pub ◌>>=◌ : {A B : Type 0} → Checked A → (A → Checked B) → Checked B
fine a >>= f = f a
fails e >>= f = fails e

abbrev pub from_json : {A : Type 0} → Parsed A → Checked A
from_json (ok a) = fine a
from_json (bad e) = fails (json_error e)

-- `channelFromString` with the exception that it throws.
abbrev pub known_channel : String → Option Channel → Checked Channel
known_channel text none = fails (invalid_argument ("unknown channel: " <> text))
known_channel text (some c) = fine c

-- The action that the value or the exception stands for.
abbrev pub checked : {P : Platform} {A : Type 0} → Checked A → M P A
checked (fine a) = pure a
checked (fails e) = throw e

module _ (P : Platform) where
  -- The notification of a request; `fallback` is the UUID drawn for a request without a key.
  unfoldable pub read_notification : P.Json → String → Checked Notification
  read_notification j fallback = do
    idempotency_key ← from_json (P.value_string j "idempotencyKey" fallback)
    channel_name ← from_json (P.at_string j "channel")
    channel ← known_channel channel_name (channel_from_string channel_name)
    priority_name ← from_json (P.value_string j "priority" "NORMAL")
    recipient ← from_json (P.at_string j "recipient")
    subject ← from_json (P.value_string j "subject" "")
    body ← from_json (P.at_string j "body")
    fine (record {
      id = "";
      idempotency_key = idempotency_key;
      channel = channel;
      priority = priority_from_string priority_name;
      recipient = recipient;
      subject = subject;
      body = body;
      status = pending;
      attempt_count = pos 0;
      created_at = 0;
      updated_at = 0;
    })
