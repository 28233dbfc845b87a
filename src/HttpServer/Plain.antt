-- ===== src/HttpServer/Plain.antt =====
-- src/HttpServer.cpp: once a body is parsed, the exceptions of a request have texts that are UTF-8.
use text.Mathlib.Text.{starts_with}
use distributed_notification.Base.{
  ◌≡◌, ◌≢◌, refl, String, Option, none, some, List, [], ◌∷◌, str_eq, pos,
}
use distributed_notification.Enums.{Channel, channel_from_string}
use distributed_notification.Models.{Notification, DeliveryAttempt}
use distributed_notification.Platform.{Platform, Parsed, ok, bad, IsJson}
use distributed_notification.Effects.{
  Exception, provider_exception, database_error, json_error, invalid_argument, pure,
}
use distributed_notification.Effects.Plain.{
  HasText, IsPlain, IsPlain-pure, IsPlain-throw, IsPlain-if, IsPlain-bind, IsPlain-then,
  IsPlain-catch_all,
}
use distributed_notification.Database.{execute, start_transaction, rollback}
use distributed_notification.Database.Plain.{
  IsPlain-execute, IsPlain-with_session, IsPlain-start_transaction, IsPlain-commit,
  IsPlain-rollback,
}
use distributed_notification.Database.Schema.{NotificationRow, AttemptRow}
use distributed_notification.NotificationRepository.{
  find_by_id, find_by_idempotency_key, read_row, converted, or_unknown, row_to_notification, new_id,
  insert_notification, insert_row, insert_event, new_row, new_event, write_both,
  insert_in_transaction, or_insert, with_id, insert_with_outbox, read_rows, list,
}
use distributed_notification.DeliveryAttemptRepository.{
  find_by_notification_id, read_attempts, attempt_or_unknown, row_to_attempt,
}
use distributed_notification.HttpServer.Submission.{
  Checked, fine, fails, from_json, known_channel, read_notification, ◌>>=◌,
}
use distributed_notification.HttpServer.{
  show_found, get_notification, get_notifications, route_get, submit, what,
}

module _ (P : Platform) where
  or_unknown-IsPlain : (c : String) (m : Option Notification) → IsPlain (or_unknown P c m)
  or_unknown-IsPlain c none = IsPlain-throw _ tt
  or_unknown-IsPlain c (some m) = IsPlain-pure m

  read_row-IsPlain : (row : Option NotificationRow) → IsPlain (read_row P row)
  read_row-IsPlain none = IsPlain-pure none
  read_row-IsPlain (some row) =
      IsPlain-bind (converted P row) (λ m. pure (some m))
        (or_unknown-IsPlain row.channel (row_to_notification row)) (λ m. IsPlain-pure (some m))

  find_by_id-IsPlain : (id : String) → IsPlain (find_by_id P id)
  unfolding find_by_id
  find_by_id-IsPlain id =
      IsPlain-with_session _ (IsPlain-bind _ (read_row P) (IsPlain-execute _) read_row-IsPlain)

  find_by_idempotency_key-IsPlain : (key : String) → IsPlain (find_by_idempotency_key P key)
  unfolding find_by_idempotency_key
  find_by_idempotency_key-IsPlain key =
      IsPlain-with_session _ (IsPlain-bind _ (read_row P) (IsPlain-execute _) read_row-IsPlain)

  read_rows-IsPlain : (rows : List NotificationRow) → IsPlain (read_rows P rows)
  unfolding read_rows
  read_rows-IsPlain [] = IsPlain-pure []
  read_rows-IsPlain (row ∷ rows) =
      IsPlain-bind (converted P row) _ (or_unknown-IsPlain row.channel (row_to_notification row))
        λ m. IsPlain-bind (read_rows P rows) _ (read_rows-IsPlain rows) λ ms. IsPlain-pure (m ∷ ms)

  insert_in_transaction-IsPlain : (m : Notification) → IsPlain (insert_in_transaction P m)
  unfolding insert_in_transaction write_both
  insert_in_transaction-IsPlain m =
      let inserts : IsPlain (insert_notification P m) = record {
        at = λ w. (IsPlain-execute (insert_row P (new_row m w.timestamp))).at w;
      } in
      IsPlain-then start_transaction _ IsPlain-start_transaction (
        IsPlain-catch_all _ _
          (IsPlain-then (insert_notification P m) _ inserts (
            IsPlain-then (execute (insert_event P (new_event m))) _ (IsPlain-execute _)
              IsPlain-commit))
          (λ e t. IsPlain-then rollback _ IsPlain-rollback (IsPlain-throw e t)))

  or_insert-IsPlain :
      (input : Notification) (found : Option Notification) → IsPlain (or_insert P input found)
  or_insert-IsPlain input none =
      IsPlain-bind (new_id P) _ (record { at = λ w. tt })
        λ id.
          IsPlain-then (insert_in_transaction P (with_id input id)) _
            (insert_in_transaction-IsPlain (with_id input id)) (IsPlain-pure (with_id input id))
  or_insert-IsPlain input (some m) = IsPlain-pure m

  insert_with_outbox-IsPlain : (input : Notification) → IsPlain (insert_with_outbox P input)
  unfolding insert_with_outbox
  insert_with_outbox-IsPlain input = IsPlain-with_session _ (
      IsPlain-bind (find_by_idempotency_key P input.idempotency_key) (or_insert P input)
        (find_by_idempotency_key-IsPlain input.idempotency_key) (or_insert-IsPlain input))

  pub submit-IsPlain : (input : Notification) → IsPlain (submit P input)
  unfolding submit
  submit-IsPlain input =
      IsPlain-bind (insert_with_outbox P input) _ (insert_with_outbox-IsPlain input)
        λ saved. record { at = λ w. tt }

  attempt_or_unknown-IsPlain :
      (c : String) (a : Option DeliveryAttempt) → IsPlain (attempt_or_unknown P c a)
  attempt_or_unknown-IsPlain c none = IsPlain-throw _ tt
  attempt_or_unknown-IsPlain c (some a) = IsPlain-pure a

  read_attempts-IsPlain : (rows : List AttemptRow) → IsPlain (read_attempts P rows)
  unfolding read_attempts
  read_attempts-IsPlain [] = IsPlain-pure []
  read_attempts-IsPlain (row ∷ rows) =
      IsPlain-bind (attempt_or_unknown P row.channel (row_to_attempt row)) _
        (attempt_or_unknown-IsPlain row.channel (row_to_attempt row))
        λ a.
          IsPlain-bind (read_attempts P rows) _ (read_attempts-IsPlain rows)
            λ rest. IsPlain-pure (a ∷ rest)

  show_found-IsPlain : (id : String) (found : Option Notification) → IsPlain (show_found P id found)
  unfolding find_by_notification_id
  show_found-IsPlain id none = IsPlain-pure _
  show_found-IsPlain id (some m) =
      IsPlain-bind (find_by_notification_id P id) _
        (IsPlain-with_session _
          (IsPlain-bind _ (read_attempts P) (IsPlain-execute _) read_attempts-IsPlain))
        λ rest. IsPlain-pure _

  get_notification-IsPlain : (id : String) → IsPlain (get_notification P id)
  unfolding get_notification
  get_notification-IsPlain id =
      IsPlain-bind (find_by_id P id) (show_found P id) (find_by_id-IsPlain id)
        (show_found-IsPlain id)

  get_notifications-IsPlain : IsPlain (get_notifications P)
  unfolding get_notifications list
  get_notifications-IsPlain =
      IsPlain-bind (list P none none (pos 50) (pos 0)) _
        (IsPlain-with_session _
          (IsPlain-bind _ (read_rows P) (IsPlain-execute _) read_rows-IsPlain))
        λ ms. IsPlain-pure _

  pub route_get-IsPlain : (target : String) → IsPlain (route_get P target)
  route_get-IsPlain target = IsPlain-if (str_eq target "/healthz") _ _ (IsPlain-pure _) (
      IsPlain-if (starts_with target "/api/notifications/") _ _ (get_notification-IsPlain _) (
        IsPlain-if (starts_with target "/api/notifications") _ _ get_notifications-IsPlain
          (IsPlain-pure _)))

-- A value, or an exception with such a text.
abbrev pub IsReadable : {A : Type 0} → Checked A → Type 0
IsReadable (fine a) = Unit {0}
IsReadable (fails e) = HasText e

IsReadable-bind :
    {A B : Type 0} (m : Checked A) (f : A → Checked B)
    → IsReadable m
    → ((a : A) → IsReadable (f a))
    → IsReadable (m >>= f)
IsReadable-bind (fine a) f h k = k a
IsReadable-bind (fails e) f h k = h

from_json-IsReadable : {A : Type 0} (p : Parsed A) → p ≢ bad none → IsReadable (from_json p)
from_json-IsReadable (ok a) h = tt
from_json-IsReadable (bad (some e)) h = tt
from_json-IsReadable (bad none) h = h refl

known_channel-IsReadable : (s : String) (c : Option Channel) → IsReadable (known_channel s c)
known_channel-IsReadable s none = tt
known_channel-IsReadable s (some c) = tt

module _ (P : Platform) (json : IsJson P) (j : P.Json) where
  at-IsReadable : (k : String) → IsReadable (from_json (P.at_string j k))
  at-IsReadable k = from_json-IsReadable (P.at_string j k) (json.at_string-text j k)

  value-IsReadable : (k d : String) → IsReadable (from_json (P.value_string j k d))
  value-IsReadable k d = from_json-IsReadable (P.value_string j k d) (json.value_string-text j k d)

  pub read_notification-IsReadable :
      (fallback : String) → IsReadable (read_notification P j fallback)
  unfolding read_notification
  read_notification-IsReadable fallback =
      IsReadable-bind _ _ (value-IsReadable "idempotencyKey" fallback) λ key.
        IsReadable-bind _ _ (at-IsReadable "channel") λ channel.
          IsReadable-bind _ _ (known_channel-IsReadable channel (channel_from_string channel)) λ c.
            IsReadable-bind _ _ (value-IsReadable "priority" "NORMAL") λ priority.
              IsReadable-bind _ _ (at-IsReadable "recipient") λ recipient.
                IsReadable-bind _ _ (value-IsReadable "subject" "")
                  λ subject. IsReadable-bind _ _ (at-IsReadable "body") λ body. tt

pub text_of : (x : Exception) → HasText x → (e : String) × (what x ≡ some e)
text_of (provider_exception s b) t = (s, refl)
text_of (database_error e) t = (e, refl)
text_of (json_error (some e)) t = (e, refl)
text_of (json_error none) t = absurd t
text_of (invalid_argument e) t = (e, refl)
