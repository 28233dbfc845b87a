-- ===== src/DeliveryAttemptRepository.antt =====
-- include/notification/DeliveryAttemptRepository.hpp and src/DeliveryAttemptRepository.cpp.
pub mod Upsert
use distributed_notification.Base.{
  ℕ, ◌+◌, ◌==◌, ℤ, pos, negsuc, Bool, ◌&&◌, String, str_eq, ◌<>◌, Option, none, some, List, [], ◌∷◌,
  if◌then◌else◌,
}
use distributed_notification.Enums.{
  Channel, AttemptStatus, success, transient_failure, permanent_failure, channel_from_string,
  channel_to_string, attempt_status_to_string,
}
use distributed_notification.Models.{DeliveryAttempt}
use distributed_notification.Platform.{Platform}
use distributed_notification.Effects.{M, invalid_argument, pure, throw, ◌>>=◌}
use distributed_notification.Database.{Reply, reply, refuse, with_session, execute}
use distributed_notification.Database.Schema.{Tables, AttemptRow}
use distributed_notification.NotificationRepository.{find_row, to_int}

unfoldable pub attempt_status_from_string : String → AttemptStatus
attempt_status_from_string s =
    if str_eq s "SUCCESS"
    then success
    else if str_eq s "TRANSIENT_FAILURE"
    then transient_failure
    else permanent_failure

abbrev pub attempt_with : Option Channel → AttemptRow → Option DeliveryAttempt
attempt_with none row = none
attempt_with (some c) row = some (record {
  id = row.id;
  notification_id = row.notification_id;
  attempt_number = to_int row.attempt_number;
  channel = c;
  status = attempt_status_from_string row.status;
  provider_ref = row.provider_ref;
  error_message = row.error_message;
  attempted_at = 0;
})

-- The body of the loop over the rows; `none` is the exception that `channelFromString` throws.
unfoldable pub row_to_attempt : AttemptRow → Option DeliveryAttempt
row_to_attempt row = attempt_with (channel_from_string row.channel) row

-- VALUES (…) of the INSERT, for an attempt numbered n.
abbrev pub new_attempt : DeliveryAttempt → ℕ → ℕ → AttemptRow
new_attempt a n id = record {
  id = id;
  notification_id = a.notification_id;
  attempt_number = n;
  channel = channel_to_string a.channel;
  status = attempt_status_to_string a.status;
  provider_ref = a.provider_ref;
  error_message = a.error_message;
}

-- SET status = VALUES(status), provider_ref = VALUES(provider_ref), …
abbrev pub overwrite : DeliveryAttempt → AttemptRow → AttemptRow
overwrite a row = record row {
  status = attempt_status_to_string a.status;
  provider_ref = a.provider_ref;
  error_message = a.error_message;
}

module _ (P : Platform) where
  -- The row with the unique key (notification_id, attempt_number).
  abbrev pub has_key : String → ℕ → AttemptRow → Bool
  has_key id n row = P.same_text row.notification_id id && row.attempt_number == n

  unfoldable pub find_attempt : String → ℕ → List AttemptRow → Option AttemptRow
  find_attempt id n [] = none
  find_attempt id n (row ∷ rows) = if has_key id n row then some row else find_attempt id n rows

  unfoldable pub overwrite_attempt : DeliveryAttempt → ℕ → List AttemptRow → List AttemptRow
  overwrite_attempt a n [] = []
  overwrite_attempt a n (row ∷ rows) =
      (if has_key a.notification_id n row then overwrite a row else row)
      ∷ overwrite_attempt a n rows

  -- INSERT … ON DUPLICATE KEY UPDATE …; a new row needs its notification.
  unfoldable pub upsert : DeliveryAttempt → ℕ → Tables → Reply (Unit {0})
  upsert a n t = elim (find_attempt a.notification_id n t.attempts) [
    | some old ↦ reply tt (record t {
      attempts = overwrite_attempt a n t.attempts;
      next_attempt_id = t.next_attempt_id + 1;
    })
    | none ↦ elim (find_row P a.notification_id t.notifications) [
      | none ↦ refuse "a foreign key constraint fails"
      | some row ↦ reply tt (record t {
        attempts = new_attempt a n t.next_attempt_id ∷ t.attempts;
        next_attempt_id = t.next_attempt_id + 1;
      })
    ]
  ]

  -- attempt_number is INT UNSIGNED.
  unfoldable pub upsert_int : DeliveryAttempt → ℤ → Tables → Reply (Unit {0})
  upsert_int a (pos n) t = upsert a n t
  upsert_int a (negsuc n) t = refuse "Out of range value for column 'attempt_number'"

  -- `record` is a reserved word.
  unfoldable pub record_attempt : DeliveryAttempt → M P (Unit {0})
  record_attempt a = with_session (execute (upsert_int a a.attempt_number))

  -- WHERE notification_id = ?
  unfoldable pub attempts_of : String → List AttemptRow → List AttemptRow
  attempts_of id [] = []
  attempts_of id (row ∷ rows) =
      let rest = attempts_of id rows in
      if P.same_text row.notification_id id then row ∷ rest else rest

  abbrev pub attempt_or_unknown : String → Option DeliveryAttempt → M P DeliveryAttempt
  attempt_or_unknown channel none = throw (invalid_argument ("unknown channel: " <> channel))
  attempt_or_unknown channel (some a) = pure a

  unfoldable pub read_attempts : List AttemptRow → M P (List DeliveryAttempt)
  read_attempts [] = pure []
  read_attempts (row ∷ rows) = do
    a ← attempt_or_unknown row.channel (row_to_attempt row)
    rest ← read_attempts rows
    pure (a ∷ rest)

  unfoldable pub find_by_notification_id : String → M P (List DeliveryAttempt)
  find_by_notification_id id = with_session (do
    rows ← execute (λ t. reply (P.by_attempt_number (attempts_of id t.attempts)) t)
    read_attempts rows)
