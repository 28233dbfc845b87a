-- ===== src/NotificationRepository.antt =====
-- include/notification/NotificationRepository.hpp and src/NotificationRepository.cpp.
pub mod Sessions
pub mod Atomic
pub mod Submission
pub mod Rows
pub mod Quiet
pub mod Lookup
pub mod Idempotency
pub mod Racing
pub mod Registry
pub mod Refinement
use distributed_notification.Base.{
  ℕ, ℤ, pos, negsuc, suc, ◌+◌, Bool, true, false, ◌||◌, ◌&&◌, String, str_eq, ◌<>◌, Option, none,
  some, List, [], ◌∷◌, map, if◌then◌else◌, take, drop, ◌-◌, ltb,
}
use distributed_notification.Enums.{
  Channel, Priority, NotificationStatus, pending, processing, sent, failed, dead_lettered,
  cancelled, channel_from_string, priority_from_string, channel_to_string, priority_to_string,
  status_to_string,
}
use distributed_notification.Models.{Notification}
use distributed_notification.Platform.{Platform}
use distributed_notification.IdGenerator.{uuid4}
use distributed_notification.Effects.{
  M, World, returns, throws, invalid_argument, pure, throw, ◌>>=◌, ◌>>◌, catch_all,
}
use distributed_notification.Database.{
  Reply, reply, refuse, with_session, execute, start_transaction, commit, rollback,
}
use distributed_notification.Database.Schema.{Tables, NotificationRow, OutboxRow}

-- The lambda in `rowToNotification`.
unfoldable pub status_from_string : String → NotificationStatus
status_from_string s =
    if str_eq s "PENDING"
    then pending
    else if str_eq s "PROCESSING"
    then processing
    else if str_eq s "SENT"
    then sent
    else if str_eq s "FAILED"
    then failed
    else if str_eq s "DEAD_LETTERED"
    then dead_lettered
    else cancelled

abbrev pub text_or_empty : Option String → String
text_or_empty none = ""
text_or_empty (some s) = s

-- `static_cast<int>` of a value of the column, which is INT UNSIGNED and below 2^32.
abbrev pub to_int : ℕ → ℤ
to_int n = if ltb n 2147483648 then pos n else negsuc (4294967295 - n)

abbrev pub with_channel : Option Channel → NotificationRow → Option Notification
with_channel none row = none
with_channel (some c) row = some (record {
  id = row.id;
  idempotency_key = row.idempotency_key;
  channel = c;
  priority = priority_from_string row.priority;
  recipient = row.recipient;
  subject = text_or_empty row.subject;
  body = row.body;
  status = status_from_string row.status;
  attempt_count = to_int row.attempt_count;
  created_at = 0;
  updated_at = 0;
})

-- `none` is the exception that `channelFromString` throws.
unfoldable pub row_to_notification : NotificationRow → Option Notification
row_to_notification row = with_channel (channel_from_string row.channel) row

-- `Notification n = in; n.id = …; n.status = NotificationStatus::Pending;`
abbrev pub with_id : Notification → String → Notification
with_id input id = record input { id = id; status = pending }

abbrev pub new_row : Notification → ℕ → NotificationRow
new_row n timestamp = record {
  id = n.id;
  idempotency_key = n.idempotency_key;
  channel = channel_to_string n.channel;
  priority = priority_to_string n.priority;
  recipient = n.recipient;
  subject = some n.subject;
  body = n.body;
  status = "PENDING";
  attempt_count = 0;
  created_at = timestamp;
}

abbrev pub new_event : Notification → OutboxRow
new_event n = record {
  notification_id = n.id;
  event_type = "NOTIFICATION_CREATED";
  payload = n.id;
  status = "PENDING";
}

abbrev pub status_text : Option NotificationStatus → Option String
status_text none = none
status_text (some s) = some (status_to_string s)

abbrev pub channel_text : Option Channel → Option String
channel_text none = none
channel_text (some c) = some (channel_to_string c)

abbrev pub set_status : String → NotificationRow → NotificationRow
set_status s row = record row { status = s }

abbrev pub count_attempt : NotificationRow → NotificationRow
count_attempt row = record row { attempt_count = row.attempt_count + 1 }

module _ (P : Platform) where
  -- WHERE id = ? (the column is a primary key), and its first row.
  unfoldable pub find_row : String → List NotificationRow → Option NotificationRow
  find_row id [] = none
  find_row id (row ∷ rows) = if P.same_text row.id id then some row else find_row id rows

  -- WHERE idempotency_key = ?
  unfoldable pub find_key : String → List NotificationRow → Option NotificationRow
  find_key key [] = none
  find_key key (row ∷ rows) =
      if P.same_text row.idempotency_key key then some row else find_key key rows

  abbrev pub or_unknown : String → Option Notification → M P Notification
  or_unknown channel none = throw (invalid_argument ("unknown channel: " <> channel))
  or_unknown channel (some n) = pure n

  abbrev pub converted : NotificationRow → M P Notification
  converted row = or_unknown row.channel (row_to_notification row)

  -- `if (!row) return std::nullopt; return rowToNotification(row);`
  abbrev pub read_row : Option NotificationRow → M P (Option Notification)
  read_row none = pure none
  read_row (some row) = do n ← converted row; pure (some n)

  unfoldable pub find_by_id : String → M P (Option Notification)
  find_by_id id =
      with_session (do row ← execute (λ t. reply (find_row id t.notifications) t); read_row row)

  unfoldable pub find_by_idempotency_key : String → M P (Option Notification)
  find_by_idempotency_key key =
      with_session (do row ← execute (λ t. reply (find_key key t.notifications) t); read_row row)

  -- INSERT INTO notifications …, refused on a duplicate id or idempotency key.
  unfoldable pub insert_row : NotificationRow → Tables → Reply (Unit {0})
  insert_row row t = elim (find_row row.id t.notifications) [
    | some r ↦ refuse "Duplicate entry for key 'PRIMARY'"
    | none ↦ elim (find_key row.idempotency_key t.notifications) [
      | some r ↦ refuse "Duplicate entry for key 'uq_notifications_idempotency_key'"
      | none ↦ reply tt (record t { notifications = row ∷ t.notifications })
    ]
  ]

  -- INSERT INTO outbox_events …, refused without the notification.
  unfoldable pub insert_event : OutboxRow → Tables → Reply (Unit {0})
  insert_event event t = elim (find_row event.notification_id t.notifications) [
    | none ↦ refuse "a foreign key constraint fails"
    | some r ↦ reply tt (record t { outbox = event ∷ t.outbox })
  ]

  -- `IdGenerator::uuid4()`
  abbrev pub new_id : M P String
  new_id w = let (id, rng) = uuid4 P w.rng in (returns id, record w { rng = rng })

  -- The INSERT of the notification; CURRENT_TIMESTAMP is the server's.
  abbrev pub insert_notification : Notification → M P (Unit {0})
  insert_notification n w = execute (insert_row (new_row n w.timestamp)) w

  -- The body of the `try` block.
  unfoldable pub write_both : Notification → M P (Unit {0})
  write_both n = do insert_notification n; execute (insert_event (new_event n)); commit

  -- The transaction, with the `catch` that rolls back and throws again.
  unfoldable pub insert_in_transaction : Notification → M P (Unit {0})
  insert_in_transaction n = do
    start_transaction
    catch_all (write_both n) (λ e. do rollback; throw e)

  abbrev pub or_insert : Notification → Option Notification → M P Notification
  or_insert input (some existing) = pure existing
  or_insert input none = do
    id ← new_id
    insert_in_transaction (with_id input id)
    pure (with_id input id)

  unfoldable pub insert_with_outbox : Notification → M P Notification
  insert_with_outbox input =
      with_session
        (do existing ← find_by_idempotency_key input.idempotency_key; or_insert input existing)

  abbrev pub matches : Option String → String → Bool
  matches none s = true
  matches (some wanted) s = P.same_text s wanted

  -- WHERE 1=1 [AND status = ?] [AND channel = ?]
  unfoldable pub filtered :
      Option String → Option String → List NotificationRow → List NotificationRow
  filtered status channel [] = []
  filtered status channel (row ∷ rows) =
      let rest = filtered status channel rows in
      if matches status row.status && matches channel row.channel then row ∷ rest else rest

  -- SELECT … ORDER BY created_at DESC LIMIT ? OFFSET ?
  unfoldable pub select_page :
      Option String → Option String → ℕ → ℕ → List NotificationRow → List NotificationRow
  select_page status channel limit offset rows =
      take limit (drop offset (P.newest_first (filtered status channel rows)))

  unfoldable pub read_rows : List NotificationRow → M P (List Notification)
  read_rows [] = pure []
  read_rows (row ∷ rows) = do n ← converted row; ns ← read_rows rows; pure (n ∷ ns)

  -- A negative LIMIT or OFFSET is refused.
  abbrev pub select_rows :
      Option String → Option String → ℤ → ℤ → Tables → Reply (List NotificationRow)
  select_rows status channel (pos limit) (pos offset) t =
      reply (select_page status channel limit offset t.notifications) t
  select_rows status channel (pos limit) (negsuc n) t =
      refuse "You have an error in your SQL syntax"
  select_rows status channel (negsuc n) offset t = refuse "You have an error in your SQL syntax"

  unfoldable pub list : Option NotificationStatus → Option Channel → ℤ → ℤ → M P (List Notification)
  list status channel limit offset = with_session (do
    rows ← execute (select_rows (status_text status) (channel_text channel) limit offset)
    read_rows rows)

  -- UPDATE notifications SET … WHERE id = ?
  unfoldable pub update_rows :
      (NotificationRow → NotificationRow) → String → List NotificationRow → List NotificationRow
  update_rows f id [] = []
  update_rows f id (row ∷ rows) =
      (if P.same_text row.id id then f row else row) ∷ update_rows f id rows

  abbrev pub update_table : (NotificationRow → NotificationRow) → String → Tables → Tables
  update_table f id t = record t { notifications = update_rows f id t.notifications }

  unfoldable pub update : (NotificationRow → NotificationRow) → String → M P (Unit {0})
  update f id = with_session (execute (λ t. reply tt (update_table f id t)))

  abbrev pub mark_processing : String → M P (Unit {0})
  mark_processing = update (set_status "PROCESSING")

  abbrev pub mark_sent : String → M P (Unit {0})
  mark_sent = update (set_status "SENT")

  abbrev pub mark_failed : String → M P (Unit {0})
  mark_failed = update (set_status "FAILED")

  abbrev pub mark_dead_lettered : String → M P (Unit {0})
  mark_dead_lettered = update (set_status "DEAD_LETTERED")

  abbrev pub increment_attempt_count : String → M P (Unit {0})
  increment_attempt_count = update count_attempt
