-- ===== src/Tests/Submissions.antt =====
-- Submissions at concrete inputs.
use distributed_notification.Base.{◌≡◌, refl, none, some, List, [], ◌∷◌}
use distributed_notification.Enums.{sent, channel_from_string, priority_from_string}
use distributed_notification.Models.{Notification}
use distributed_notification.Effects.{World, returns, blocked}
use distributed_notification.Effects.Calm.{IsCalm}
use distributed_notification.Database.{
  with_session, acquire, release, ask, execute, start_transaction, commit, rollback,
}
use distributed_notification.Database.Schema.{empty}
use distributed_notification.NotificationRepository.{
  insert_with_outbox, find_by_idempotency_key, insert_in_transaction, write_both, insert_row,
  insert_event, find_row, find_key, with_id, new_row, set_status, row_to_notification, set_status,
  status_from_string,
}
use distributed_notification.NotificationRepository.Sessions.{
  insert_with_outbox-IsCalm, insert_with_outbox-blocked,
}
use distributed_notification.NotificationRepository.Submission.{
  Submitted, insert_with_outbox-Submitted,
}
use distributed_notification.NotificationRepository.Rows.{as_stored, row_to_notification-new_row}
use distributed_notification.NotificationRepository.Idempotency.{resubmission}
use distributed_notification.NotificationRepository.Racing.{
  Raced, OneReturns, together, together-Raced,
}
use distributed_notification.Tests.Toy.{toy, toy-IsCollation}
use distributed_notification.Tests.Worlds.{order, saved, start, submitted}
use distributed_notification.NotificationRepository.Registry.{
  Operation, submits, looks_up, marks_sent, marks_failed, perform_all, Allows, registry,
}
use distributed_notification.NotificationRepository.Refinement.{perform_all-Allows}

insert_with_outbox-IsCalm_example : IsCalm 2 (insert_with_outbox toy order)
insert_with_outbox-IsCalm_example = insert_with_outbox-IsCalm toy 0 order

insert_with_outbox-blocked_example :
    (insert_with_outbox toy order (record start { available = 1 })).0 ≡ blocked
insert_with_outbox-blocked_example =
    insert_with_outbox-blocked toy order (record start { available = 1 }) refl

-- The server refuses the second INSERT.
abbrev refusing : World toy
refusing = record start { outcomes = none ∷ none ∷ none ∷ some "lost" ∷ [] }

refused_leaves_nothing : (insert_with_outbox toy order refusing).1.tables ≡ empty
unfolding insert_with_outbox find_by_idempotency_key insert_in_transaction write_both insert_row
    insert_event find_row find_key with_session acquire release ask execute start_transaction commit
    rollback
refused_leaves_nothing = refl

insert_with_outbox-Submitted_example :
    let q = insert_with_outbox toy order refusing in
    Submitted toy order refusing q.0 q.1 × (q.1.snapshot ≡ none)
insert_with_outbox-Submitted_example = insert_with_outbox-Submitted toy order refusing 0 refl refl

-- The key is taken: the first submission already returns what is stored.
stored_once : insert_with_outbox toy order submitted ≡ (returns saved, submitted)
unfolding insert_with_outbox find_by_idempotency_key find_key with_session acquire release ask
    execute row_to_notification channel_from_string priority_from_string status_from_string
stored_once = refl

resubmission_example :
    (x : Notification) × (insert_with_outbox toy order submitted ≡ (returns x, submitted))
    × (x.id ≡ "n-1")
resubmission_example =
    resubmission toy toy-IsCollation order order saved submitted submitted submitted 0 0 refl refl
      stored_once (record { idle = refl; accepting = refl }) refl refl

row_to_notification-new_row_example :
    row_to_notification (set_status "SENT" (new_row saved 7)) ≡ some (as_stored saved sent)
row_to_notification-new_row_example = row_to_notification-new_row saved sent 7

-- The order is submitted twice, the first time in vain, marked and looked up.
abbrev afternoon : List Operation
afternoon =
    submits order ∷ submits order ∷ marks_sent "n-1" ∷ looks_up "order-1" ∷ marks_failed "n-1" ∷ []

perform_all-Allows_example :
    let q = perform_all toy afternoon refusing in
    Allows toy afternoon (registry toy empty) q.0 (registry toy q.1.tables)
perform_all-Allows_example = perform_all-Allows toy afternoon refusing 0 refl refl

-- Two submissions of the same order, one of them for somebody else.
abbrev racers : List Notification
racers = order ∷ record order { recipient = "+15550101" } ∷ []

unused_key : find_key toy "order-1" start.tables.notifications ≡ none
unfolding find_key
unused_key = refl

together-Raced_example : let q = together toy racers start in Raced toy racers start q.0 q.1
together-Raced_example =
    together-Raced toy toy-IsCollation "order-1" racers start 1 (refl, (refl, tt)) refl refl
      unused_key

-- The first of them is stored.
first_stored :
    OneReturns toy
      (with_id order "01234567-89ab-4cde-b012-3456789abcde")
      racers
      (together toy racers start).0
unfolding insert_with_outbox find_by_idempotency_key insert_in_transaction write_both insert_row
    insert_event find_row find_key with_session acquire release ask execute start_transaction commit
    rollback distributed_notification.IdGenerator.uuid4
    distributed_notification.IdGenerator.uuid4_chars
    distributed_notification.IdGenerator.append_hexes
    distributed_notification.IdGenerator.append_hex
first_stored = (refl, refl, tt)
