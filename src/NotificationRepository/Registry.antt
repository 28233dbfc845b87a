-- ===== src/NotificationRepository/Registry.antt =====
-- What the notification repository promises, without rows, statements and sessions: a partial map
-- from idempotency keys to notifications, and what each method but `findById` and `list` may do to it.
use distributed_notification.Base.{
  ◌≡◌, ◌⊎◌, String, Option, none, some, List, [], ◌∷◌, if◌then◌else◌,
}
use distributed_notification.Enums.{
  NotificationStatus, pending, processing, sent, failed, dead_lettered,
}
use distributed_notification.Models.{Notification}
use distributed_notification.Platform.{Platform}
use distributed_notification.Effects.{
  World, M, Outcome, returns, throws, blocked, pure, ◌>>=◌, ◌>>◌,
}
use distributed_notification.Database.Schema.{Tables, NotificationRow}
use distributed_notification.NotificationRepository.{
  row_to_notification, find_key, with_id, find_by_idempotency_key, insert_with_outbox,
  mark_processing, mark_sent, mark_failed, mark_dead_lettered, increment_attempt_count,
}
use distributed_notification.NotificationRepository.Rows.{as_stored, next_count}

abbrev pub Registry : Type 0
Registry = String → Option Notification

-- The calls of the repository's methods.
pub data Operation : Type 0 where
  submits : Notification → Operation
  looks_up : String → Operation
  marks_processing marks_sent marks_failed marks_dead_lettered counts_attempt : String → Operation

abbrev pub with_status : NotificationStatus → Notification → Notification
with_status s n = record n { status = s }

abbrev pub with_attempt : Notification → Notification
with_attempt n = record n { attempt_count = next_count n.attempt_count }

module _ (P : Platform) where
  -- A new notification comes under its key, and a change reaches the notifications with an id.
  abbrev pub put : String → Notification → Registry → Registry
  put key n reg k = if P.same_text key k then some n else reg k

  abbrev pub change_named :
      (Notification → Notification) → String → Option Notification → Option Notification
  change_named g id none = none
  change_named g id (some n) = some (if P.same_text n.id id then g n else n)

  abbrev pub change : (Notification → Notification) → String → Registry → Registry
  change g id reg k = change_named g id (reg k)

  -- A change is made, or an exception tells that it was not.
  abbrev pub Changes :
      (Notification → Notification)
      → String
      → Registry
      → Outcome (Option Notification)
      → Registry
      → Type 0
  Changes g id reg (returns o) after = (o ≡ none) × (after ≡ change g id reg)
  Changes g id reg (throws e) after = after ≡ reg
  Changes g id reg blocked after = ⊥

  -- A submission returns the notification under its key, if there is one, and else puts a new one
  -- there, PENDING and without attempts; an exception tells that it did not.
  abbrev pub Submits : Notification → Registry → Outcome (Option Notification) → Registry → Type 0
  Submits input reg (returns none) after = ⊥
  Submits input reg (returns (some m)) after =
      ((reg input.idempotency_key ≡ some m) × (after ≡ reg))
      ⊎ ((reg input.idempotency_key ≡ none)
          × (m ≡ with_id input m.id)
          × (after ≡ put input.idempotency_key (as_stored m pending) reg))
  Submits input reg (throws e) after = after ≡ reg
  Submits input reg blocked after = ⊥

  abbrev pub LooksUp : String → Registry → Outcome (Option Notification) → Registry → Type 0
  LooksUp key reg (returns o) after = (o ≡ reg key) × (after ≡ reg)
  LooksUp key reg (throws e) after = after ≡ reg
  LooksUp key reg blocked after = ⊥

  abbrev pub Performs : Operation → Registry → Outcome (Option Notification) → Registry → Type 0
  Performs (submits n) = Submits n
  Performs (looks_up key) = LooksUp key
  Performs (marks_processing id) = Changes (with_status processing) id
  Performs (marks_sent id) = Changes (with_status sent) id
  Performs (marks_failed id) = Changes (with_status failed) id
  Performs (marks_dead_lettered id) = Changes (with_status dead_lettered) id
  Performs (counts_attempt id) = Changes with_attempt id

  -- Operations one after another, with their outcomes.
  abbrev pub Allows :
      List Operation → Registry → List (Outcome (Option Notification)) → Registry → Type 0
  Allows [] reg [] after = after ≡ reg
  Allows [] reg (r ∷ rs) after = ⊥
  Allows (op ∷ ops) reg [] after = ⊥
  Allows (op ∷ ops) reg (r ∷ rs) after =
      (between : Registry) × (Performs op reg r between × Allows ops between rs after)

  -- The code: each operation is a method.
  abbrev pub perform : Operation → M P (Option Notification)
  perform (submits n) = do m ← insert_with_outbox P n; pure (some m)
  perform (looks_up key) = find_by_idempotency_key P key
  perform (marks_processing id) = do mark_processing P id; pure none
  perform (marks_sent id) = do mark_sent P id; pure none
  perform (marks_failed id) = do mark_failed P id; pure none
  perform (marks_dead_lettered id) = do mark_dead_lettered P id; pure none
  perform (counts_attempt id) = do increment_attempt_count P id; pure none

  abbrev pub perform_all : List Operation → World P → List (Outcome (Option Notification)) × World P
  perform_all [] w = ([], w)
  perform_all (op ∷ ops) w =
      let (r, v) = perform op w in let (rs, u) = perform_all ops v in (r ∷ rs, u)

  -- What the tables hold for the repository's callers.
  abbrev pub read_found : Option NotificationRow → Option Notification
  read_found none = none
  read_found (some row) = row_to_notification row

  abbrev pub registry : Tables → Registry
  registry t key = read_found (find_key P key t.notifications)
