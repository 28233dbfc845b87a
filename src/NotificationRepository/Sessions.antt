-- ===== src/NotificationRepository/Sessions.antt =====
-- src/NotificationRepository.cpp: how many sessions of the pool each method needs.
use distributed_notification.Base.{
  ℕ, suc, ◌≡◌, refl, String, Option, none, some, List, [], ◌∷◌, arith, ℤ,
}
use distributed_notification.Enums.{Channel, NotificationStatus}
use distributed_notification.Models.{Notification}
use distributed_notification.Platform.{Platform}
use distributed_notification.Effects.{World, blocked, pure}
use distributed_notification.Effects.Calm.{
  IsCalm, IsCalm-pure, IsCalm-throw, IsCalm-bind, IsCalm-then, IsCalm-catch_all,
}
use distributed_notification.Database.{with_session, acquire, execute, start_transaction, rollback}
use distributed_notification.Database.Schema.{NotificationRow}
use distributed_notification.Database.Calm.{
  IsCalm-execute, IsCalm-with_session, IsCalm-start_transaction, IsCalm-commit, IsCalm-rollback,
}
use distributed_notification.NotificationRepository.{
  find_by_id, find_by_idempotency_key, read_row, converted, or_unknown, row_to_notification, new_id,
  insert_notification, insert_row, insert_event, new_row, new_event, write_both,
  insert_in_transaction, or_insert, with_id, insert_with_outbox, read_rows, list, update,
}

module _ (P : Platform) (n : ℕ) where
  or_unknown-IsCalm : (c : String) (m : Option Notification) → IsCalm n (or_unknown P c m)
  or_unknown-IsCalm c none = IsCalm-throw n _
  or_unknown-IsCalm c (some m) = IsCalm-pure n m

  read_row-IsCalm : (row : Option NotificationRow) → IsCalm n (read_row P row)
  read_row-IsCalm none = IsCalm-pure n none
  read_row-IsCalm (some row) =
      IsCalm-bind n (converted P row) (λ m. pure (some m))
        (or_unknown-IsCalm row.channel (row_to_notification row)) (λ m. IsCalm-pure n (some m))

  pub find_by_id-IsCalm : (id : String) → IsCalm (suc n) (find_by_id P id)
  unfolding find_by_id
  find_by_id-IsCalm id =
      IsCalm-with_session n _ (IsCalm-bind n _ (read_row P) (IsCalm-execute n _) read_row-IsCalm)

  pub find_by_idempotency_key-IsCalm :
      (key : String) → IsCalm (suc n) (find_by_idempotency_key P key)
  unfolding find_by_idempotency_key
  find_by_idempotency_key-IsCalm key =
      IsCalm-with_session n _ (IsCalm-bind n _ (read_row P) (IsCalm-execute n _) read_row-IsCalm)

  pub update-IsCalm :
      (f : NotificationRow → NotificationRow) (id : String) → IsCalm (suc n) (update P f id)
  unfolding update
  update-IsCalm f id = IsCalm-with_session n _ (IsCalm-execute n _)

  read_rows-IsCalm : (rows : List NotificationRow) → IsCalm n (read_rows P rows)
  unfolding read_rows
  read_rows-IsCalm [] = IsCalm-pure n []
  read_rows-IsCalm (row ∷ rows) =
      IsCalm-bind n (converted P row) _ (or_unknown-IsCalm row.channel (row_to_notification row))
        λ m. IsCalm-bind n (read_rows P rows) _ (read_rows-IsCalm rows) λ ms. IsCalm-pure n (m ∷ ms)

  pub list-IsCalm :
      (s : Option NotificationStatus) (c : Option Channel) (limit offset : ℤ)
      → IsCalm (suc n) (list P s c limit offset)
  unfolding list
  list-IsCalm s c limit offset =
      IsCalm-with_session n _ (IsCalm-bind n _ (read_rows P) (IsCalm-execute n _) read_rows-IsCalm)

  new_id-IsCalm : IsCalm n (new_id P)
  new_id-IsCalm = record { at = λ w h. record { idle = h; silent = refl; goes_on = refl } }

  insert_notification-IsCalm : (m : Notification) → IsCalm n (insert_notification P m)
  insert_notification-IsCalm m = record {
    at = λ w. (IsCalm-execute n (insert_row P (new_row m w.timestamp))).at w;
  }

  insert_in_transaction-IsCalm : (m : Notification) → IsCalm n (insert_in_transaction P m)
  unfolding insert_in_transaction write_both
  insert_in_transaction-IsCalm m = IsCalm-then n start_transaction _ (IsCalm-start_transaction n) (
      IsCalm-catch_all n _ _
        (IsCalm-then n (insert_notification P m) _ (insert_notification-IsCalm m) (
          IsCalm-then n (execute (insert_event P (new_event m))) _ (IsCalm-execute n _)
            (IsCalm-commit n)))
        (λ e. IsCalm-then n rollback _ (IsCalm-rollback n) (IsCalm-throw n e)))

  or_insert-IsCalm :
      (input : Notification) (found : Option Notification) → IsCalm n (or_insert P input found)
  or_insert-IsCalm input none = IsCalm-bind n (new_id P) _ new_id-IsCalm λ id.
      IsCalm-then n (insert_in_transaction P (with_id input id)) _
        (insert_in_transaction-IsCalm (with_id input id)) (IsCalm-pure n (with_id input id))
  or_insert-IsCalm input (some m) = IsCalm-pure n m

module _ (P : Platform) where
  -- With two or more sessions idle, `insertWithOutbox` never waits, whatever the server refuses, and
  -- gives back both sessions that it takes, also when it throws; the broker is told nothing.
  pub insert_with_outbox-IsCalm :
      (n : ℕ) (input : Notification) → IsCalm (suc (suc n)) (insert_with_outbox P input)
  unfolding insert_with_outbox
  insert_with_outbox-IsCalm n input = IsCalm-with_session (suc n) _ (
      IsCalm-bind (suc n) (find_by_idempotency_key P input.idempotency_key) (or_insert P input)
        (find_by_idempotency_key-IsCalm P n input.idempotency_key)
        (or_insert-IsCalm P (suc n) input))

  -- With one session idle, `insertWithOutbox` waits for ever: it holds that session while it asks
  -- the pool for another.
  pub insert_with_outbox-blocked :
      (input : Notification) (w : World P)
      → w.available ≡ 1
      → (insert_with_outbox P input w).0 ≡ blocked
  unfolding insert_with_outbox with_session acquire find_by_idempotency_key
  insert_with_outbox-blocked input w h = ground arith
