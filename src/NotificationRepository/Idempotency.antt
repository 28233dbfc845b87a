-- ===== src/NotificationRepository/Idempotency.antt =====
-- src/NotificationRepository.cpp: what a second submission under the same key returns, and that no
-- notification stands without its outbox event.
use distributed_notification.Base.{
  ℕ, suc, ◌≡◌, refl, ◌∙◌, ap, subst, inl, inr, String, none, some, List, [], ◌∷◌, map, arith,
}
use distributed_notification.Enums.{pending}
use distributed_notification.Models.{Notification}
use distributed_notification.Platform.{Platform, IsCollation}
use distributed_notification.Effects.{World, Outcome, returns, throws, blocked}
use distributed_notification.Database.Schema.{Tables, NotificationRow}
use distributed_notification.NotificationRepository.{
  find_key, insert_with_outbox, row_to_notification, new_row, update_rows, update_table,
}
use distributed_notification.NotificationRepository.Submission.{
  Submitted, insert_with_outbox-Submitted,
}
use distributed_notification.Database.Laws.{with_session-returns}
use distributed_notification.NotificationRepository.Quiet.{IsQuiet, find_by_idempotency_key-quiet}
use distributed_notification.NotificationRepository.Rows.{as_stored, row_to_notification-new_row}

-- Each notification stands with exactly one outbox event, in the same order.
abbrev pub IsPaired : Tables → Type 0
IsPaired t = map (λ n. n.id) t.notifications ≡ map (λ e. e.notification_id) t.outbox

module _ (P : Platform) where
  outcome-IsPaired :
      (input : Notification) (w : World P) (r : Outcome Notification) (v : World P)
      → IsPaired w.tables
      → Submitted P input w r v
      → IsPaired v.tables
  outcome-IsPaired input w (returns m) v h (inl k) = ground (arith, k.3)
  outcome-IsPaired input w (returns m) v h (inr k) = rw k.2 (ap (λ ids. m.id ∷ ids) h)
  outcome-IsPaired input w (throws e) v h k = ground (arith, k)
  outcome-IsPaired input w blocked v h k = absurd k

  -- A submission, whether it returns or throws and whatever the server refuses, keeps every
  -- notification paired with one outbox event.
  pub insert_with_outbox-IsPaired :
      (input : Notification) (w : World P) (n : ℕ)
      → w.available ≡ suc (suc n)
      → w.snapshot ≡ none
      → IsPaired w.tables
      → IsPaired (insert_with_outbox P input w).1.tables
  insert_with_outbox-IsPaired input w n a s h =
      let q = insert_with_outbox P input w in
      outcome-IsPaired input w q.0 q.1 h (insert_with_outbox-Submitted P input w n a s).0

  ids-update_rows :
      (f : NotificationRow → NotificationRow) (id : String) (rows : List NotificationRow)
      → ((row : NotificationRow) → (f row).id ≡ row.id)
      → map (λ n. n.id) (update_rows P f id rows) ≡ map (λ n. n.id) rows
  unfolding update_rows
  ids-update_rows f id [] same = refl
  ids-update_rows f id (row ∷ rows) same = ground (arith, same row, ids-update_rows f id rows same)

  -- A change of status or of the attempt count keeps the pairing: it holds of every update that
  -- leaves the ids alone.
  pub update_table-IsPaired :
      (f : NotificationRow → NotificationRow) (id : String) (t : Tables)
      → ((row : NotificationRow) → (f row).id ≡ row.id)
      → IsPaired t
      → IsPaired (update_table P f id t)
  update_table-IsPaired f id t same h = ids-update_rows f id t.notifications same ∙ h

  -- What a lookup of the key finds after a submission that returned m.
  stored-Submitted :
      (laws : IsCollation P) (input m : Notification) (w v : World P)
      → Submitted P input w (returns m) v
      → (row : NotificationRow) × (x : Notification) × (find_key P input.idempotency_key
            v.tables.notifications
          ≡ some row)
        × (row_to_notification row ≡ some x)
        × (x.id ≡ m.id)
  unfolding find_key
  stored-Submitted laws input m w v (inl k) = (k.0, m, ground (arith, k.1, k.3), k.2, refl)
  stored-Submitted laws input m w v (inr k) = (
    new_row m w.timestamp,
    as_stored m pending,
    rw (k.2, k.1, laws.same_refl input.idempotency_key),
    row_to_notification-new_row m pending w.timestamp,
    refl,
  )

  -- A submission returned m. A later one with the same key, once the server takes every statement
  -- and two sessions are idle, returns a notification with the id of m and changes nothing, whatever
  -- else it says.
  pub resubmission :
      (laws : IsCollation P) (input again m : Notification) (w v u : World P) (n k : ℕ)
      → w.available ≡ suc (suc n)
      → w.snapshot ≡ none
      → insert_with_outbox P input w ≡ (returns m, v)
      → IsQuiet (suc k) u
      → u.tables ≡ v.tables
      → again.idempotency_key ≡ input.idempotency_key
      → (x : Notification) × (insert_with_outbox P again u ≡ (returns x, u)) × (x.id ≡ m.id)
  unfolding insert_with_outbox
  resubmission laws input again m w v u n k a s e quiet t same =
      let q = insert_with_outbox-Submitted P input w n a s in
      let held =
        subst (λ (q : Outcome Notification × World P). Submitted P input w q.0 q.1) e q.0 in
      let (row, x, found, reads, eq) = stored-Submitted laws input m w v held in
      let y : World P = record u { available = suc k } in
      let there : find_key P again.idempotency_key u.tables.notifications ≡ some row =
        rw (same, t) found in
      let hit =
        find_by_idempotency_key-quiet P k y (record { idle = refl; accepting = quiet.accepting })
          again.idempotency_key row x there reads in
      (x, with_session-returns _ u (suc k) x u.tables quiet.idle (rw hit), eq)
