-- ===== src/NotificationRepository/Atomic.antt =====
-- src/NotificationRepository.cpp: the transaction of `insertWithOutbox`.
use distributed_notification.Base.{
  ℕ, ◌≡◌, refl, String, Option, none, some, List, [], ◌∷◌, inl, inr, Option-cases, arith,
}
use distributed_notification.Models.{Notification}
use distributed_notification.Platform.{Platform}
use distributed_notification.Effects.{
  World, Exception, Outcome, returns, throws, blocked, throw, ◌>>◌, catch_all, recover,
}
use distributed_notification.Database.{execute, ask, consult, start_transaction, commit, rollback}
use distributed_notification.Database.Schema.{Tables}
use distributed_notification.NotificationRepository.{
  find_row, find_key, insert_row, insert_event, new_row, new_event, write_both,
  insert_in_transaction,
}

-- The tables with the row of a notification, and its event.
abbrev pub with_both : Notification → ℕ → Tables → Tables
with_both m timestamp t = record t {
  notifications = new_row m timestamp ∷ t.notifications;
  outbox = new_event m ∷ t.outbox;
}

module _ (P : Platform) where
  -- In a transaction that began at the tables t; the id and the key were free.
  abbrev pub Written : Notification → ℕ → Tables → Outcome (Unit {0}) → World P → Type 0
  Written m ts t (returns u) v =
      (v.tables ≡ with_both m ts t)
      × (v.snapshot ≡ none)
      × (find_row P m.id t.notifications ≡ none)
      × (find_key P m.idempotency_key t.notifications ≡ none)
  Written m ts t (throws e) v = v.snapshot ≡ some t
  Written m ts t blocked v = ⊥

  write_both-Written :
      (m : Notification) (w : World P)
      → w.snapshot ≡ some w.tables
      → Written m w.timestamp w.tables (write_both P m w).0 (write_both P m w).1
  unfolding write_both execute ask insert_row insert_event commit
  write_both-Written m w h = elim (Option-cases (find_row P m.id w.tables.notifications)) [
    | inl free ↦ elim (Option-cases (find_key P m.idempotency_key w.tables.notifications)) [
      | inl unused ↦ ground (arith, free, unused)
      | inr (row, used) ↦ ground (arith, free, used)
    ]
    | inr (row, taken) ↦ ground (arith, taken)
  ]

  -- The outcome and the world after the transaction: both rows, or the tables as they were.
  abbrev pub Transacted : Notification → ℕ → Tables → Outcome (Unit {0}) → World P → Type 0
  Transacted m ts t (returns u) v =
      (v.tables ≡ with_both m ts t)
      × (v.snapshot ≡ none)
      × (find_row P m.id t.notifications ≡ none)
      × (find_key P m.idempotency_key t.notifications ≡ none)
  Transacted m ts t (throws e) v = (v.tables ≡ t) × (v.snapshot ≡ none)
  Transacted m ts t blocked v = ⊥

  -- The `catch` block, and the `throw` in it.
  undo-Transacted :
      (m : Notification) (ts : ℕ) (t : Tables) (r : Outcome (Unit {0})) (e : Exception)
      (v : World P)
      → v.snapshot ≡ some t
      → let q = (rollback >> throw e) v in Transacted m ts t q.0 q.1
  unfolding rollback ask
  undo-Transacted m ts t r e v h = ground arith

  finish-Transacted :
      (m : Notification) (ts : ℕ) (t : Tables) (r : Outcome (Unit {0})) (v : World P)
      → Written m ts t r v
      → let q = recover r (λ e. rollback >> throw e) v in Transacted m ts t q.0 q.1
  finish-Transacted m ts t (returns u) v h = h
  finish-Transacted m ts t (throws e) v h = undo-Transacted m ts t (throws e) e v h
  finish-Transacted m ts t blocked v h = absurd h

  pub insert_in_transaction-Transacted :
      (m : Notification) (w : World P)
      → w.snapshot ≡ none
      → let q = insert_in_transaction P m w in Transacted m w.timestamp w.tables q.0 q.1
  unfolding insert_in_transaction start_transaction ask
  insert_in_transaction-Transacted m w h = begun w.outcomes
    where
      after : (os : List (Option String)) → World P
      after os = record w { snapshot = some w.tables; outcomes = os }

      both :
          (os : List (Option String))
          → let q = catch_all (write_both P m) (λ e. rollback >> throw e) (after os) in
            Transacted m w.timestamp w.tables q.0 q.1
      both os =
          let q = write_both P m (after os) in
          finish-Transacted m w.timestamp w.tables q.0 q.1 (write_both-Written m (after os) refl)

      begun :
          (os : List (Option String))
          → let q =
              (consult os (λ v. (returns tt, record v { snapshot = some v.tables }))
                  >> catch_all (write_both P m) (λ e. rollback >> throw e))
                w in
            Transacted m w.timestamp w.tables q.0 q.1
      begun [] = both w.outcomes
      begun (none ∷ rest) = both rest
      begun (some e ∷ rest) = (refl, h)
