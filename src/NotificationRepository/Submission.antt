-- ===== src/NotificationRepository/Submission.antt =====
-- src/NotificationRepository.cpp: what `insertWithOutbox` leaves in the tables.
use distributed_notification.Base.{
  ℕ, suc, ◌≡◌, refl, sym, ◌∙◌, subst, ◌⊎◌, inl, inr, String, Option, none, some, List, [], ◌∷◌,
  arith,
}
use distributed_notification.Models.{Notification}
use distributed_notification.Platform.{Platform}
use distributed_notification.Effects.{
  World, M, Outcome, returns, throws, blocked, continue, pure, ◌>>=◌,
}
use distributed_notification.Database.{reply, release, give_back, execute, ask, consult, answer}
use distributed_notification.Database.Laws.{with_session_lem}
use distributed_notification.IdGenerator.{uuid4}
use distributed_notification.Database.Schema.{Tables, NotificationRow}
use distributed_notification.NotificationRepository.{
  find_row, find_key, find_by_idempotency_key, read_row, row_to_notification, new_id, with_id,
  insert_in_transaction, or_insert, insert_with_outbox,
}
use distributed_notification.NotificationRepository.Atomic.{
  with_both, Transacted, insert_in_transaction-Transacted,
}

module _ (P : Platform) where
  -- What looking a key up says of the tables.
  abbrev pub Looked : String → Tables → Outcome (Option Notification) → Type 0
  Looked key t (returns none) = find_key P key t.notifications ≡ none
  Looked key t (returns (some m)) =
      (row : NotificationRow) × (find_key P key t.notifications ≡ some row)
      × (row_to_notification row ≡ some m)
  Looked key t (throws e) = Unit {0}
  Looked key t blocked = ⊥

  -- A look changes no more of the world than the outcomes that are left.
  pub record IsLook (key : String) (w : World P) (r : Outcome (Option Notification)) (v : World P)
      : Type 0 where
    pub looked : Looked key w.tables r
    pub tables : v.tables ≡ w.tables
    pub snapshot : v.snapshot ≡ w.snapshot
    pub timestamp : v.timestamp ≡ w.timestamp
    pub idle : v.available ≡ w.available

  read-IsLook :
      (key : String) (w : World P) (o : Option NotificationRow)
      → find_key P key w.tables.notifications ≡ o
      → IsLook key w (read_row P o w).0 (read_row P o w).1
  read-IsLook key w none h = record {
    looked = h;
    tables = refl;
    snapshot = refl;
    timestamp = refl;
    idle = refl;
  }
  read-IsLook key w (some row) h = ground arith

  given_back-IsLook :
      (key : String) (w : World P) (n : ℕ) (r : Outcome (Option Notification)) (v : World P)
      → w.available ≡ suc n
      → IsLook key (record w { available = n }) r v
      → let q = give_back (r, v) in IsLook key w q.0 q.1
  unfolding release
  given_back-IsLook key w n (returns a) v h k = record {
    looked = k.looked;
    tables = k.tables;
    snapshot = k.snapshot;
    timestamp = k.timestamp;
    idle = omega (arith, k.idle);
  }
  given_back-IsLook key w n (throws e) v h k = record {
    looked = tt;
    tables = k.tables;
    snapshot = k.snapshot;
    timestamp = k.timestamp;
    idle = omega (arith, k.idle);
  }
  given_back-IsLook key w n blocked v h k = absurd k.looked

  abbrev look : String → M P (Option Notification)
  look key = do row ← execute (λ t. reply (find_key P key t.notifications) t); read_row P row

  asked-IsLook : (key : String) (w : World P) → IsLook key w (look key w).0 (look key w).1
  unfolding execute ask
  asked-IsLook key w = answered w.outcomes
    where
      answered :
          (os : List (Option String))
          → let m = λ (v : World P).
            answer {P = P} (reply (find_key P key v.tables.notifications) v.tables) v in
            let q = (consult os m >>= read_row P) w in IsLook key w q.0 q.1
      answered [] = read-IsLook key w (find_key P key w.tables.notifications) refl
      answered (none ∷ rest) =
          let k =
            read-IsLook key (record w { outcomes = rest }) (find_key P key w.tables.notifications)
              refl in
          record {
            looked = k.looked;
            tables = k.tables;
            snapshot = k.snapshot;
            timestamp = k.timestamp;
            idle = k.idle;
          }
      answered (some e ∷ rest) = record {
        looked = tt;
        tables = refl;
        snapshot = refl;
        timestamp = refl;
        idle = refl;
      }

  pub find-IsLook :
      (key : String) (w : World P) (n : ℕ)
      → w.available ≡ suc n
      → IsLook key w (find_by_idempotency_key P key w).0 (find_by_idempotency_key P key w).1
  unfolding find_by_idempotency_key
  find-IsLook key w n h =
      let v : World P = record w { available = n } in
      subst (λ (q : Outcome (Option Notification) × World P). IsLook key w q.0 q.1)
        (sym (with_session_lem (look key) w n h))
        (given_back-IsLook key w n (look key v).0 (look key v).1 h (asked-IsLook key v))

  -- What a submission leaves: the stored notification and the tables as they were, if the key is
  -- taken; else both new rows; on an exception the tables as they were.
  abbrev pub Submitted : Notification → World P → Outcome Notification → World P → Type 0
  Submitted input w (returns m) v =
      ((row : NotificationRow) × (find_key P input.idempotency_key w.tables.notifications
          ≡ some row)
        × (row_to_notification row ≡ some m)
        × (v.tables ≡ w.tables))
      ⊎ ((find_key P input.idempotency_key w.tables.notifications ≡ none)
          × (m ≡ with_id input m.id)
          × (v.tables ≡ with_both m w.timestamp w.tables)
          × (find_row P m.id w.tables.notifications ≡ none))
  Submitted input w (throws e) v = v.tables ≡ w.tables
  Submitted input w blocked v = ⊥

  stored :
      (input : Notification) (w u : World P) (id : String) (r : Outcome (Unit {0})) (v : World P)
      → find_key P input.idempotency_key w.tables.notifications ≡ none
      → u.tables ≡ w.tables
      → u.timestamp ≡ w.timestamp
      → Transacted P (with_id input id) u.timestamp u.tables r v
      → let q = continue r (λ _. pure (with_id input id)) v in
        Submitted input w q.0 q.1 × (q.1.snapshot ≡ none)
  stored input w u id (returns x) v f t ts h =
      (inr (f, refl, ground (arith, h.0), ground (arith, h.2)), h.1)
  stored input w u id (throws e) v f t ts h = (h.0 ∙ t, h.1)
  stored input w u id blocked v f t ts h = absurd h

  looked_up :
      (input : Notification) (w : World P) (r : Outcome (Option Notification)) (v : World P)
      → w.snapshot ≡ none
      → IsLook input.idempotency_key w r v
      → let q = continue r (or_insert P input) v in
        Submitted input w q.0 q.1 × (q.1.snapshot ≡ none)
  looked_up input w (returns (some m)) v s k =
      (inl (k.looked.0, k.looked.1, k.looked.2, k.tables), k.snapshot ∙ s)
  looked_up input w (returns none) v s k =
      let u : World P = (new_id P v).1 in
      let id : String = (uuid4 P v.rng).0 in
      let q = insert_in_transaction P (with_id input id) u in
      stored input w u id q.0 q.1 k.looked k.tables k.timestamp
        (insert_in_transaction-Transacted P (with_id input id) u (k.snapshot ∙ s))
  looked_up input w (throws e) v s k = (k.tables, k.snapshot ∙ s)
  looked_up input w blocked v s k = absurd k.looked

  returned :
      (input : Notification) (w : World P) (n : ℕ) (r : Outcome Notification) (v : World P)
      → Submitted input (record w { available = n }) r v × (v.snapshot ≡ none)
      → let q = give_back (r, v) in Submitted input w q.0 q.1 × (q.1.snapshot ≡ none)
  unfolding release
  returned input w n (returns m) v h = h
  returned input w n (throws e) v h = h
  returned input w n blocked v h = h

  -- With two or more sessions idle and no transaction under way, whatever the server refuses,
  -- `insertWithOutbox` ends with no transaction under way. If it returns a notification, then either
  -- that is the one stored under the key and the tables are as they were, or the key was free, it is
  -- the input with an id that was free and the status PENDING, and its row and its outbox event have both been
  -- added. If it throws, the tables are as they were. It does not block.
  pub insert_with_outbox-Submitted :
      (input : Notification) (w : World P) (n : ℕ)
      → w.available ≡ suc (suc n)
      → w.snapshot ≡ none
      → let q = insert_with_outbox P input w in Submitted input w q.0 q.1 × (q.1.snapshot ≡ none)
  unfolding insert_with_outbox
  insert_with_outbox-Submitted input w n h s =
      let v : World P = record w { available = suc n } in
      let f = find_by_idempotency_key P input.idempotency_key v in
      let r = continue f.0 (or_insert P input) f.1 in
      subst
        (λ (q : Outcome Notification × World P). Submitted input w q.0 q.1 × (q.1.snapshot ≡ none))
        (sym (with_session_lem _ w (suc n) h))
        (returned input w (suc n) r.0 r.1
          (looked_up input v f.0 f.1 s (find-IsLook input.idempotency_key v n refl)))
