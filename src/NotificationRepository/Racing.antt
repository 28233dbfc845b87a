-- ===== src/NotificationRepository/Racing.antt =====
-- src/NotificationRepository.cpp: submissions under one key that have all looked the key up before any
-- of them stores its notification. Each holds the session for its transaction, which is not counted
-- among the idle ones here; the server makes the transactions wait for one another at the unique key.
use distributed_notification.Base.{
  ℕ, suc, ◌≡◌, refl, sym, ◌∙◌, ap, ◌⊎◌, inl, inr, String, Option, none, some, List, [], ◌∷◌,
}
use distributed_notification.Models.{Notification}
use distributed_notification.Platform.{Platform, IsCollation}
use distributed_notification.Effects.{World, Outcome, returns, throws, blocked, continue, pure}
use distributed_notification.IdGenerator.{uuid4}
use distributed_notification.Database.Schema.{Tables, NotificationRow}
use distributed_notification.NotificationRepository.{
  find_key, find_by_idempotency_key, new_id, new_row, with_id, insert_in_transaction, or_insert,
}
use distributed_notification.NotificationRepository.Atomic.{
  with_both, Transacted, insert_in_transaction-Transacted,
}
use distributed_notification.NotificationRepository.Submission.{IsLook, find-IsLook}

module _ (P : Platform) where
  -- All look their keys up, one after the other.
  abbrev looks : List Notification → World P → List (Outcome (Option Notification)) × World P
  looks [] w = ([], w)
  looks (input ∷ inputs) w =
      let (r, v) = find_by_idempotency_key P input.idempotency_key w in
      let (rs, u) = looks inputs v in (r ∷ rs, u)

  -- Each goes on with what it has found, one transaction after the other.
  abbrev go_on :
      List Notification
      → List (Outcome (Option Notification))
      → World P
      → List (Outcome Notification) × World P
  go_on [] rs w = ([], w)
  go_on (input ∷ inputs) [] w = ([], w)
  go_on (input ∷ inputs) (r ∷ rs) w =
      let (o, v) = continue r (or_insert P input) w in
      let (os, u) = go_on inputs rs v in (o ∷ os, u)

  abbrev pub together : List Notification → World P → List (Outcome Notification) × World P
  together inputs w = let (rs, v) = looks inputs w in go_on inputs rs v

  abbrev pub AllKeyed : String → List Notification → Type 0
  AllKeyed key [] = Unit {0}
  AllKeyed key (input ∷ inputs) = (input.idempotency_key ≡ key) × AllKeyed key inputs

  abbrev pub AllThrow : List (Outcome Notification) → Type 0
  AllThrow [] = Unit {0}
  AllThrow (returns m ∷ os) = ⊥
  AllThrow (throws e ∷ os) = AllThrow os
  AllThrow (blocked ∷ os) = ⊥

  -- One of them returns, with its input and a new id; the others throw.
  abbrev pub OneReturns : Notification → List Notification → List (Outcome Notification) → Type 0
  OneReturns m [] os = ⊥
  OneReturns m (input ∷ inputs) [] = ⊥
  OneReturns m (input ∷ inputs) (returns x ∷ os) = (x ≡ m) × (x ≡ with_id input x.id) × AllThrow os
  OneReturns m (input ∷ inputs) (throws e ∷ os) = OneReturns m inputs os
  OneReturns m (input ∷ inputs) (blocked ∷ os) = ⊥

  abbrev AllFree : List (Outcome (Option Notification)) → Type 0
  AllFree [] = Unit {0}
  AllFree (returns none ∷ rs) = AllFree rs
  AllFree (returns (some m) ∷ rs) = ⊥
  AllFree (throws e ∷ rs) = AllFree rs
  AllFree (blocked ∷ rs) = ⊥

  abbrev Untouched : World P → World P → Type 0
  Untouched w u = (u.tables ≡ w.tables) × (u.snapshot ≡ none)

  -- What all leave: nothing, or one of them its row and its outbox event.
  abbrev pub Raced : List Notification → World P → List (Outcome Notification) → World P → Type 0
  Raced inputs w os u =
      (AllThrow os × Untouched w u)
      ⊎ ((m : Notification) × OneReturns m inputs os
          × (ts : ℕ) × (u.tables ≡ with_both m ts w.tables)
          × (u.snapshot ≡ none))

  -- What one leaves that has found no notification.
  abbrev Ran : Notification → World P → Outcome Notification → World P → Type 0
  Ran input w (returns m) v =
      (m ≡ with_id input m.id)
      × (v.tables ≡ with_both m w.timestamp w.tables)
      × (v.snapshot ≡ none)
      × (find_key P input.idempotency_key w.tables.notifications ≡ none)
  Ran input w (throws e) v = Untouched w v
  Ran input w blocked v = ⊥

  Transacted-Ran :
      (input : Notification) (w u : World P) (id : String) (r : Outcome (Unit {0})) (v : World P)
      → Transacted P (with_id input id) w.timestamp w.tables r v
      → let q = continue r (λ _. pure (with_id input id)) v in Ran input w q.0 q.1
  Transacted-Ran input w u id (returns x) v h = (refl, h.0, h.1, h.3)
  Transacted-Ran input w u id (throws e) v h = h
  Transacted-Ran input w u id blocked v h = absurd h

  or_insert-Ran :
      (input : Notification) (w : World P)
      → w.snapshot ≡ none
      → let q = or_insert P input none w in Ran input w q.0 q.1
  or_insert-Ran input w s =
      let u : World P = (new_id P w).1 in
      let id : String = (uuid4 P w.rng).0 in
      let q = insert_in_transaction P (with_id input id) u in
      Transacted-Ran input w u id q.0 q.1
        (insert_in_transaction-Transacted P (with_id input id) u s)

  continued-Ran :
      (input : Notification) (r : Outcome (Option Notification))
      (rs : List (Outcome (Option Notification))) (w : World P)
      → AllFree (r ∷ rs)
      → w.snapshot ≡ none
      → (let q = continue r (or_insert P input) w in Ran input w q.0 q.1) × AllFree rs
  continued-Ran input (returns none) rs w free s = (or_insert-Ran input w s, free)
  continued-Ran input (returns (some m)) rs w free s = absurd free
  continued-Ran input (throws e) rs w free s = ((refl, s), free)
  continued-Ran input blocked rs w free s = absurd free

  module _ (laws : IsCollation P) (key : String) where
    abbrev IsFree : World P → Type 0
    IsFree w = find_key P key w.tables.notifications ≡ none

    abbrev IsTaken : World P → Type 0
    IsTaken w = (row : NotificationRow) × (find_key P key w.tables.notifications ≡ some row)

    taken-next :
        (input : Notification) (w : World P) (o : Outcome Notification) (v : World P)
        (os : List (Outcome Notification)) (u : World P)
        → input.idempotency_key ≡ key
        → IsTaken w
        → Ran input w o v
        → (IsTaken v → v.snapshot ≡ none → AllThrow os × Untouched v u)
        → AllThrow (o ∷ os) × Untouched w u
    taken-next input w (returns m) v os u same (row, there) h rest =
        let free = sym (ap (λ k. find_key P k w.tables.notifications) same) ∙ h.3 in
        let clash : none ≡ some row = sym free ∙ there in absurd (cc)
    taken-next input w (throws e) v os u same (row, there) h rest =
        let p = rest (row, ap (λ (t : Tables). find_key P key t.notifications) h.0 ∙ there) h.1 in
        (p.0, (p.1.0 ∙ h.0, p.1.1))
    taken-next input w blocked v os u same there h rest = absurd h

    -- With the key taken, none of them returns.
    go_on-AllThrow :
        (inputs : List Notification) (rs : List (Outcome (Option Notification))) (w : World P)
        → AllKeyed key inputs
        → AllFree rs
        → w.snapshot ≡ none
        → IsTaken w
        → let q = go_on inputs rs w in AllThrow q.0 × Untouched w q.1
    go_on-AllThrow [] rs w keyed free s there = (tt, (refl, s))
    go_on-AllThrow (input ∷ inputs) [] w keyed free s there = (tt, (refl, s))
    go_on-AllThrow (input ∷ inputs) (r ∷ rs) w keyed free s there =
        let (ran, more) = continued-Ran input r rs w free s in
        let q = continue r (or_insert P input) w in
        let z = go_on inputs rs q.1 in
        taken-next input w q.0 q.1 z.0 z.1 keyed.0 there ran
          (λ t e. go_on-AllThrow inputs rs q.1 keyed.1 more e t)

    stored-IsTaken :
        (m : Notification) (ts : ℕ) (t : Tables)
        → m.idempotency_key ≡ key
        → (row : NotificationRow) × (find_key P key (with_both m ts t).notifications ≡ some row)
    unfolding find_key
    stored-IsTaken m ts t same = (new_row m ts, rw (same, laws.same_refl key) refl)

    free-next :
        (input : Notification) (inputs : List Notification) (w : World P) (o : Outcome Notification)
        (v : World P) (os : List (Outcome Notification)) (u : World P)
        → input.idempotency_key ≡ key
        → IsFree w
        → Ran input w o v
        → (IsFree v → v.snapshot ≡ none → Raced inputs v os u)
        → (IsTaken v → v.snapshot ≡ none → AllThrow os × Untouched v u)
        → Raced (input ∷ inputs) w (o ∷ os) u
    free-next input inputs w (returns m) v os u same free h rest others =
        let named : m.idempotency_key ≡ key =
          ap (λ (x : Notification). x.idempotency_key) h.0 ∙ same in
        let (row, there) = stored-IsTaken m w.timestamp w.tables named in
        let p = others (row, ap (λ (t : Tables). find_key P key t.notifications) h.1 ∙ there) h.2 in
        inr (m, (refl, h.0, p.0), w.timestamp, p.1.0 ∙ h.1, p.1.1)
    free-next input inputs w (throws e) v os u same free h rest others =
        elim (rest (ap (λ (t : Tables). find_key P key t.notifications) h.0 ∙ free) h.1) [
          | inl (all, (tables, s)) ↦ inl (all, (tables ∙ h.0, s))
          | inr (m, one, ts, tables, s) ↦ inr (m, one, ts, tables ∙ ap (with_both m ts) h.0, s)
        ]
    free-next input inputs w blocked v os u same free h rest others = absurd h

    go_on-Raced :
        (inputs : List Notification) (rs : List (Outcome (Option Notification))) (w : World P)
        → AllKeyed key inputs
        → AllFree rs
        → w.snapshot ≡ none
        → IsFree w
        → let q = go_on inputs rs w in Raced inputs w q.0 q.1
    go_on-Raced [] rs w keyed free s unused = inl (tt, (refl, s))
    go_on-Raced (input ∷ inputs) [] w keyed free s unused = inl (tt, (refl, s))
    go_on-Raced (input ∷ inputs) (r ∷ rs) w keyed free s unused =
        let (ran, more) = continued-Ran input r rs w free s in
        let q = continue r (or_insert P input) w in
        let z = go_on inputs rs q.1 in
        free-next input inputs w q.0 q.1 z.0 z.1 keyed.0 unused ran
          (λ f e. go_on-Raced inputs rs q.1 keyed.1 more e f)
          (λ t e. go_on-AllThrow inputs rs q.1 keyed.1 more e t)

    looked-AllFree :
        (k : String) (w : World P) (r : Outcome (Option Notification)) (v : World P)
        (rs : List (Outcome (Option Notification)))
        → k ≡ key
        → IsFree w
        → IsLook P k w r v
        → AllFree rs
        → AllFree (r ∷ rs)
    looked-AllFree k w (returns none) v rs same free h rest = rest
    looked-AllFree k w (returns (some m)) v rs same free h rest =
        let there = sym (ap (λ x. find_key P x w.tables.notifications) same) ∙ h.looked.1 in
        let clash : none ≡ some h.looked.0 = sym free ∙ there in absurd (cc)
    looked-AllFree k w (throws e) v rs same free h rest = rest
    looked-AllFree k w blocked v rs same free h rest = absurd h.looked

    looks-AllFree :
        (n : ℕ) (inputs : List Notification) (w : World P)
        → AllKeyed key inputs
        → w.available ≡ suc n
        → w.snapshot ≡ none
        → IsFree w
        → let q = looks inputs w in AllFree q.0 × Untouched w q.1
    looks-AllFree n [] w keyed a s free = (tt, (refl, s))
    looks-AllFree n (input ∷ inputs) w keyed a s free =
        let h = find-IsLook P input.idempotency_key w n a in
        let q = find_by_idempotency_key P input.idempotency_key w in
        let p =
          looks-AllFree n inputs q.1 keyed.1 (h.idle ∙ a) (h.snapshot ∙ s)
            (ap (λ (t : Tables). find_key P key t.notifications) h.tables ∙ free) in
        (
          looked-AllFree input.idempotency_key w q.0 q.1 (looks inputs q.1).0 keyed.0 free h p.0,
          (p.1.0 ∙ h.tables, p.1.1),
        )

  -- Any number of submissions with the same free key look it up before any of them stores its
  -- notification, with a session idle for the look-ups and no transaction under way, whatever the
  -- server refuses. Then none of them waits for ever, and either all throw and the tables are as they
  -- were, or exactly one returns, its input with an id and the status PENDING, the others throw, and
  -- the tables have its row and its outbox event more.
  pub together-Raced :
      (laws : IsCollation P) (key : String) (inputs : List Notification) (w : World P) (n : ℕ)
      → AllKeyed key inputs
      → w.available ≡ suc n
      → w.snapshot ≡ none
      → find_key P key w.tables.notifications ≡ none
      → let q = together inputs w in Raced inputs w q.0 q.1
  together-Raced laws key inputs w n keyed a s free =
      let h = looks-AllFree laws key n inputs w keyed a s free in
      let (rs, v) = looks inputs w in
      elim (go_on-Raced laws key inputs rs v keyed h.0 h.1.1
        (ap (λ (t : Tables). find_key P key t.notifications) h.1.0 ∙ free)) [
          | inl (all, (tables, snapshot)) ↦ inl (all, (tables ∙ h.1.0, snapshot))
          | inr (m, one, ts, tables, snapshot) ↦
              inr (m, one, ts, tables ∙ ap (with_both m ts) h.1.0, snapshot)
        ]
