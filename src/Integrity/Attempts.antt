-- ===== src/Integrity/Attempts.antt =====
-- src/DeliveryAttemptRepository.cpp: what the upsert of an attempt leaves of the others.
use distributed_notification.Base.{
  ℕ, ◌+◌, ◌≡◌, refl, sym, ap, ◌∙◌, subst, ◌⊎◌, inl, inr, true, false, String, some, List, [], ◌∷◌,
  Bool-cases, Option-cases, arith,
}
use distributed_notification.Models.{DeliveryAttempt}
use distributed_notification.Platform.{Platform, IsCollation}
use distributed_notification.Database.{reply, refuse}
use distributed_notification.Database.Schema.{Tables, NotificationRow, AttemptRow}
use distributed_notification.NotificationRepository.{find_row}
use distributed_notification.NotificationRepository.Lookup.{find_row-same}
use distributed_notification.DeliveryAttemptRepository.{
  has_key, new_attempt, find_attempt, overwrite_attempt, upsert,
}
use distributed_notification.DeliveryAttemptRepository.Upsert.{IsRecorded, upsert-IsRecorded}
use distributed_notification.Integrity.{AllOwned}

module _ (P : Platform) (laws : IsCollation P) where
  -- Texts that are the same for the server find the same attempt.
  pub find_attempt-same :
      (id other : String) (n : ℕ) (rows : List AttemptRow)
      → P.same_text id other ≡ true
      → find_attempt P other n rows ≡ find_attempt P id n rows
  unfolding find_attempt
  find_attempt-same id other n [] e = refl
  find_attempt-same id other n (x ∷ rows) e = ground (
    arith,
    e,
    laws.same_trans x.notification_id id other,
    laws.same_trans x.notification_id other id,
    laws.same_sym id other,
    find_attempt-same id other n rows e,
  )

  find_attempt-overwrite_ne :
      (a : DeliveryAttempt) (n : ℕ) (other : String) (k : ℕ) (rows : List AttemptRow)
      → P.same_text a.notification_id other ≡ false
      → find_attempt P other k (overwrite_attempt P a n rows) ≡ find_attempt P other k rows
  unfolding find_attempt overwrite_attempt
  find_attempt-overwrite_ne a n other k [] ne = refl
  find_attempt-overwrite_ne a n other k (x ∷ rows) ne = ground (
    arith,
    ne,
    laws.same_trans a.notification_id x.notification_id other,
    laws.same_sym x.notification_id a.notification_id,
    find_attempt-overwrite_ne a n other k rows ne,
  )

  overwrite-AllOwned :
      (a : DeliveryAttempt) (n : ℕ) (rows : List NotificationRow) (attempts : List AttemptRow)
      → AllOwned P rows attempts
      → AllOwned P rows (overwrite_attempt P a n attempts)
  unfolding overwrite_attempt
  overwrite-AllOwned a n rows [] h = tt
  overwrite-AllOwned a n rows (x ∷ attempts) ((row, found), h) =
      ((row, ground (arith, found)), overwrite-AllOwned a n rows attempts h)

  -- An attempt that is found has a notification that is found.
  found_owner :
      (id : String) (n : ℕ) (rows : List NotificationRow) (attempts : List AttemptRow)
      (a : AttemptRow)
      → AllOwned P rows attempts
      → find_attempt P id n attempts ≡ some a
      → (row : NotificationRow) × (find_row P id rows ≡ some row)
  unfolding find_attempt
  found_owner id n rows [] a h e = cc
  found_owner id n rows (x ∷ attempts) a ((row, found), h) e =
      elim (Bool-cases (has_key P id n x)) [
        | inl hit ↦
            (row, find_row-same P laws x.notification_id id rows (ground (arith, hit)) ∙ found)
        | inr miss ↦ found_owner id n rows attempts a h (ground (arith, miss, e))
      ]

  abbrev overwritten : DeliveryAttempt → ℕ → Tables → Tables
  overwritten a n t = record t {
    attempts = overwrite_attempt P a n t.attempts;
    next_attempt_id = t.next_attempt_id + 1;
  }

  abbrev added : DeliveryAttempt → ℕ → Tables → Tables
  added a n t = record t {
    attempts = new_attempt a n t.next_attempt_id ∷ t.attempts;
    next_attempt_id = t.next_attempt_id + 1;
  }

  -- The tables after an upsert that succeeds.
  upsert-inv :
      (a : DeliveryAttempt) (n : ℕ) (t t' : Tables)
      → upsert P a n t ≡ reply tt t'
      → (t' ≡ overwritten a n t)
        ⊎ ((t' ≡ added a n t)
            × ((row : NotificationRow) × (find_row P a.notification_id t.notifications ≡ some row)))
  unfolding upsert
  upsert-inv a n t t' h = elim (Option-cases (find_attempt P a.notification_id n t.attempts)) [
    | inr (old, e) ↦ inl (ground (arith, e, h))
    | inl e ↦ elim (Option-cases (find_row P a.notification_id t.notifications)) [
      | inr (row, f) ↦ inr (ground (arith, e, f, h), (row, f))
      | inl f ↦ absurd (ground (arith, e, f, h))
    ]
  ]

  added-others :
      (a : DeliveryAttempt) (n : ℕ) (t : Tables) (other : String) (k : ℕ)
      → P.same_text a.notification_id other ≡ false
      → find_attempt P other k (added a n t).attempts ≡ find_attempt P other k t.attempts
  unfolding find_attempt
  added-others a n t other k ne = rw ne refl

  -- What an upsert that succeeds leaves: the attempt under its key, the attempts of other
  -- notifications as they were, and all owned.
  pub record IsUpserted (a : DeliveryAttempt) (n : ℕ) (t t' : Tables) : Type 0 where
    pub recorded : IsRecorded P a n t t'
    pub others :
        (other : String) (k : ℕ)
        → P.same_text a.notification_id other ≡ false
        → find_attempt P other k t'.attempts ≡ find_attempt P other k t.attempts
    pub owned : AllOwned P t'.notifications t'.attempts

  upserted-others :
      (a : DeliveryAttempt) (n : ℕ) (t t' : Tables) (other : String) (k : ℕ)
      → upsert P a n t ≡ reply tt t'
      → P.same_text a.notification_id other ≡ false
      → find_attempt P other k t'.attempts ≡ find_attempt P other k t.attempts
  upserted-others a n t t' other k h ne = elim (upsert-inv a n t t' h) [
    | inl e ↦
        ap (λ (u : Tables). find_attempt P other k u.attempts) e
        ∙ find_attempt-overwrite_ne a n other k t.attempts ne
    | inr (e, row) ↦
        ap (λ (u : Tables). find_attempt P other k u.attempts) e ∙ added-others a n t other k ne
  ]

  upserted-AllOwned :
      (a : DeliveryAttempt) (n : ℕ) (t t' : Tables)
      → upsert P a n t ≡ reply tt t'
      → AllOwned P t.notifications t.attempts
      → AllOwned P t'.notifications t'.attempts
  upserted-AllOwned a n t t' h owned = elim (upsert-inv a n t t' h) [
    | inl e ↦
        subst (λ (u : Tables). AllOwned P u.notifications u.attempts) (sym e)
          (overwrite-AllOwned a n t.notifications t.attempts owned)
    | inr (e, row) ↦
        subst (λ (u : Tables). AllOwned P u.notifications u.attempts) (sym e) (row, owned)
  ]

  -- An upsert is refused, or succeeds so.
  pub upsert-cases :
      (a : DeliveryAttempt) (n : ℕ) (t : Tables)
      → AllOwned P t.notifications t.attempts
      → ((e : String) × (upsert P a n t ≡ refuse e))
        ⊎ ((t' : Tables) × (upsert P a n t ≡ reply tt t') × IsUpserted a n t t')
  unfolding upsert
  upsert-cases a n t owned = elim (Option-cases (find_row P a.notification_id t.notifications)) [
    | inr (row, found) ↦
        let (t', done, recorded) = upsert-IsRecorded P laws a n t row found in
        inr (
          t',
          done,
          record {
            recorded = recorded;
            others = λ other k ne. upserted-others a n t t' other k done ne;
            owned = upserted-AllOwned a n t t' done owned;
          },
        )
    | inl missing ↦ elim (Option-cases (find_attempt P a.notification_id n t.attempts)) [
      | inl fresh ↦ inl ("a foreign key constraint fails", ground (arith, fresh, missing))
      | inr (old, e) ↦
          let (row, found) =
            found_owner a.notification_id n t.notifications t.attempts old owned e in
          absurd (cc)
    ]
  ]
