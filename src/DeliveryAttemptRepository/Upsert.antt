-- ===== src/DeliveryAttemptRepository/Upsert.antt =====
-- src/DeliveryAttemptRepository.cpp: what `record` leaves in the table.
use distributed_notification.Base.{
  ℕ, suc, ◌+◌, ◌≡◌, ◌≢◌, refl, ◌⊎◌, inl, inr, String, none, some, List, [], ◌∷◌, arith, length,
  Bool-cases, Option-cases, false, ◌&&◌, ◌==◌, ==_iff,
}
use distributed_notification.Enums.{attempt_status_to_string}
use distributed_notification.Models.{DeliveryAttempt}
use distributed_notification.Platform.{Platform, IsCollation}
use distributed_notification.Database.{reply}
use distributed_notification.Database.Schema.{Tables, AttemptRow, NotificationRow}
use distributed_notification.NotificationRepository.{find_row}
use distributed_notification.DeliveryAttemptRepository.{
  new_attempt, overwrite, has_key, find_attempt, overwrite_attempt, upsert,
}

-- A row says what the attempt says, under the number n.
abbrev pub Says : DeliveryAttempt → ℕ → AttemptRow → Type 0
Says a n row =
    (row.attempt_number ≡ n)
    × (row.status ≡ attempt_status_to_string a.status)
    × (row.provider_ref ≡ a.provider_ref)
    × (row.error_message ≡ a.error_message)

module _ (P : Platform) where
  -- The unique key: no row is found below under the key of another.
  abbrev pub HasUniqueKeys : List AttemptRow → Type 0
  HasUniqueKeys [] = Unit {0}
  HasUniqueKeys (row ∷ rows) =
      (find_attempt P row.notification_id row.attempt_number rows ≡ none) × HasUniqueKeys rows

  find_attempt-overwrite :
      (a : DeliveryAttempt) (n : ℕ) (rows : List AttemptRow) (row : AttemptRow)
      → find_attempt P a.notification_id n rows ≡ some row
      → find_attempt P a.notification_id n (overwrite_attempt P a n rows) ≡ some (overwrite a row)
  unfolding find_attempt overwrite_attempt
  find_attempt-overwrite a n [] row h = cc
  find_attempt-overwrite a n (x ∷ rows) row h =
      elim (Bool-cases (has_key P a.notification_id n x)) [
        | inl hit ↦ rw (hit, hit) (ground (arith, h, hit))
        | inr miss ↦ rw (miss, miss) (find_attempt-overwrite a n rows row (ground (arith, h, miss)))
      ]

  find_attempt-number :
      (id : String) (n : ℕ) (rows : List AttemptRow) (row : AttemptRow)
      → find_attempt P id n rows ≡ some row
      → row.attempt_number ≡ n
  unfolding find_attempt
  find_attempt-number id n [] row h = cc
  find_attempt-number id n (x ∷ rows) row h = ground (arith, find_attempt-number id n rows row)

  -- Overwriting changes no key.
  find_attempt-overwrite_none :
      (a : DeliveryAttempt) (n : ℕ) (id : String) (k : ℕ) (rows : List AttemptRow)
      → find_attempt P id k rows ≡ none
      → find_attempt P id k (overwrite_attempt P a n rows) ≡ none
  unfolding find_attempt overwrite_attempt
  find_attempt-overwrite_none a n id k [] h = refl
  find_attempt-overwrite_none a n id k (x ∷ rows) h =
      ground (arith, find_attempt-overwrite_none a n id k rows)

  overwrite-HasUniqueKeys :
      (a : DeliveryAttempt) (n : ℕ) (rows : List AttemptRow)
      → HasUniqueKeys rows
      → HasUniqueKeys (overwrite_attempt P a n rows)
  unfolding overwrite_attempt
  overwrite-HasUniqueKeys a n [] h = tt
  overwrite-HasUniqueKeys a n (x ∷ rows) h = ground (
    arith,
    find_attempt-overwrite_none a n x.notification_id x.attempt_number rows,
    overwrite-HasUniqueKeys a n rows h.1,
  )

  length-overwrite :
      (a : DeliveryAttempt) (n : ℕ) (rows : List AttemptRow)
      → length (overwrite_attempt P a n rows) ≡ length rows
  unfolding overwrite_attempt
  length-overwrite a n [] = refl
  length-overwrite a n (x ∷ rows) = ground (arith, length-overwrite a n rows)

  -- A new row is found under its key.
  new_attempt_found :
      (laws : IsCollation P) (a : DeliveryAttempt) (n id : ℕ) (rows : List AttemptRow)
      → find_attempt P a.notification_id n (new_attempt a n id ∷ rows) ≡ some (new_attempt a n id)
  unfolding find_attempt
  new_attempt_found laws a n id rows = ground (arith, laws.same_refl a.notification_id)

  -- A key is not that of the attempt a under the number n.
  abbrev pub IsOther : DeliveryAttempt → ℕ → String → ℕ → Type 0
  IsOther a n id k = (P.same_text a.notification_id id && n == k) ≡ false

  other-new_attempt :
      (a : DeliveryAttempt) (n i : ℕ) (id : String) (k : ℕ) (rows : List AttemptRow)
      → IsOther a n id k
      → find_attempt P id k (new_attempt a n i ∷ rows) ≡ find_attempt P id k rows
  unfolding find_attempt
  other-new_attempt a n i id k rows h = rw h refl

  other-overwrite :
      (laws : IsCollation P) (a : DeliveryAttempt) (n : ℕ) (id : String) (k : ℕ)
      (rows : List AttemptRow)
      → IsOther a n id k
      → find_attempt P id k (overwrite_attempt P a n rows) ≡ find_attempt P id k rows
  unfolding find_attempt overwrite_attempt
  other-overwrite laws a n id k [] h = refl
  other-overwrite laws a n id k (x ∷ rows) h = ground (
    arith,
    h,
    laws.same_trans a.notification_id x.notification_id id,
    laws.same_sym x.notification_id a.notification_id,
    ==_iff n k,
    ==_iff x.attempt_number k,
    ==_iff x.attempt_number n,
    other-overwrite laws a n id k rows h,
  )

  -- The tables t' come of recording the attempt under the number n in the tables t: the attempt is
  -- found under its key, in a new row only if there was none, and under every other key the
  -- same attempt is found as before.
  pub record IsRecorded (a : DeliveryAttempt) (n : ℕ) (t t' : Tables) : Type 0 where
    pub notifications : t'.notifications ≡ t.notifications
    pub outbox : t'.outbox ≡ t.outbox
    pub found :
        (row : AttemptRow) × (find_attempt P a.notification_id n t'.attempts ≡ some row)
        × Says a n row
    pub rows :
        ((find_attempt P a.notification_id n t.attempts ≢ none)
          × (length t'.attempts ≡ length t.attempts))
        ⊎ ((find_attempt P a.notification_id n t.attempts ≡ none)
            × (length t'.attempts ≡ suc (length t.attempts)))
    pub others :
        (id : String) (k : ℕ)
        → IsOther a n id k
        → find_attempt P id k t'.attempts ≡ find_attempt P id k t.attempts
    pub unique : HasUniqueKeys t.attempts → HasUniqueKeys t'.attempts

  -- With the notification present, the upsert succeeds and leaves the notifications and the outbox
  -- alone; the attempt is then found under its number and says what was given; under every other key
  -- the same attempt is found as before; one row is added if the key was free and none otherwise; keys
  -- that were unique stay so.
  pub upsert-IsRecorded :
      (laws : IsCollation P) (a : DeliveryAttempt) (n : ℕ) (t : Tables) (row : NotificationRow)
      → find_row P a.notification_id t.notifications ≡ some row
      → (t' : Tables) × (upsert P a n t ≡ reply tt t') × IsRecorded a n t t'
  unfolding upsert
  upsert-IsRecorded laws a n t row h =
      elim (Option-cases (find_attempt P a.notification_id n t.attempts)) [
        | inl fresh ↦ (
          record t {
            attempts = new_attempt a n t.next_attempt_id ∷ t.attempts;
            next_attempt_id = t.next_attempt_id + 1;
          },
          ground (arith, fresh, h),
          record {
            notifications = refl;
            outbox = refl;
            found = (
              new_attempt a n t.next_attempt_id,
              new_attempt_found laws a n t.next_attempt_id t.attempts,
              (refl, refl, refl, refl),
            );
            rows = inr (fresh, refl);
            others = λ id k. other-new_attempt a n t.next_attempt_id id k t.attempts;
            unique = λ u. (fresh, u);
          },
        )
        | inr (old, present) ↦ (
          record t {
            attempts = overwrite_attempt P a n t.attempts;
            next_attempt_id = t.next_attempt_id + 1;
          },
          ground (arith, present),
          record {
            notifications = refl;
            outbox = refl;
            found = (
              overwrite a old,
              find_attempt-overwrite a n t.attempts old present,
              (find_attempt-number a.notification_id n t.attempts old present, refl, refl, refl),
            );
            rows = inl (λ e. cc, length-overwrite a n t.attempts);
            others = λ id k. other-overwrite laws a n id k t.attempts;
            unique = overwrite-HasUniqueKeys a n t.attempts;
          },
        )
      ]
