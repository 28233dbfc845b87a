-- ===== src/Worker/Local.antt =====
-- src/Worker.cpp: what the calls of a worker leave of the notifications, whatever the server refuses.
use distributed_notification.Base.{
  ◌≡◌, refl, sym, ap, ◌∙◌, subst, ◌⊎◌, Bool, true, false, ℤ, pos, negsuc, ℕ, ◌+◌, String, Option,
  none, some, List, ◌∷◌, inl, inr, Option-cases, arith,
}
use distributed_notification.Enums.{
  NotificationStatus, pending, processing, sent, failed, dead_lettered, cancelled,
}
use distributed_notification.Models.{Notification, DeliveryAttempt}
use distributed_notification.Platform.{Platform, IsCollation}
use distributed_notification.Effects.{Command, pure, ◌>>=◌}
use distributed_notification.Effects.Ensures.{Facts, Ensures, Entails, Ensures-bind}
use distributed_notification.Database.{reply, refuse}
use distributed_notification.Database.Ensures.{Replies, Ensures-with_session, Ensures-execute}
use distributed_notification.Database.Schema.{Tables, NotificationRow}
use distributed_notification.NotificationRepository.{
  find_row, find_by_id, read_row, or_unknown, row_to_notification, status_from_string, set_status,
  count_attempt, update, update_table,
}
use distributed_notification.NotificationRepository.Lookup.{
  KeepsId, find_row-update_rows_ne, find_row-update_rows_inv,
}
use distributed_notification.DeliveryAttemptRepository.{
  find_attempt, overwrite_attempt, new_attempt, upsert, upsert_int, record_attempt,
}
use distributed_notification.Worker.{is_done}

-- A notification that is still to be delivered or given up.
abbrev pub is_open : NotificationStatus → Bool
is_open pending = true
is_open processing = true
is_open sent = false
is_open failed = false
is_open dead_lettered = false
is_open cancelled = false

abbrev pub row_open : NotificationRow → Bool
row_open row = is_open (status_from_string row.status)

pub done-row_open :
    (row : NotificationRow) (m : Notification)
    → row_to_notification row ≡ some m
    → is_done m.status ≡ true
    → row_open row ≡ false
unfolding row_to_notification status_from_string
done-row_open row m h d = ground (arith, h, d)

module _ (P : Platform) (laws : IsCollation P) (Clean : List (Command P.Body) → Type 0)
    (rows : List NotificationRow) (id : String) where
  -- What is found under every id but this one is what was found in `rows`, and the commands told are
  -- as `Clean` says.
  abbrev pub Local : Facts P
  Local t cs =
      ((other : String)
        → P.same_text id other ≡ false
        → find_row P other t.notifications ≡ find_row P other rows)
      × Clean cs

  -- What is found under this id, if anything, is delivered or given up.
  abbrev pub Closed : Tables → Type 0
  Closed t =
      (row : NotificationRow) → find_row P id t.notifications ≡ some row → row_open row ≡ false

  pub Local-update_table :
      (f : NotificationRow → NotificationRow)
      → KeepsId P f
      → (t : Tables) (cs : List (Command P.Body)) → Local t cs
      → Local (update_table P f id t) cs
  Local-update_table f same t cs h = (
    λ other ne. find_row-update_rows_ne P laws f id other t.notifications same ne ∙ h.0 other ne,
    h.1,
  )

  -- An UPDATE under this id, from S to Q.
  pub update-Ensures :
      (f : NotificationRow → NotificationRow) (S Q : Facts P)
      → Entails P S Local
      → ((t : Tables) (cs : List (Command P.Body)) → S t cs → Q (update_table P f id t) cs)
      → Ensures S (update P f id) (λ _. Q) Local
  unfolding update
  update-Ensures f S Q local change =
      Ensures-with_session P S (λ _. Q) Local _
        (Ensures-execute P S (λ _. Q) Local (λ t. reply tt (update_table P f id t)) local change)

  pub update-Local :
      (f : NotificationRow → NotificationRow)
      → KeepsId P f
      → Ensures Local (update P f id) (λ _. Local) Local
  update-Local f same =
      update-Ensures f Local Local (λ t cs h. h) (λ t cs h. Local-update_table f same t cs h)

  pub Closed-set_status :
      (s : String)
      → is_open (status_from_string s) ≡ false
      → (t : Tables) → Closed (update_table P (set_status s) id t)
  Closed-set_status s shut t row h =
      let (old, found, e) =
        find_row-update_rows_inv P (set_status s) id t.notifications row (λ r. refl) h in
      ap row_open e ∙ shut

  pub Closed-count_attempt : (t : Tables) → Closed t → Closed (update_table P count_attempt id t)
  Closed-count_attempt t shut row h =
      let (old, found, e) =
        find_row-update_rows_inv P count_attempt id t.notifications row (λ r. refl) h in
      ap row_open e ∙ shut old found

  -- Of an upsert the tables but not the notifications are known to change.
  upsert-cases :
      (a : DeliveryAttempt) (n : ℕ) (t : Tables)
      → ((e : String) × (upsert P a n t ≡ refuse e))
        ⊎ ((t' : Tables) × (upsert P a n t ≡ reply tt t') × (t'.notifications ≡ t.notifications))
  unfolding upsert
  upsert-cases a n t =
      let over : Tables = record t {
        attempts = overwrite_attempt P a n t.attempts;
        next_attempt_id = t.next_attempt_id + 1;
      } in
      let added : Tables = record t {
        attempts = new_attempt a n t.next_attempt_id ∷ t.attempts;
        next_attempt_id = t.next_attempt_id + 1;
      } in
      elim (Option-cases (find_attempt P a.notification_id n t.attempts)) [
        | inr (old, e) ↦ inr (over, ground (arith, e), refl)
        | inl e ↦ elim (Option-cases (find_row P a.notification_id t.notifications)) [
          | inr (row, f) ↦ inr (added, ground (arith, e, f), refl)
          | inl f ↦ inl ("a foreign key constraint fails", ground (arith, e, f))
        ]
      ]

  upserted :
      (a : DeliveryAttempt) (n : ℕ) (t : Tables) (cs : List (Command P.Body))
      → Local t cs
      → Replies P (λ _. Local) Local t cs (upsert P a n t)
  upserted a n t cs h = elim (upsert-cases a n t) [
    | inl (e, refused) ↦ subst (Replies P (λ _. Local) Local t cs) (sym refused) h
    | inr (t', done, same) ↦
        subst (Replies P (λ _. Local) Local t cs) (sym done)
          (λ other ne. ap (find_row P other) same ∙ h.0 other ne, h.1)
  ]

  upserted_int :
      (a : DeliveryAttempt) (i : ℤ) (t : Tables) (cs : List (Command P.Body))
      → Local t cs
      → Replies P (λ _. Local) Local t cs (upsert_int P a i t)
  unfolding upsert_int
  upserted_int a (pos n) t cs h = upserted a n t cs h
  upserted_int a (negsuc n) t cs h = h

  pub record_attempt-Local :
      (a : DeliveryAttempt) → Ensures Local (record_attempt P a) (λ _. Local) Local
  unfolding record_attempt
  record_attempt-Local a =
      Ensures-with_session P Local (λ _. Local) Local _
        (Ensures-execute P Local (λ _. Local) Local (upsert_int P a a.attempt_number) (λ t cs h. h)
          (upserted_int a a.attempt_number))

  -- The notifications are as in `rows`.
  abbrev pub Same : Facts P
  Same t cs = (t.notifications ≡ rows) × Clean cs

  pub Same-Local : Entails P Same Local
  Same-Local t cs h = (λ other ne. ap (find_row P other) h.0, h.1)

  -- What the look-up of this id says of `rows`.
  abbrev pub Looked : Option Notification → Type 0
  Looked none = find_row P id rows ≡ none
  Looked (some m) =
      (row : NotificationRow) × (find_row P id rows ≡ some row) × (row_to_notification row ≡ some m)

  abbrev FoundRow : Option NotificationRow → Facts P
  FoundRow o t cs = (t.notifications ≡ rows) × Clean cs × (find_row P id rows ≡ o)

  converted-Looked :
      (row : NotificationRow) (o : Option Notification)
      → row_to_notification row ≡ o
      → Ensures
          (FoundRow (some row))
          (or_unknown P row.channel o >>= λ m. pure (some m))
          (λ found t cs. (t.notifications ≡ rows) × Clean cs × Looked found)
          Same
  converted-Looked row none e = record { at = λ w h. (h.0, h.1) }
  converted-Looked row (some m) e = record { at = λ w h. (h.0, h.1, (row, h.2, e)) }

  read_row-Looked :
      (o : Option NotificationRow)
      → Ensures
          (FoundRow o)
          (read_row P o)
          (λ found t cs. (t.notifications ≡ rows) × Clean cs × Looked found)
          Same
  read_row-Looked none = record { at = λ w h. h }
  read_row-Looked (some row) = converted-Looked row (row_to_notification row) refl

  pub find_by_id-Looked :
      Ensures Same
        (find_by_id P id)
        (λ found t cs. (t.notifications ≡ rows) × Clean cs × Looked found)
        Same
  unfolding find_by_id
  find_by_id-Looked = Ensures-with_session P Same _ Same _ (
      Ensures-bind Same _ (read_row P) FoundRow _ Same
        (Ensures-execute P Same FoundRow Same _ (λ t cs h. h)
          (λ t cs h. (h.0, h.1, ap (find_row P id) (sym h.0))))
        read_row-Looked)
