-- ===== src/Worker/Keeping.antt =====
-- src/Worker.cpp: whatever the server refuses, a worker that handles a message keeps the tables intact.
use distributed_notification.Base.{
  ◌≡◌, refl, subst, sym, ℤ, pos, negsuc, ℕ, Bool, true, false, not, ◌&&◌, String, Option, none,
  some, List, inl, inr,
}
use distributed_notification.Enums.{Channel, attempt_status_to_string}
use distributed_notification.Models.{Notification, DeliveryAttempt}
use distributed_notification.Config.{Config}
use distributed_notification.Platform.{Platform, Parsed, ok, bad, IsCollation}
use distributed_notification.Message.{Task, decode}
use distributed_notification.Provider.{Provider}
use distributed_notification.Effects.{Command, ack, Exception, database_error, pure, ◌>>=◌}
use distributed_notification.Effects.Ensures.{
  Facts, Entails, EnsuresBy, Ensures, Thrown, Thrown_of, EnsuresBy-then, EnsuresBy-bind,
  Ensures-raise, Ensures-bind, Ensures-then, Ensures-from, Ensures-if, EnsuresBy-catch_provider,
}
use distributed_notification.Database.{reply}
use distributed_notification.Database.Ensures.{RepliesBy, EnsuresBy-with_session, EnsuresBy-execute}
use distributed_notification.Database.Schema.{Tables, NotificationRow}
use distributed_notification.NotificationRepository.{
  or_unknown, read_row, row_to_notification, update, update_table, set_status, count_attempt,
  find_by_id, mark_processing, mark_sent, mark_dead_lettered, increment_attempt_count,
}
use distributed_notification.DeliveryAttemptRepository.{upsert_int, record_attempt}
use distributed_notification.ProviderRouter.{send}
use distributed_notification.ProviderRouter.Apart.{AllApart, send-Ensures}
use distributed_notification.Worker.{
  tell, failure_status, send_and_record, deliver, schedule_retry, give_up, retry_or_give_up,
  on_failed, process, handle_found, handle_decoded, on_message, is_done, exhausted,
}
use distributed_notification.Integrity.{IsIntact, HasAttempt, HasFailure}
use distributed_notification.Integrity.Attempts.{upsert-cases}
use distributed_notification.Integrity.Statements.{
  Working, begun-Working, counted-IsIntact, counted-Working, upserted-Working, sent-IsIntact,
  buried-IsIntact,
}

-- Whatever is true of the tables and the commands stays so over a look-up.
module _ (P : Platform) (S : Facts P) where
  read-Ensures :
      (row : NotificationRow) (o : Option Notification)
      → Ensures S (or_unknown P row.channel o >>= λ m. pure (some m)) (λ _. S) S
  read-Ensures row none = record { at = λ w h. h }
  read-Ensures row (some m) = record { at = λ w h. h }

  read_row-Ensures : (o : Option NotificationRow) → Ensures S (read_row P o) (λ _. S) S
  read_row-Ensures none = record { at = λ w h. h }
  read_row-Ensures (some row) = read-Ensures row (row_to_notification row)

  pub find_by_id-Ensures : (id : String) → Ensures S (find_by_id P id) (λ _. S) S
  unfolding find_by_id
  find_by_id-Ensures id =
      EnsuresBy-with_session P S (λ _. S) (λ _. S) _
        (Ensures-bind S _ (read_row P) (λ _. S) (λ _. S) S
          (EnsuresBy-execute P S (λ _. S) (λ _. S) _ (λ e t cs h. h) (λ t cs h. h))
          read_row-Ensures)

module _ (P : Platform) (laws : IsCollation P) where
  abbrev pub Intact : Facts P
  Intact t cs = IsIntact P t

  -- An UPDATE, and a command: what holds before and after.
  updates :
      (f : NotificationRow → NotificationRow) (id : String) (S Q : Facts P)
      (R : Exception → Facts P)
      → ((e : String) → Entails P S (R (database_error e)))
      → ((t : Tables) (cs : List (Command P.Body)) → S t cs → Q (update_table P f id t) cs)
      → EnsuresBy S (update P f id) (λ _. Q) R
  unfolding update
  updates f id S Q R refused change =
      EnsuresBy-with_session P S (λ _. Q) R _
        (EnsuresBy-execute P S (λ _. Q) R (λ t. reply tt (update_table P f id t)) refused change)

  tells :
      (k : Command P.Body) (S : Tables → Type 0) (R : Exception → Facts P)
      → EnsuresBy {P = P} (λ t cs. S t) (tell P k) (λ _ t cs. S t) R
  tells k S R = record { at = λ w h. h }

  module _ (providers : Channel → Provider P) (apart : AllApart P providers) (c : Channel)
      (config : Config) (task : Task) where
    abbrev Busy : Facts P
    Busy t cs = Working P laws task.notification_id t

    -- With an attempt of this status on record.
    abbrev Noted : String → Facts P
    Noted status t cs =
        Working P laws task.notification_id t × HasAttempt P task.notification_id status t

    abbrev Raised : Exception → Facts P
    Raised = Thrown P Busy Intact

    replied :
        (a : DeliveryAttempt) (i : ℤ) (R : Exception → Facts P)
        → a.notification_id ≡ task.notification_id
        → ((e : String) → Entails P Busy (R (database_error e)))
        → (t : Tables) (cs : List (Command P.Body)) → Busy t cs
        → RepliesBy P (λ _. Noted (attempt_status_to_string a.status)) R t cs (upsert_int P a i t)
    unfolding upsert_int
    replied a (negsuc n) R same refused t cs h = refused _ t cs h
    replied a (pos n) R same refused t cs h =
        let h' : Working P laws a.notification_id t =
          subst (λ (id : String). Working P laws id t) (sym same) h in
        elim (upsert-cases P laws a n t h.0.owned) [
          | inl (e, eq) ↦
              subst (RepliesBy P (λ _. Noted (attempt_status_to_string a.status)) R t cs) (sym eq)
                (refused e t cs h)
          | inr (t', eq, u) ↦
              subst (RepliesBy P (λ _. Noted (attempt_status_to_string a.status)) R t cs) (sym eq) (
                subst
                  (λ (id : String).
                    Working P laws id t' × HasAttempt P id (attempt_status_to_string a.status) t')
                  same (upserted-Working P laws a n t t' u h'))
        ]

    records :
        (a : DeliveryAttempt) (R : Exception → Facts P)
        → a.notification_id ≡ task.notification_id
        → ((e : String) → Entails P Busy (R (database_error e)))
        → EnsuresBy Busy (record_attempt P a) (λ _. Noted (attempt_status_to_string a.status)) R
    unfolding record_attempt
    records a R same refused =
        EnsuresBy-with_session P Busy (λ _. Noted (attempt_status_to_string a.status)) R _
          (EnsuresBy-execute P Busy (λ _. Noted (attempt_status_to_string a.status)) R
            (upsert_int P a a.attempt_number) refused (replied a a.attempt_number R same refused))

    Busy-Intact : Entails P Busy Intact
    Busy-Intact t cs h = h.0

    counts_intact :
        (R : Exception → Facts P)
        → ((e : String) → Entails P Intact (R (database_error e)))
        → EnsuresBy Intact (increment_attempt_count P task.notification_id) (λ _. Intact) R
    counts_intact R refused =
        updates count_attempt task.notification_id Intact Intact R refused
          λ t cs h. counted-IsIntact P laws task.notification_id t h

    send_and_record-EnsuresBy :
        (m : Notification)
        → EnsuresBy Busy (send_and_record P providers c config m task) (λ _. Intact) Raised
    unfolding send_and_record
    send_and_record-EnsuresBy m =
        EnsuresBy-bind Busy (send P providers m) _ (λ _. Busy) (λ _. Intact) Raised
          (Ensures-raise Busy _ (λ _. Busy) Busy Raised (Thrown_of P Busy Intact Busy-Intact)
            (send-Ensures P providers apart Busy m))
          λ ref.
            EnsuresBy-then Busy (record_attempt P _) _ (Noted "SUCCESS") (λ _. Intact) Raised
              (records _ Raised refl (λ e. Busy-Intact))
              (EnsuresBy-then (Noted "SUCCESS") (mark_sent P task.notification_id)
                (increment_attempt_count P task.notification_id) Intact (λ _. Intact) Raised
                (updates (set_status "SENT") task.notification_id (Noted "SUCCESS") Intact Raised
                  (λ e t cs h. h.0.0)
                  λ t cs h. sent-IsIntact P laws task.notification_id t h.0.0 h.1)
                (counts_intact Raised (λ e t cs h. h)))

    deliver-EnsuresBy :
        (m : Notification) (tag : ℕ)
        → EnsuresBy Busy (deliver P providers c config m task tag) (λ _. Intact) Raised
    unfolding deliver
    deliver-EnsuresBy m tag =
        EnsuresBy-then Busy (send_and_record P providers c config m task) (tell P (ack tag)) Intact
          (λ _. Intact) Raised (send_and_record-EnsuresBy m) (tells (ack tag) (IsIntact P) Raised)

    schedule_retry-Intact :
        (what : String)
        → Ensures Busy (schedule_retry P providers c config task what) (λ _. Intact) Intact
    unfolding schedule_retry
    schedule_retry-Intact what =
        Ensures-then Busy (record_attempt P _) _ (Noted "TRANSIENT_FAILURE") (λ _. Intact) Intact
          (records _ (λ _. Intact) refl (λ e. Busy-Intact))
          (Ensures-from _ Intact _ (λ _. Intact) Intact (λ t cs h. h.0.0)
            (tells _ (IsIntact P) (λ _. Intact)))

    failed_noted :
        (transient : Bool)
        → Entails P
            (Noted (attempt_status_to_string (failure_status transient)))
            (λ t cs. IsIntact P t × HasFailure P task.notification_id t)
    failed_noted true t cs h = (h.0.0, inl h.1)
    failed_noted false t cs h = (h.0.0, inr h.1)

    give_up-Intact :
        (body : P.Body) (what : String) (transient : Bool)
        → Ensures Busy (give_up P providers c config task body what transient) (λ _. Intact) Intact
    unfolding give_up
    give_up-Intact body what transient =
        Ensures-then Busy (record_attempt P _) _
          (Noted (attempt_status_to_string (failure_status transient))) (λ _. Intact) Intact
          (records _ (λ _. Intact) refl (λ e. Busy-Intact))
          (Ensures-from _ (λ t cs. IsIntact P t × HasFailure P task.notification_id t) _
            (λ _. Intact) Intact (failed_noted transient)
            (Ensures-then _ (tell P _) (mark_dead_lettered P task.notification_id)
              (λ t cs. IsIntact P t × HasFailure P task.notification_id t) (λ _. Intact) Intact
              (tells _ (λ t. IsIntact P t × HasFailure P task.notification_id t) (λ _. Intact))
              (updates (set_status "DEAD_LETTERED") task.notification_id _ Intact (λ _. Intact)
                (λ e t cs h. h.0) λ t cs h. buried-IsIntact P laws task.notification_id t h.0 h.1)))

    retry_or_give_up-Intact :
        (body : P.Body) (what : String) (transient : Bool)
        → Ensures Busy
            (retry_or_give_up P providers c config task body what transient)
            (λ _. Intact)
            Intact
    unfolding retry_or_give_up
    retry_or_give_up-Intact body what transient =
        Ensures-if Busy (transient && not (exhausted P providers c config task)) _ _ (λ _. Intact)
          Intact (schedule_retry-Intact what) (give_up-Intact body what transient)

    on_failed-Intact :
        (body : P.Body) (tag : ℕ) (what : String) (transient : Bool)
        → Ensures Busy
            (on_failed P providers c config task body tag what transient)
            (λ _. Intact)
            Intact
    unfolding on_failed
    on_failed-Intact body tag what transient =
        Ensures-then Busy (increment_attempt_count P task.notification_id) _ Busy (λ _. Intact)
          Intact
          (updates count_attempt task.notification_id Busy Busy (λ _. Intact) (λ e. Busy-Intact)
            λ t cs h. counted-Working P laws task.notification_id t h)
          (Ensures-then Busy (retry_or_give_up P providers c config task body what transient)
            (tell P (ack tag)) Intact (λ _. Intact) Intact
            (retry_or_give_up-Intact body what transient)
            (tells (ack tag) (IsIntact P) (λ _. Intact)))

    process-Intact :
        (m : Notification) (body : P.Body) (tag : ℕ)
        → Ensures Intact (process P providers c config m task body tag) (λ _. Intact) Intact
    unfolding process
    process-Intact m body tag =
        Ensures-then Intact (mark_processing P task.notification_id) _ Busy (λ _. Intact) Intact
          (updates (set_status "PROCESSING") task.notification_id Intact Busy (λ _. Intact)
            (λ e t cs h. h) λ t cs h. begun-Working P laws task.notification_id t h)
          (EnsuresBy-catch_provider Busy (deliver P providers c config m task tag)
            (on_failed P providers c config task body tag) (λ _. Intact) Busy Intact
            (deliver-EnsuresBy m tag) (on_failed-Intact body tag))

    handle_found-Intact :
        (found : Option Notification) (body : P.Body) (tag : ℕ)
        → Ensures Intact
            (handle_found P providers c config found task body tag)
            (λ _. Intact)
            Intact
    handle_found-Intact none body tag = tells (ack tag) (IsIntact P) (λ _. Intact)
    handle_found-Intact (some m) body tag =
        Ensures-if Intact (is_done m.status) _ _ (λ _. Intact) Intact
          (tells (ack tag) (IsIntact P) (λ _. Intact)) (process-Intact m body tag)

  module _ (providers : Channel → Provider P) (apart : AllApart P providers) (c : Channel)
      (config : Config) where
    handle_decoded-Intact :
        (decoded : Parsed Task) (body : P.Body) (tag : ℕ)
        → Ensures Intact (handle_decoded P providers c config decoded body tag) (λ _. Intact) Intact
    handle_decoded-Intact (bad e) body tag = tells (ack tag) (IsIntact P) (λ _. Intact)
    handle_decoded-Intact (ok task) body tag =
        Ensures-bind Intact (find_by_id P task.notification_id) _ (λ _. Intact) (λ _. Intact) Intact
          (find_by_id-Ensures P Intact task.notification_id)
          (λ found. handle_found-Intact providers apart c config task found body tag)

    -- Whether the handler returns or throws.
    pub on_message-Intact :
        (body : P.Body) (tag : ℕ)
        → Ensures Intact (on_message P providers c config body tag) (λ _. Intact) Intact
    unfolding on_message
    on_message-Intact body tag = handle_decoded-Intact (decode P body) body tag
