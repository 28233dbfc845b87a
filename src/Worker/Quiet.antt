-- ===== src/Worker/Quiet.antt =====
-- src/Worker.cpp: the parts of `onMessage` as equations, with a session idle and a server that takes
-- every statement.
use distributed_notification.Base.{
  ℕ, ◌≡◌, refl, ◌∙◌, ap, subst, ℤ, pos, suc_ℤ, gtb_ℤ, Bool, true, false, not, ◌&&◌, String, none,
  some, [], ◌∷◌, ◌++◌,
}
use distributed_notification.Enums.{Channel, success}
use distributed_notification.Models.{Notification, DeliveryAttempt}
use distributed_notification.Config.{Config}
use distributed_notification.Platform.{Platform, IsCollation}
use distributed_notification.Message.{Task, message}
use distributed_notification.Provider.{Provider}
use distributed_notification.RabbitMqTopology.{retry_queue, dlq}
use distributed_notification.Effects.{World, Command, publish, ack, returns}
use distributed_notification.Effects.Calm.{IsAside}
use distributed_notification.Database.{Reply, answer}
use distributed_notification.Database.Schema.{Tables, NotificationRow}
use distributed_notification.Database.Laws.{with_session-returns, execute-quiet}
use distributed_notification.NotificationRepository.{
  find_row, update_table, set_status, count_attempt,
}
use distributed_notification.NotificationRepository.Quiet.{IsQuiet, update-quiet}
use distributed_notification.NotificationRepository.Lookup.{find_row-update_rows}
use distributed_notification.DeliveryAttemptRepository.{record_attempt, upsert_int}
use distributed_notification.DeliveryAttemptRepository.Upsert.{IsRecorded, upsert-IsRecorded}
use distributed_notification.ProviderRouter.{send}
use distributed_notification.Worker.{
  attempt_of, send_and_record, schedule_retry, give_up, retry_or_give_up, on_failed, failure_status,
}

pub IsAside-IsQuiet :
    {P : Platform} (n : ℕ) (w v : World P) → IsAside w v → IsQuiet n w → IsQuiet n v
IsAside-IsQuiet n w v a q = record {
  idle = a.available ∙ q.idle;
  accepting = a.outcomes ∙ q.accepting;
}

module _ (P : Platform) (laws : IsCollation P) (n : ℕ) where
  pub record_attempt-quiet :
      (a : DeliveryAttempt) (k : ℕ) (w : World P) (row : NotificationRow)
      → IsQuiet n w
      → a.attempt_number ≡ pos k
      → find_row P a.notification_id w.tables.notifications ≡ some row
      → (t : Tables) × (record_attempt P a w ≡ (returns tt, record w { tables = t }))
        × IsRecorded P a k w.tables t
  unfolding record_attempt upsert_int
  record_attempt-quiet a k w row quiet number found =
      let (t, e, recorded) = upsert-IsRecorded P laws a k w.tables row found in
      let x : World P = record w { available = n } in
      (
        t,
        with_session-returns _ w n tt t quiet.idle (
            execute-quiet (upsert_int P a a.attempt_number) x quiet.accepting
            ∙ ap (λ (i : ℤ). answer {P = P} (upsert_int P a i w.tables) x) number
            ∙ ap (λ (r : Reply (Unit {0})). answer {P = P} r x) e),
        recorded,
      )

  module _ (providers : Channel → Provider P) (c : Channel) (config : Config) where
    abbrev pub after_count : Task → Tables → Tables
    after_count task = update_table P count_attempt task.notification_id

    -- The attempt that is recorded when the message goes to a retry queue.
    abbrev pub failed_attempt : Task → Bool → String → DeliveryAttempt
    failed_attempt task transient what = record (attempt_of P c task) {
      status = failure_status transient;
      error_message = some what;
    }

    abbrev pub retry_command : Task → Command P.Body
    retry_command task =
        publish "" (retry_queue c task.attempt_number)
          (message P (record task { attempt_number = suc_ℤ task.attempt_number })) true
          (some task.priority)

    pub on_failed-retries :
        (task : Task) (k : ℕ) (body : P.Body) (tag : ℕ) (what : String) (w : World P)
        (row : NotificationRow)
        → IsQuiet n w
        → task.attempt_number ≡ pos k
        → gtb_ℤ task.attempt_number config.max_retries ≡ false
        → find_row P task.notification_id w.tables.notifications ≡ some row
        → (t : Tables) × (on_failed P providers c config task body tag what true w ≡ (
          returns tt,
          record w {
            tables = t;
            commands = (w.commands ++ retry_command task ∷ []) ++ ack tag ∷ [];
          },
        ))
          × IsRecorded P (failed_attempt task true what) k (after_count task w.tables) t
    unfolding on_failed retry_or_give_up schedule_retry
    on_failed-retries task k body tag what w row quiet number again found =
        let x : World P = record w { tables = after_count task w.tables } in
        let (t, e, recorded) =
          record_attempt-quiet (failed_attempt task true what) k x (count_attempt row)
            (record { idle = quiet.idle; accepting = quiet.accepting }) number
            (find_row-update_rows P count_attempt task.notification_id w.tables.notifications row
              (λ r. refl) found) in
        (t, rw (update-quiet P n w quiet count_attempt task.notification_id, again, e), recorded)

    pub on_failed-gives_up :
        (task : Task) (k : ℕ) (body : P.Body) (tag : ℕ) (what : String) (transient : Bool)
        (w : World P) (row : NotificationRow)
        → IsQuiet n w
        → task.attempt_number ≡ pos k
        → (transient && not (gtb_ℤ task.attempt_number config.max_retries)) ≡ false
        → find_row P task.notification_id w.tables.notifications ≡ some row
        → (t : Tables) × (on_failed P providers c config task body tag what transient w ≡ (
          returns tt,
          record w {
            tables = update_table P (set_status "DEAD_LETTERED") task.notification_id t;
            commands = (w.commands ++ publish "" (dlq c) body true none ∷ []) ++ ack tag ∷ [];
          },
        ))
          × IsRecorded P (failed_attempt task transient what) k (after_count task w.tables) t
    unfolding on_failed retry_or_give_up give_up
    on_failed-gives_up task k body tag what transient w row quiet number over found =
        let x : World P = record w { tables = after_count task w.tables } in
        let (t, e, recorded) =
          record_attempt-quiet (failed_attempt task transient what) k x (count_attempt row)
            (record { idle = quiet.idle; accepting = quiet.accepting }) number
            (find_row-update_rows P count_attempt task.notification_id w.tables.notifications row
              (λ r. refl) found) in
        let y : World P = record w {
          tables = t;
          commands = w.commands ++ publish "" (dlq c) body true none ∷ [];
        } in
        let parked : IsQuiet n y = record { idle = quiet.idle; accepting = quiet.accepting } in
        (
          t,
          rw (
            update-quiet P n w quiet count_attempt task.notification_id,
            over,
            e,
            update-quiet P n y parked (set_status "DEAD_LETTERED") task.notification_id,
          ),
          recorded,
        )

    -- The attempt that is recorded when the provider has taken the notification.
    abbrev pub sent_attempt : Task → String → DeliveryAttempt
    sent_attempt task ref = record (attempt_of P c task) {
      status = success;
      provider_ref = some ref;
    }

    pub send_and_record-quiet :
        (m : Notification) (task : Task) (k : ℕ) (ref : String) (w u : World P)
        (row : NotificationRow)
        → IsQuiet n w
        → task.attempt_number ≡ pos k
        → find_row P task.notification_id w.tables.notifications ≡ some row
        → send P providers m w ≡ (returns ref, u)
        → IsAside w u
        → (t : Tables) × (send_and_record P providers c config m task w ≡ (
          returns tt,
          record u {
            tables =
                update_table P count_attempt task.notification_id
                  (update_table P (set_status "SENT") task.notification_id t);
          },
        ))
          × IsRecorded P (sent_attempt task ref) k w.tables t
    unfolding send_and_record
    send_and_record-quiet m task k ref w u row quiet number found sends aside =
        let q : IsQuiet n u = IsAside-IsQuiet n w u aside quiet in
        let there : find_row P task.notification_id u.tables.notifications ≡ some row =
          ap (λ (t : Tables). find_row P task.notification_id t.notifications) aside.tables
          ∙ found in
        let (t, e, recorded) =
          record_attempt-quiet (sent_attempt task ref) k u row q number there in
        let y : World P = record u { tables = t } in
        let z : World P = record u {
          tables = update_table P (set_status "SENT") task.notification_id t;
        } in
        let qy : IsQuiet n y = record { idle = q.idle; accepting = q.accepting } in
        let qz : IsQuiet n z = record { idle = q.idle; accepting = q.accepting } in
        (
          t,
          rw (
            sends,
            e,
            update-quiet P n y qy (set_status "SENT") task.notification_id,
            update-quiet P n z qz count_attempt task.notification_id,
          ),
          subst (λ (s : Tables). IsRecorded P (sent_attempt task ref) k s t) aside.tables recorded,
        )
