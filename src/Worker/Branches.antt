-- ===== src/Worker/Branches.antt =====
-- src/Worker.cpp: what a worker does with a message on each branch, when a session is idle and the
-- server takes every statement.
use distributed_notification.Base.{
  ℕ, ◌≡◌, refl, ◌∙◌, ap, ℤ, pos, suc_ℤ, gtb_ℤ, Bool, true, false, not, ◌&&◌, String, none, some,
  List, [], ◌∷◌, ◌++◌,
}
use distributed_notification.Enums.{Channel}
use distributed_notification.Models.{Notification, DeliveryAttempt}
use distributed_notification.Config.{Config}
use distributed_notification.Platform.{Platform, IsCollation, ok, InInt}
use distributed_notification.Message.{Task, decode}
use distributed_notification.Provider.{Provider}
use distributed_notification.RabbitMqTopology.{dlq}
use distributed_notification.Effects.{
  World, Command, publish, ack, returns, throws, provider_exception,
}
use distributed_notification.Effects.Calm.{IsAside}
use distributed_notification.Database.Schema.{Tables, NotificationRow, AttemptRow}
use distributed_notification.NotificationRepository.{
  find_row, row_to_notification, update_table, set_status, count_attempt,
}
use distributed_notification.NotificationRepository.Quiet.{IsQuiet, update-quiet, find_by_id-quiet}
use distributed_notification.NotificationRepository.Lookup.{find_row-update_rows}
use distributed_notification.DeliveryAttemptRepository.Upsert.{Says}
use distributed_notification.DeliveryAttemptRepository.{find_attempt}
use distributed_notification.ProviderRouter.{send}
use distributed_notification.Worker.{
  on_message, process, deliver, send_and_record, on_failed, is_done,
}
use distributed_notification.Worker.Quiet.{
  IsAside-IsQuiet, on_failed-retries, on_failed-gives_up, send_and_record-quiet, retry_command,
  failed_attempt, sent_attempt,
}

module _ (P : Platform) (laws : IsCollation P) (n : ℕ) (providers : Channel → Provider P)
    (c : Channel) (config : Config) where
  -- The world once the notification is marked as being processed.
  abbrev pub marked : Task → World P → World P
  marked task w = record w {
    tables = update_table P (set_status "PROCESSING") task.notification_id w.tables;
  }

  -- A message that names a stored notification which is not done, in a quiet world.
  pub record IsDue (task : Task) (k : ℕ) (body : P.Body) (w : World P) (row : NotificationRow)
      (m : Notification) : Type 0 where
    pub quiet : IsQuiet n w
    pub decoded : decode P body ≡ ok task
    pub number : task.attempt_number ≡ pos k
    pub found : find_row P task.notification_id w.tables.notifications ≡ some row
    pub reads : row_to_notification row ≡ some m
    pub due : is_done m.status ≡ false

  to_process :
      (task : Task) (k : ℕ) (body : P.Body) (w : World P) (row : NotificationRow) (m : Notification)
      (tag : ℕ)
      → IsDue task k body w row m
      → on_message P providers c config body tag w ≡ process P providers c config m task body tag w
  unfolding on_message
  to_process task k body w row m tag d =
      rw (
        d.decoded,
        find_by_id-quiet P n w d.quiet task.notification_id row m d.found d.reads,
        d.due,
      )

  failing :
      (task : Task) (k : ℕ) (body : P.Body) (w u : World P) (row : NotificationRow)
      (m : Notification) (tag : ℕ) (what : String) (transient : Bool)
      → IsDue task k body w row m
      → send P providers m (marked task w) ≡ (throws (provider_exception what transient), u)
      → on_message P providers c config body tag w
        ≡ on_failed P providers c config task body tag what transient u
  unfolding process deliver send_and_record
  failing task k body w u row m tag what transient d sends =
      to_process task k body w row m tag d
      ∙ rw (update-quiet P n w d.quiet (set_status "PROCESSING") task.notification_id, sends)

  -- What a handled message leaves: the world v with the commands told, the row and the attempt.
  pub record IsSettled (task : Task) (k : ℕ) (told : List (Command P.Body)) (row : NotificationRow)
      (a : DeliveryAttempt) (v : World P) : Type 0 where
    pub commands : v.commands ≡ told
    pub row_found : find_row P task.notification_id v.tables.notifications ≡ some row
    pub attempt_found :
        (r : AttemptRow) × (find_attempt P task.notification_id k v.tables.attempts ≡ some r)
        × Says a k r
    pub quiet : IsQuiet n v

  -- The row of the notification in the world where the provider has answered.
  answered_row :
      (task : Task) (w u : World P) (row : NotificationRow)
      → find_row P task.notification_id w.tables.notifications ≡ some row
      → IsAside (marked task w) u
      → find_row P task.notification_id u.tables.notifications ≡ some (set_status "PROCESSING" row)
  answered_row task w u row found aside =
      ap (λ (t : Tables). find_row P task.notification_id t.notifications) aside.tables
      ∙ find_row-update_rows P (set_status "PROCESSING") task.notification_id w.tables.notifications
          row (λ r. refl) found

  -- A due message whose provider fails as transient, with an attempt number k up to the maximum of
  -- retries, of which k + 1 is an `int`: `onMessage` returns, the message goes to retry queue k with
  -- the number k + 1 and the same priority and is then acknowledged, the notification is PROCESSING
  -- with one attempt more, and attempt k is recorded as a transient failure with the provider's text.
  pub on_message-retries :
      (task : Task) (k : ℕ) (body : P.Body) (w u : World P) (row : NotificationRow)
      (m : Notification) (tag : ℕ) (what : String)
      → IsDue task k body w row m
      → gtb_ℤ (pos k) config.max_retries ≡ false
      → InInt (suc_ℤ (pos k))
      → send P providers m (marked task w) ≡ (throws (provider_exception what true), u)
      → IsAside (marked task w) u
      → (v : World P) × (on_message P providers c config body tag w ≡ (returns tt, v))
        × IsSettled task k
            ((w.commands ++ retry_command P laws n providers c config task ∷ []) ++ ack tag ∷ [])
            (count_attempt (set_status "PROCESSING" row))
            (failed_attempt P laws n providers c config task true what)
            v
  on_message-retries task k body w u row m tag what d again in_int sends aside =
      let q : IsQuiet n u =
        IsAside-IsQuiet n (marked task w) u aside
          (record { idle = d.quiet.idle; accepting = d.quiet.accepting }) in
      let there = answered_row task w u row d.found aside in
      let (t, e, recorded) =
        on_failed-retries P laws n providers c config task k body tag what u
          (set_status "PROCESSING" row) q d.number
          (ap (λ (i : ℤ). gtb_ℤ i config.max_retries) d.number ∙ again) there in
      let retry = retry_command P laws n providers c config task in
      (
        record u { tables = t; commands = (u.commands ++ retry ∷ []) ++ ack tag ∷ [] },
        failing task k body w u row m tag what true d sends ∙ e,
        record {
          commands = ap (λ cs. (cs ++ retry ∷ []) ++ ack tag ∷ []) aside.commands;
          row_found =
              ap (find_row P task.notification_id) recorded.notifications
              ∙ find_row-update_rows P count_attempt task.notification_id u.tables.notifications
                  (set_status "PROCESSING" row) (λ r. refl) there;
          attempt_found = recorded.found;
          quiet = record { idle = q.idle; accepting = q.accepting };
        },
      )

  -- A due message whose provider fails for good, or fails as transient with an attempt number k
  -- above the maximum of retries: `onMessage` returns, the message goes as it came to the
  -- dead-letter queue and is then acknowledged, the notification is DEAD_LETTERED with one attempt
  -- more, and attempt k is recorded with the kind of the failure and the provider's text.
  pub on_message-dead_letters :
      (task : Task) (k : ℕ) (body : P.Body) (w u : World P) (row : NotificationRow)
      (m : Notification) (tag : ℕ) (what : String) (transient : Bool)
      → IsDue task k body w row m
      → (transient && not (gtb_ℤ (pos k) config.max_retries)) ≡ false
      → send P providers m (marked task w) ≡ (throws (provider_exception what transient), u)
      → IsAside (marked task w) u
      → (v : World P) × (on_message P providers c config body tag w ≡ (returns tt, v))
        × IsSettled task k
            ((w.commands ++ publish "" (dlq c) body true none ∷ []) ++ ack tag ∷ [])
            (set_status "DEAD_LETTERED" (count_attempt (set_status "PROCESSING" row)))
            (failed_attempt P laws n providers c config task transient what)
            v
  on_message-dead_letters task k body w u row m tag what transient d over sends aside =
      let q : IsQuiet n u =
        IsAside-IsQuiet n (marked task w) u aside
          (record { idle = d.quiet.idle; accepting = d.quiet.accepting }) in
      let there = answered_row task w u row d.found aside in
      let (t, e, recorded) =
        on_failed-gives_up P laws n providers c config task k body tag what transient u
          (set_status "PROCESSING" row) q d.number
          (ap (λ (i : ℤ). transient && not (gtb_ℤ i config.max_retries)) d.number ∙ over) there in
      let park = publish "" (dlq c) body true none in
      (
        record u {
          tables = update_table P (set_status "DEAD_LETTERED") task.notification_id t;
          commands = (u.commands ++ park ∷ []) ++ ack tag ∷ [];
        },
        failing task k body w u row m tag what transient d sends ∙ e,
        record {
          commands = ap (λ cs. (cs ++ park ∷ []) ++ ack tag ∷ []) aside.commands;
          row_found =
              find_row-update_rows P (set_status "DEAD_LETTERED") task.notification_id
                t.notifications (count_attempt (set_status "PROCESSING" row)) (λ r. refl)
                (ap (find_row P task.notification_id) recorded.notifications
                  ∙ find_row-update_rows P count_attempt task.notification_id u.tables.notifications
                      (set_status "PROCESSING" row) (λ r. refl) there);
          attempt_found = recorded.found;
          quiet = record { idle = q.idle; accepting = q.accepting };
        },
      )

  -- From the line that marks it as being processed, with a provider that takes the notification,
  -- whatever its row says by then.
  pub process-delivers :
      (task : Task) (k : ℕ) (body : P.Body) (w u : World P) (row : NotificationRow)
      (m : Notification) (tag : ℕ) (ref : String)
      → IsQuiet n w
      → task.attempt_number ≡ pos k
      → find_row P task.notification_id w.tables.notifications ≡ some row
      → send P providers m (marked task w) ≡ (returns ref, u)
      → IsAside (marked task w) u
      → (v : World P) × (process P providers c config m task body tag w ≡ (returns tt, v))
        × IsSettled task k
            (w.commands ++ ack tag ∷ [])
            (count_attempt (set_status "SENT" (set_status "PROCESSING" row)))
            (sent_attempt P laws n providers c config task ref)
            v
        × (v.breakers ≡ u.breakers)
  unfolding process deliver
  process-delivers task k body w u row m tag ref quiet number found sends aside =
      let qm : IsQuiet n (marked task w) = record {
        idle = quiet.idle;
        accepting = quiet.accepting;
      } in
      let q : IsQuiet n u = IsAside-IsQuiet n (marked task w) u aside qm in
      let there =
        find_row-update_rows P (set_status "PROCESSING") task.notification_id w.tables.notifications
          row (λ r. refl) found in
      let (t, e, recorded) =
        send_and_record-quiet P laws n providers c config m task k ref (marked task w) u
          (set_status "PROCESSING" row) qm number there sends aside in
      let id = task.notification_id in
      let t' : Tables = update_table P count_attempt id (update_table P (set_status "SENT") id t) in
      (
        record u { tables = t'; commands = u.commands ++ ack tag ∷ [] },
        rw (update-quiet P n w quiet (set_status "PROCESSING") id, e) refl,
        record {
          commands = ap (λ cs. cs ++ ack tag ∷ []) aside.commands;
          row_found =
              find_row-update_rows P count_attempt id _
                (set_status "SENT" (set_status "PROCESSING" row)) (λ r. refl)
                (find_row-update_rows P (set_status "SENT") id t.notifications
                  (set_status "PROCESSING" row) (λ r. refl)
                  (ap (find_row P id) recorded.notifications ∙ there));
          attempt_found = recorded.found;
          quiet = record { idle = q.idle; accepting = q.accepting };
        },
        refl,
      )

  -- A due message whose provider takes the notification: `onMessage` returns, the message is
  -- acknowledged and nothing is published, the notification is SENT with one attempt more, and
  -- attempt k is recorded as a success with the provider's reference.
  pub on_message-delivers :
      (task : Task) (k : ℕ) (body : P.Body) (w u : World P) (row : NotificationRow)
      (m : Notification) (tag : ℕ) (ref : String)
      → IsDue task k body w row m
      → send P providers m (marked task w) ≡ (returns ref, u)
      → IsAside (marked task w) u
      → (v : World P) × (on_message P providers c config body tag w ≡ (returns tt, v))
        × IsSettled task k
            (w.commands ++ ack tag ∷ [])
            (count_attempt (set_status "SENT" (set_status "PROCESSING" row)))
            (sent_attempt P laws n providers c config task ref)
            v
  on_message-delivers task k body w u row m tag ref d sends aside =
      let (v, e, settled, same) =
        process-delivers task k body w u row m tag ref d.quiet d.number d.found sends aside in
      (v, to_process task k body w row m tag d ∙ e, settled)
