-- ===== src/Worker/Acking.antt =====
-- src/Worker.cpp: what a worker tells the broker about a message.
use distributed_notification.Base.{
  ℕ, suc, ◌≡◌, refl, inl, inr, Bool, String, Option, none, some, List, arith, not, ◌&&◌, subst,
  Bool-cases,
}
use distributed_notification.Enums.{Channel}
use distributed_notification.Models.{Notification, DeliveryAttempt}
use distributed_notification.Config.{Config}
use distributed_notification.Platform.{Platform, Parsed, ok, bad}
use distributed_notification.Message.{Task, decode}
use distributed_notification.Provider.{Provider}
use distributed_notification.RabbitMqTopology.{retry_queue}
use distributed_notification.Effects.{
  World, provider_exception, database_error, json_error, invalid_argument, Command, ack, Outcome,
  returns, throws, blocked, continue, recover, on_provider_exception, ◌>>◌, catch_provider,
}
use distributed_notification.Effects.Calm.{IsCalm, Undisturbed, IsCalm-bind, IsCalm-then}
use distributed_notification.DeliveryAttemptRepository.{record_attempt}
use distributed_notification.NotificationRepository.{
  find_by_id, mark_processing, mark_sent, mark_dead_lettered, increment_attempt_count,
}
use distributed_notification.NotificationRepository.Sessions.{find_by_id-IsCalm, update-IsCalm}
use distributed_notification.ProviderRouter.{send}
use distributed_notification.ProviderRouter.Calm.{send-IsCalm}
use distributed_notification.Worker.Told.{
  Handled, Parked, Said, tell-Parked, bury_after, tell_after, then-ack, record_attempt-IsCalm,
}
use distributed_notification.Worker.{
  tell, attempt_of, send_and_record, deliver, schedule_retry, give_up, retry_or_give_up, on_failed,
  process, handle_found, handle_decoded, on_message, is_done, exhausted, failure_status,
}

module _ (P : Platform) (n : ℕ) (providers : Channel → Provider P) (c : Channel)
    (config : Config) where
  schedule_retry-Parked :
      (task : Task) (what : String) (w : World P)
      → w.available ≡ suc n
      → let q = schedule_retry P providers c config task what w in Parked P n c w.commands q.0 q.1
  unfolding schedule_retry
  schedule_retry-Parked task what w h =
      let q = schedule_retry P providers c config task what w in
      tell-Parked P n c (retry_queue c task.attempt_number) _ _ w.commands
        (inr (task.attempt_number, refl)) q.0 q.1
        (tell_after P n _ (record_attempt P _) w (record_attempt-IsCalm P n _) h)

  give_up-Parked :
      (task : Task) (body : P.Body) (what : String) (transient : Bool) (w : World P)
      → w.available ≡ suc n
      → let q = give_up P providers c config task body what transient w in
        Parked P n c w.commands q.0 q.1
  unfolding give_up
  give_up-Parked task body what transient w h =
      let a : DeliveryAttempt = record (attempt_of P c task) {
        status = failure_status transient;
        error_message = some what;
      } in
      let r = record_attempt P a w in
      bury_after P n c body none w (mark_dead_lettered P task.notification_id)
        (update-IsCalm P n _ task.notification_id) r.0 r.1 ((record_attempt-IsCalm P n a).at w h)

  retry_or_give_up-Parked :
      (task : Task) (body : P.Body) (what : String) (transient : Bool) (w : World P)
      → w.available ≡ suc n
      → let q = retry_or_give_up P providers c config task body what transient w in
        Parked P n c w.commands q.0 q.1
  unfolding retry_or_give_up
  retry_or_give_up-Parked task body what transient w h =
      elim (Bool-cases (transient && not (exhausted P providers c config task))) [
        | inl again ↦ rw again (schedule_retry-Parked task what w h)
        | inr over ↦ rw over (give_up-Parked task body what transient w h)
      ]

  failed-Handled :
      (task : Task) (body : P.Body) (tag : ℕ) (what : String) (transient : Bool) (w : World P)
      (r : Outcome (Unit {0})) (v : World P)
      → Undisturbed (suc n) w r v
      → let q =
          continue r
            (λ _.
              retry_or_give_up P providers c config task body what transient >> tell P (ack tag))
            v in
        Handled P n c tag w.commands q.0 q.1
  failed-Handled task body tag what transient w (returns u) v h =
      let q = retry_or_give_up P providers c config task body what transient v in
      let o = continue q.0 (λ _. tell P (ack tag)) q.1 in
      subst (λ (cs : List (Command P.Body)). Handled P n c tag cs o.0 o.1) h.silent
        (then-ack P n c tag v.commands q.0 q.1
          (retry_or_give_up-Parked task body what transient v h.idle))
  failed-Handled task body tag what transient w (throws e) v h = (inl h.silent, h.idle)
  failed-Handled task body tag what transient w blocked v h = ground (arith, h.goes_on)

  on_failed-Handled :
      (task : Task) (body : P.Body) (tag : ℕ) (what : String) (transient : Bool) (w : World P)
      → w.available ≡ suc n
      → let q = on_failed P providers c config task body tag what transient w in
        Handled P n c tag w.commands q.0 q.1
  unfolding on_failed
  on_failed-Handled task body tag what transient w h =
      let r = increment_attempt_count P task.notification_id w in
      failed-Handled task body tag what transient w r.0 r.1
        ((update-IsCalm P n _ task.notification_id).at w h)

  recovered-Handled :
      (task : Task) (body : P.Body) (tag : ℕ) (w : World P) (r : Outcome (Unit {0})) (v : World P)
      → Said P n (ack tag) w.commands r v
      → let q =
          recover r (on_provider_exception (on_failed P providers c config task body tag)) v in
        Handled P n c tag w.commands q.0 q.1
  recovered-Handled task body tag w (returns u) v h = (inl h.0, h.1)
  recovered-Handled task body tag w (throws (provider_exception what transient)) v h =
      let q = on_failed P providers c config task body tag what transient v in
      subst (λ (cs : List (Command P.Body)). Handled P n c tag cs q.0 q.1) h.0
        (on_failed-Handled task body tag what transient v h.1)
  recovered-Handled task body tag w (throws (database_error e)) v h = (inl h.0, h.1)
  recovered-Handled task body tag w (throws (json_error e)) v h = (inl h.0, h.1)
  recovered-Handled task body tag w (throws (invalid_argument e)) v h = (inl h.0, h.1)
  recovered-Handled task body tag w blocked v h = absurd h

  module _ (calm : (d : Channel) (m : Notification) → IsCalm (suc n) (providers d m)) where
    send_and_record-IsCalm :
        (m : Notification) (task : Task)
        → IsCalm (suc n) (send_and_record P providers c config m task)
    unfolding send_and_record
    send_and_record-IsCalm m task =
        IsCalm-bind (suc n) (send P providers m) _ (send-IsCalm P (suc n) providers calm m) λ ref.
          IsCalm-then (suc n) (record_attempt P _) _ (record_attempt-IsCalm P n _) (
            IsCalm-then (suc n) (mark_sent P task.notification_id)
              (increment_attempt_count P task.notification_id)
              (update-IsCalm P n _ task.notification_id) (update-IsCalm P n _ task.notification_id))

    marked-Handled :
        (m : Notification) (task : Task) (body : P.Body) (tag : ℕ) (w : World P)
        (r : Outcome (Unit {0})) (v : World P)
        → Undisturbed (suc n) w r v
        → let q =
            continue r
              (λ _.
                catch_provider
                  (deliver P providers c config m task tag)
                  (on_failed P providers c config task body tag))
              v in
          Handled P n c tag w.commands q.0 q.1
    unfolding deliver
    marked-Handled m task body tag w (returns u) v h =
        let d = deliver P providers c config m task tag v in
        let q =
          recover d.0 (on_provider_exception (on_failed P providers c config task body tag)) d.1 in
        subst (λ (cs : List (Command P.Body)). Handled P n c tag cs q.0 q.1) h.silent
          (recovered-Handled task body tag v d.0 d.1 (
            tell_after P n (ack tag) (send_and_record P providers c config m task) v
              (send_and_record-IsCalm m task) h.idle))
    marked-Handled m task body tag w (throws e) v h = (inl h.silent, h.idle)
    marked-Handled m task body tag w blocked v h = ground (arith, h.goes_on)

    process-Handled :
        (m : Notification) (task : Task) (body : P.Body) (tag : ℕ) (w : World P)
        → w.available ≡ suc n
        → let q = process P providers c config m task body tag w in
          Handled P n c tag w.commands q.0 q.1
    unfolding process
    process-Handled m task body tag w h =
        let r = mark_processing P task.notification_id w in
        marked-Handled m task body tag w r.0 r.1 ((update-IsCalm P n _ task.notification_id).at w h)

    found-Handled :
        (found : Option Notification) (task : Task) (body : P.Body) (tag : ℕ) (w : World P)
        → w.available ≡ suc n
        → let q = handle_found P providers c config found task body tag w in
          Handled P n c tag w.commands q.0 q.1
    found-Handled none task body tag w h = (inl refl, h)
    found-Handled (some m) task body tag w h = elim (Bool-cases (is_done m.status)) [
      | inl done ↦ rw done (inl refl, h)
      | inr open_still ↦ rw open_still (process-Handled m task body tag w h)
    ]

    looked-Handled :
        (task : Task) (body : P.Body) (tag : ℕ) (w : World P) (r : Outcome (Option Notification))
        (v : World P)
        → Undisturbed (suc n) w r v
        → let q = continue r (λ found. handle_found P providers c config found task body tag) v in
          Handled P n c tag w.commands q.0 q.1
    looked-Handled task body tag w (returns found) v h =
        let q = handle_found P providers c config found task body tag v in
        subst (λ (cs : List (Command P.Body)). Handled P n c tag cs q.0 q.1) h.silent
          (found-Handled found task body tag v h.idle)
    looked-Handled task body tag w (throws e) v h = (inl h.silent, h.idle)
    looked-Handled task body tag w blocked v h = ground (arith, h.goes_on)

    decoded-Handled :
        (r : Parsed Task) (body : P.Body) (tag : ℕ) (w : World P)
        → w.available ≡ suc n
        → let q = handle_decoded P providers c config r body tag w in
          Handled P n c tag w.commands q.0 q.1
    decoded-Handled (bad e) body tag w h = (inl refl, h)
    decoded-Handled (ok task) body tag w h =
        let r = find_by_id P task.notification_id w in
        looked-Handled task body tag w r.0 r.1 ((find_by_id-IsCalm P n task.notification_id).at w h)

    -- Whatever the message, the tables, the providers' results and the refusals of the server, with
    -- a session idle: a worker that comes to the end of `onMessage` has acknowledged the message
    -- exactly once, as its last command, after at most one publication, which is persistent and goes
    -- to a retry queue or the dead-letter queue of its channel. If an exception leaves `onMessage`,
    -- nothing is acknowledged, and nothing but one message to the dead-letter queue may have been
    -- published. It never waits for a session, and gives back those it takes.
    pub on_message-Handled :
        (body : P.Body) (tag : ℕ) (w : World P)
        → w.available ≡ suc n
        → let q = on_message P providers c config body tag w in Handled P n c tag w.commands q.0 q.1
    unfolding on_message
    on_message-Handled body tag w h = decoded-Handled (decode P body) body tag w h
