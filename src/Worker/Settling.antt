-- ===== src/Worker/Settling.antt =====
-- src/Worker.cpp: whatever the server refuses, a worker that comes to the end of `onMessage` has
-- delivered the notification, given it up or parked a message with the next number.
use mathlib.Core.List.{Memᴰ}
use mathlib.Core.List.Memᴰ.{append_left, append_right, append_cases, eq_of_singleton}
use distributed_notification.Base.{
  ◌≡◌, refl, sym, ap, ◌∙◌, subst, Bool, true, false, not, ◌&&◌, suc_ℤ, gtb_ℤ, ℕ, String, Option,
  none, some, List, [], ◌∷◌, ◌++◌, ◌⊎◌, inl, inr, Bool-cases, arith,
}
use distributed_notification.Enums.{Channel}
use distributed_notification.Models.{Notification}
use distributed_notification.Config.{Config}
use distributed_notification.Platform.{Platform, IsCollation, ok}
use distributed_notification.Message.{Task, message}
use distributed_notification.Provider.{Provider}
use distributed_notification.RabbitMqTopology.{retry_queue, dlq}
use distributed_notification.Effects.{Command, publish, ack}
use distributed_notification.Effects.Ensures.{
  Facts, Entails, Ensures, Ensures-raise, Ensures-bind, Ensures-then, Ensures-from, Ensures-to,
  Ensures-catch_provider,
}
use distributed_notification.Database.Schema.{Tables, NotificationRow}
use distributed_notification.NotificationRepository.{
  find_row, find_by_id, set_status, count_attempt, status_from_string, mark_processing, mark_sent,
  mark_dead_lettered, increment_attempt_count, update,
}
use distributed_notification.DeliveryAttemptRepository.{record_attempt}
use distributed_notification.ProviderRouter.{send}
use distributed_notification.ProviderRouter.Apart.{AllApart, send-Ensures}
use distributed_notification.Worker.{
  tell, send_and_record, deliver, schedule_retry, give_up, retry_or_give_up, on_failed, process,
  handle_found, handle_decoded, is_done, exhausted,
}
use distributed_notification.Worker.Local.{
  is_open, row_open, done-row_open, Local, Closed, Local-update_table, update-Ensures, update-Local,
  Closed-set_status, Closed-count_attempt, record_attempt-Local, Same, Same-Local, Looked,
  find_by_id-Looked,
}

-- `tell k` from S to Q.
tell-Ensures :
    (P : Platform) (k : Command P.Body) (S Q R : Facts P)
    → ((t : Tables) (cs : List (Command P.Body)) → S t cs → Q t (cs ++ k ∷ []))
    → Ensures S (tell P k) (λ _. Q) R
tell-Ensures P k S Q R h = record { at = λ w s. h w.tables w.commands s }

module _ (P : Platform) (laws : IsCollation P) (providers : Channel → Provider P)
    (apart : AllApart P providers) (c : Channel) (config : Config) where
  -- The message with the next number goes to the retry queue of this one.
  abbrev pub retry_of : Task → Command P.Body
  retry_of task =
      publish "" (retry_queue c task.attempt_number)
        (message P (record task { attempt_number = suc_ℤ task.attempt_number })) true
        (some task.priority)

  module _ (Sound : Command P.Body → Type 0) (acks : (tag : ℕ) → Sound (ack tag))
      (rows : List NotificationRow) (task : Task) (body : P.Body)
      (parks : gtb_ℤ task.attempt_number config.max_retries ≡ false → Sound (retry_of task))
      (buries : Sound (publish "" (dlq c) body true none)) where
    -- Every command told is sound.
    abbrev pub Clean : List (Command P.Body) → Type 0
    Clean cs = (k : Command P.Body) → Memᴰ k cs → Sound k

    Clean-tell :
        (cs : List (Command P.Body)) (k : Command P.Body)
        → Sound k
        → Clean cs
        → Clean (cs ++ k ∷ [])
    Clean-tell cs k sound clean j m = elim (append_cases cs m) [
      | inl old ↦ clean j old
      | inr new ↦ subst Sound (sym (eq_of_singleton new)) sound
    ]

    -- Only this notification is touched; and it is delivered or given up, or, the attempts being
    -- not exhausted, the next message is parked.
    abbrev pub Settled : Facts P
    Settled t cs =
        Local P laws Clean rows task.notification_id t cs
        × (Closed P laws Clean rows task.notification_id t
            ⊎ ((gtb_ℤ task.attempt_number config.max_retries ≡ false) × Memᴰ (retry_of task) cs))

    abbrev Here : Facts P
    Here = Local P laws Clean rows task.notification_id

    abbrev HereClosed : Facts P
    HereClosed t cs = Here t cs × Closed P laws Clean rows task.notification_id t

    local_only : Entails P HereClosed Here
    local_only t cs h = h.0

    closed_settled : Entails P HereClosed Settled
    closed_settled t cs h = (h.0, inl h.1)

    -- The acknowledgement.
    ack-Settled : (tag : ℕ) → Ensures Settled (tell P (ack tag)) (λ _. Settled) Here
    ack-Settled tag = tell-Ensures P (ack tag) Settled Settled Here grown
      where
        grown :
            (t : Tables) (cs : List (Command P.Body))
            → Settled t cs
            → Settled t (cs ++ ack tag ∷ [])
        grown t cs ((h, clean), inl shut) =
            ((h, Clean-tell cs (ack tag) (acks tag) clean), inl shut)
        grown t cs ((h, clean), inr (again, there)) = (
          (h, Clean-tell cs (ack tag) (acks tag) clean),
          inr (again, append_left (ack tag ∷ []) there),
        )

    closing :
        (s : String)
        → is_open (status_from_string s) ≡ false
        → Ensures Here (update P (set_status s) task.notification_id) (λ _. HereClosed) Here
    closing s shut =
        update-Ensures P laws Clean rows task.notification_id (set_status s) Here HereClosed
          (λ t cs h. h)
          λ t cs h. (
            Local-update_table P laws Clean rows task.notification_id (set_status s) (λ r. refl) t
                cs h,
            Closed-set_status P laws Clean rows task.notification_id s shut t,
          )

    counting :
        Ensures HereClosed (increment_attempt_count P task.notification_id) (λ _. HereClosed) Here
    counting =
        update-Ensures P laws Clean rows task.notification_id count_attempt HereClosed HereClosed
          local_only
          λ t cs h. (
            Local-update_table P laws Clean rows task.notification_id count_attempt (λ r. refl) t cs
                h.0,
            Closed-count_attempt P laws Clean rows task.notification_id t h.1,
          )

    send_and_record-Ensures :
        (m : Notification)
        → Ensures Here (send_and_record P providers c config m task) (λ _. HereClosed) Here
    unfolding send_and_record status_from_string
    send_and_record-Ensures m =
        Ensures-bind Here (send P providers m) _ (λ _. Here) _ Here
          (send-Ensures P providers apart Here m)
          λ ref.
            Ensures-then Here (record_attempt P _) _ Here _ Here
              (record_attempt-Local P laws Clean rows task.notification_id _)
              (Ensures-then Here (mark_sent P task.notification_id)
                (increment_attempt_count P task.notification_id) HereClosed _ Here
                (closing "SENT" refl) counting)

    deliver-Ensures :
        (m : Notification) (tag : ℕ)
        → Ensures Here (deliver P providers c config m task tag) (λ _. Settled) Here
    unfolding deliver
    deliver-Ensures m tag =
        Ensures-then Here (send_and_record P providers c config m task) (tell P (ack tag))
          HereClosed _ Here (send_and_record-Ensures m)
          (Ensures-from HereClosed Settled _ _ Here closed_settled (ack-Settled tag))

    schedule_retry-Ensures :
        (what : String)
        → gtb_ℤ task.attempt_number config.max_retries ≡ false
        → Ensures Here (schedule_retry P providers c config task what) (λ _. Settled) Here
    unfolding schedule_retry
    schedule_retry-Ensures what again =
        Ensures-then Here (record_attempt P _) (tell P (retry_of task)) Here _ Here
          (record_attempt-Local P laws Clean rows task.notification_id _)
          (tell-Ensures P (retry_of task) Here Settled Here λ t cs h. (
            (h.0, Clean-tell cs (retry_of task) (parks again) h.1),
            inr (again, append_right cs (Memᴰ.head refl)),
          ))

    give_up-Ensures :
        (what : String) (transient : Bool)
        → Ensures Here (give_up P providers c config task body what transient) (λ _. Settled) Here
    unfolding give_up status_from_string
    give_up-Ensures what transient =
        Ensures-then Here (record_attempt P _) _ Here _ Here
          (record_attempt-Local P laws Clean rows task.notification_id _)
          (Ensures-then Here (tell P (publish "" (dlq c) body true none)) _ Here _ Here
            (tell-Ensures P (publish "" (dlq c) body true none) Here Here Here
              (λ t cs h. (h.0, Clean-tell cs (publish "" (dlq c) body true none) buries h.1)))
            (Ensures-to Here (mark_dead_lettered P task.notification_id) (λ _. HereClosed)
              (λ _. Settled) Here (λ _. closed_settled) (closing "DEAD_LETTERED" refl)))

    retry_or_give_up-Ensures :
        (what : String) (transient : Bool)
        → Ensures Here
            (retry_or_give_up P providers c config task body what transient)
            (λ _. Settled)
            Here
    unfolding retry_or_give_up
    retry_or_give_up-Ensures what transient =
        elim (Bool-cases (transient && not (exhausted P providers c config task))) [
          | inl again ↦ rw again (schedule_retry-Ensures what (ground (arith, again)))
          | inr over ↦ rw over (give_up-Ensures what transient)
        ]

    on_failed-Ensures :
        (tag : ℕ) (what : String) (transient : Bool)
        → Ensures Here
            (on_failed P providers c config task body tag what transient)
            (λ _. Settled)
            Here
    unfolding on_failed
    on_failed-Ensures tag what transient =
        Ensures-then Here (increment_attempt_count P task.notification_id) _ Here _ Here
          (update-Local P laws Clean rows task.notification_id count_attempt (λ r. refl))
          (Ensures-then Here (retry_or_give_up P providers c config task body what transient)
            (tell P (ack tag)) Settled _ Here (retry_or_give_up-Ensures what transient)
            (ack-Settled tag))

    process-Ensures :
        (m : Notification) (tag : ℕ)
        → Ensures Here (process P providers c config m task body tag) (λ _. Settled) Here
    unfolding process
    process-Ensures m tag =
        Ensures-then Here (mark_processing P task.notification_id) _ Here _ Here
          (update-Local P laws Clean rows task.notification_id (set_status "PROCESSING")
            (λ r. refl))
          (Ensures-catch_provider Here (deliver P providers c config m task tag)
            (on_failed P providers c config task body tag) (λ _. Settled) Here Here (λ t cs h. h)
            (deliver-Ensures m tag) (on_failed-Ensures tag))

    -- Before the message is taken on.
    abbrev Start : Facts P
    Start = Same P laws Clean rows task.notification_id

    found_none :
        (t : Tables) (cs : List (Command P.Body))
        → Start t cs
        → find_row P task.notification_id rows ≡ none
        → Settled t cs
    found_none t cs same absent = (
      Same-Local P laws Clean rows task.notification_id t cs same,
      inl (λ row h. absurd_row row (sym h ∙ ap (find_row P task.notification_id) same.0 ∙ absent)),
    )
      where
        absurd_row : (row : NotificationRow) → some row ≡ none → row_open row ≡ false
        absurd_row row e = cc

    found_done :
        (m : Notification) (t : Tables) (cs : List (Command P.Body))
        → Start t cs
        → Looked P laws Clean rows task.notification_id (some m)
        → is_done m.status ≡ true
        → Settled t cs
    found_done m t cs same (row, found, reads) done = (
      Same-Local P laws Clean rows task.notification_id t cs same,
      inl (λ other h. only other (sym h ∙ ap (find_row P task.notification_id) same.0 ∙ found)),
    )
      where
        only : (other : NotificationRow) → some other ≡ some row → row_open other ≡ false
        only other e =
            let same_row : other ≡ row = cc in ap row_open same_row ∙ done-row_open row m reads done

    handle_found-Ensures :
        (found : Option Notification) (tag : ℕ)
        → Ensures
            (λ t cs.
              (t.notifications ≡ rows)
              × Clean cs
              × Looked P laws Clean rows task.notification_id found)
            (handle_found P providers c config found task body tag)
            (λ _. Settled)
            Here
    handle_found-Ensures none tag =
        Ensures-from _ Settled _ _ Here (λ t cs h. found_none t cs (h.0, h.1) h.2) (ack-Settled tag)
    handle_found-Ensures (some m) tag = elim (Bool-cases (is_done m.status)) [
      | inl done ↦ rw done (
          Ensures-from _ Settled _ _ Here (λ t cs h. found_done m t cs (h.0, h.1) h.2 done)
            (ack-Settled tag))
      | inr due ↦ rw due (
          Ensures-from _ Here _ _ Here
            (λ t cs h. Same-Local P laws Clean rows task.notification_id t cs (h.0, h.1))
            (process-Ensures m tag))
    ]

    -- From notifications `rows` and a message that decodes to `task`.
    pub handle_decoded-Ensures :
        (tag : ℕ)
        → Ensures Start (handle_decoded P providers c config (ok task) body tag) (λ _. Settled) Here
    handle_decoded-Ensures tag =
        Ensures-bind Start (find_by_id P task.notification_id) _ _ _ Here
          (Ensures-raise Start _ _ Start (λ _. Here)
            (λ e. Same-Local P laws Clean rows task.notification_id)
            (find_by_id-Looked P laws Clean rows task.notification_id))
          (λ found. handle_found-Ensures found tag)
