-- ===== src/Worker/Overlap.antt =====
-- src/Worker.cpp: two workers of a channel, each with a message that names the same notification. The
-- look-up at the head of `onMessage` and the rest of it are separate steps of the database.
use distributed_notification.Base.{ℕ, ◌≡◌, refl, ◌∙◌, ap, String, some, [], ◌∷◌, ◌++◌}
use distributed_notification.Enums.{Channel}
use distributed_notification.Models.{Notification}
use distributed_notification.Config.{Config}
use distributed_notification.Platform.{Platform, IsCollation}
use distributed_notification.Message.{Task}
use distributed_notification.Provider.{Provider}
use distributed_notification.ProviderRouter.{send}
use distributed_notification.Effects.{World, M, ack, returns, ◌>>=◌, ◌>>◌}
use distributed_notification.Effects.Calm.{IsAside}
use distributed_notification.Database.Schema.{NotificationRow}
use distributed_notification.NotificationRepository.{
  find_row, find_by_id, set_status, count_attempt,
}
use distributed_notification.NotificationRepository.Quiet.{find_by_id-quiet}
use distributed_notification.Worker.{handle_found}
use distributed_notification.Worker.Branches.{IsDue, IsSettled, marked, process-delivers}
use distributed_notification.Worker.Quiet.{sent_attempt}

module _ (P : Platform) (laws : IsCollation P) (n : ℕ) (providers : Channel → Provider P)
    (c : Channel) (config : Config) where
  -- Both have looked the notification up before either goes on; then one handles its message after
  -- the other.
  abbrev pub overlap : Task → P.Body → ℕ → Task → P.Body → ℕ → M P (Unit {0})
  overlap task body tag other other_body other_tag = do
    found ← find_by_id P task.notification_id
    again ← find_by_id P other.notification_id
    handle_found P providers c config found task body tag
    handle_found P providers c config again other other_body other_tag

  -- The row when a worker has delivered the notification.
  abbrev pub delivered_row : NotificationRow → NotificationRow
  delivered_row row = count_attempt (set_status "SENT" (set_status "PROCESSING" row))

  -- After the first, the provider still takes the notification.
  abbrev pub TakesAgain : Notification → String → World P → Type 0
  TakesAgain m ref u =
      (x : World P)
      → x.breakers ≡ u.breakers
      → (y : World P) × (send P providers m x ≡ (returns ref, y)) × IsAside x y

  -- A notification is delivered twice. Two workers of a channel have messages that name a
  -- notification which is not done, in a quiet world, and both look it up before either goes on;
  -- the provider takes the notification for the one, and takes it again while the breakers are as
  -- the first send left them. Then both come to their end and acknowledge their messages, the row
  -- is SENT and counts two attempts more, and the attempt of the second number is recorded with
  -- the second reference.
  pub delivered_twice :
      (task other : Task) (k j : ℕ) (body other_body : P.Body) (w u : World P)
      (row : NotificationRow) (m : Notification) (tag other_tag : ℕ) (ref other_ref : String)
      → IsDue P laws n providers c config task k body w row m
      → IsDue P laws n providers c config other j other_body w row m
      → other.notification_id ≡ task.notification_id
      → send P providers m (marked P laws n providers c config task w) ≡ (returns ref, u)
      → IsAside (marked P laws n providers c config task w) u
      → TakesAgain m other_ref u
      → (v : World P) × (overlap task body tag other other_body other_tag w ≡ (returns tt, v))
        × IsSettled P laws n providers c config other j
            ((w.commands ++ ack tag ∷ []) ++ ack other_tag ∷ [])
            (delivered_row (delivered_row row))
            (sent_attempt P laws n providers c config other other_ref)
            v
  delivered_twice task other k j body other_body w u row m tag other_tag ref other_ref d e same
        sends aside takes =
      let (v, first, settled, breakers) =
        process-delivers P laws n providers c config task k body w u row m tag ref d.quiet d.number
          d.found sends aside in
      let there : find_row P other.notification_id v.tables.notifications
          ≡ some (delivered_row row) =
        ap (λ id. find_row P id v.tables.notifications) same ∙ settled.row_found in
      let (y, sends_again, aside_again) =
        takes (marked P laws n providers c config other v) breakers in
      let (z, second, over, kept) =
        process-delivers P laws n providers c config other j other_body v y (delivered_row row) m
          other_tag other_ref settled.quiet e.number there sends_again aside_again in
      (
        z,
        rw
            (
              find_by_id-quiet P n w d.quiet task.notification_id row m d.found d.reads,
              find_by_id-quiet P n w e.quiet other.notification_id row m e.found e.reads,
              d.due,
              first,
              second,
            )
            refl,
        record {
          commands = over.commands ∙ ap (λ cs. cs ++ ack other_tag ∷ []) settled.commands;
          row_found = over.row_found;
          attempt_found = over.attempt_found;
          quiet = over.quiet;
        },
      )
