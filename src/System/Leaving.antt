-- ===== src/System/Leaving.antt =====
-- src/Worker.cpp: how a worker leaves the notification that a message names, and its messages.
use mathlib.Core.List.{Memᴰ}
use mathlib.Core.List.Memᴰ.{not-nil}
use distributed_notification.Base.{
  ℕ, suc, ◌<◌, ◌≡◌, refl, sym, ap, subst, ◌⊎◌, inl, inr, pos, gtb_ℤ, true, false, String, some,
  List, [], length, arith,
}
use distributed_notification.Enums.{Channel}
use distributed_notification.Models.{Notification}
use distributed_notification.Config.{Config}
use distributed_notification.Platform.{Platform, IsCollation, IsJson, Parsed}
use distributed_notification.Message.{Task, message}
use distributed_notification.Provider.{Provider}
use distributed_notification.ProviderRouter.Apart.{AllApart}
use distributed_notification.Effects.{World, Command, Outcome, returns, throws, blocked}
use distributed_notification.Effects.Calm.{IsCalm}
use distributed_notification.Effects.Ensures.{After}
use distributed_notification.Database.Schema.{Tables, NotificationRow}
use distributed_notification.RabbitMqTopology.{main_queue, retry_queue, declare_all}
use distributed_notification.RabbitMqTopology.Broker.{
  Broker, IsBroker, parked_expires, parked_arrives,
}
use distributed_notification.RabbitMqTopology.Ladder.{IsLadder}
use distributed_notification.Worker.{on_message, handle_decoded}
use distributed_notification.Worker.Told.{Handled}
use distributed_notification.Worker.Acking.{on_message-Handled}
use distributed_notification.Worker.Local.{Local}
use distributed_notification.Worker.Settling.{Settled, retry_of, handle_decoded-Ensures}
use distributed_notification.System.Renumbering.{next_task, place_low, next_decodes, next-IsMade}
use distributed_notification.System.Carrying.{IsMade, IsCarried, Sound, mem-routed}
use distributed_notification.System.{Mail, System, routed, acked, ready}

module _ (P : Platform) (laws : IsCollation P) (json : IsJson P) (broker : Broker)
    (documented : IsBroker broker) (n : ℕ) (providers : Channel → Provider P)
    (apart : AllApart P providers)
    (calm : (d : Channel) (m : Notification) → IsCalm (suc (suc n)) (providers d m))
    (config : Config) (max : ℕ) (ladder : IsLadder config max) where
  abbrev Made : P.Body → Type 0
  Made = IsMade P broker n providers config max

  module _ (c : Channel) (body : P.Body) (made : IsMade P broker n providers config max body) where
    abbrev renumbered : Task
    renumbered = next_task P json broker n providers config max ladder body made

    pub next-Made :
        gtb_ℤ made.task.attempt_number config.max_retries ≡ false → Made (message P renumbered)
    next-Made = next-IsMade P json broker n providers config max ladder body made

    abbrev SoundHere : Command P.Body → Type 0
    SoundHere = Sound P broker n providers config max

    -- What a completed handling leaves, from notifications `rows`.
    abbrev SettledFrom : List NotificationRow → Tables → List (Command P.Body) → Type 0
    SettledFrom rows =
        Settled P laws providers apart c config SoundHere (λ tag. tt) rows made.task body next-Made
          made

    abbrev CleanHere : List (Command P.Body) → Type 0
    CleanHere cs = (k : Command P.Body) → Memᴰ k cs → SoundHere k

    abbrev LocalFrom : List NotificationRow → Tables → List (Command P.Body) → Type 0
    LocalFrom rows = Local P laws CleanHere rows made.task.notification_id

    handled :
        (tag : ℕ) (w : World P)
        → w.commands ≡ []
        → let q = on_message P providers c config body tag w in
          After (λ _. SettledFrom w.tables.notifications) (LocalFrom w.tables.notifications) q.0 q.1
    unfolding on_message
    handled tag w silent =
        subst
          (λ (p : Parsed Task).
            let q = handle_decoded P providers c config p body tag w in
            After (λ _. SettledFrom w.tables.notifications) (LocalFrom w.tables.notifications) q.0
              q.1)
          (sym made.decoded)
          ((handle_decoded-Ensures P laws providers apart c config SoundHere (λ tag. tt)
              w.tables.notifications made.task body next-Made made tag).at
            w (refl, λ k m. absurd (not-nil (subst (Memᴰ k) silent m))))

    -- The notification is settled, or the message has not been acknowledged.
    pub record Leaves (rows : List NotificationRow) (tag : ℕ) (v : World P) : Type 0 where
      pub local : LocalFrom rows v.tables v.commands
      pub fate :
          (acked P broker n providers config tag v.commands ≡ false)
          ⊎ SettledFrom rows v.tables v.commands

    leaves :
        (rows : List NotificationRow) (tag : ℕ) (r : Outcome (Unit {0})) (v : World P)
        → Handled P (suc n) c tag [] r v
        → After (λ _. SettledFrom rows) (LocalFrom rows) r v
        → Leaves rows tag v
    leaves rows tag (returns u) v h s = record { local = s.0; fate = inr s }
    leaves rows tag (throws e) v (inl silent, idle) s = record {
      local = s;
      fate = inl (ap (acked P broker n providers config tag) silent);
    }
    leaves rows tag (throws e) v (inr (b, p, told), idle) s = record {
      local = s;
      fate = inl (ap (acked P broker n providers config tag) told);
    }
    leaves rows tag blocked v (h, idle) s = absurd h

    retry_is : retry_queue c made.task.attempt_number ≡ retry_queue c (pos (suc made.place))
    retry_is = ap (retry_queue c) made.number

    -- A parked message carries the notification.
    pub retry-IsCarried :
        (id : String) (v : World P)
        → P.same_text made.task.notification_id id ≡ true
        → gtb_ℤ made.task.attempt_number config.max_retries ≡ false
        → Memᴰ (retry_of P laws providers apart c config made.task) v.commands
        → IsCarried P broker n providers config max id
            (routed P broker n providers config v.commands)
    retry-IsCarried id v same again told =
        let rung : made.place < length config.retry_delays_ms =
          let low = place_low P json broker n providers config max ladder body made again in
          omega (arith, low, ladder.rungs) in
        (
          record { at_queue = retry_queue c made.task.attempt_number; body = message P renumbered },
          mem-routed P broker n providers config max v.commands ""
              (retry_queue c made.task.attempt_number) (retry_queue c made.task.attempt_number)
              (message P renumbered) true (some made.task.priority) told
              (subst (λ q. Memᴰ q (broker.routes (declare_all config) "" q)) (sym retry_is)
                (parked_arrives broker documented config c made.place rung)),
          record {
            live = (
              c,
              inr (
                  subst (λ q. broker.DeadLetters (declare_all config) q (main_queue c))
                    (sym retry_is) (parked_expires broker documented config c made.place rung)),
            );
            task = renumbered;
            decoded = next_decodes P json broker n providers config max ladder body made again;
            same = same;
          },
        )

  pub message-Leaves :
      (s : System P) (c : Channel) (tag : ℕ) (mail : Mail P.Body) (made : Made mail.body)
      → let v =
          (on_message P providers c config mail.body tag
            (ready P broker n providers config s.world)).1 in
        Leaves c mail.body made s.world.tables.notifications tag v
  message-Leaves s c tag mail made =
      let w = ready P broker n providers config s.world in
      let q = on_message P providers c config mail.body tag w in
      leaves c mail.body made s.world.tables.notifications tag q.0 q.1
        (on_message-Handled P (suc n) providers c config calm mail.body tag w refl)
        (handled c mail.body made tag w refl)

  -- A handling touches its own notification only, and what it tells the broker is well made.
  pub message-Local :
      (s : System P) (c : Channel) (tag : ℕ) (mail : Mail P.Body) (made : Made mail.body)
      → let v =
          (on_message P providers c config mail.body tag
            (ready P broker n providers config s.world)).1 in
        Local P laws
          (CleanHere c mail.body made)
          s.world.tables.notifications
          made.task.notification_id
          v.tables
          v.commands
  message-Local s c tag mail made = (message-Leaves s c tag mail made).local
