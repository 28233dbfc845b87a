-- ===== src/System/Final.antt =====
-- src/main.cpp: a notification that is delivered stays as it is.
use distributed_notification.Base.{ℕ, suc, ◌≡◌, refl, sym, subst, true, String, some}
use distributed_notification.Enums.{Channel}
use distributed_notification.Models.{Notification}
use distributed_notification.Config.{Config}
use distributed_notification.Platform.{Platform, IsCollation, IsJson}
use distributed_notification.Message.{decode}
use distributed_notification.Provider.{Provider}
use distributed_notification.ProviderRouter.Apart.{AllApart}
use distributed_notification.Effects.{World, Outcome, returns, throws, blocked}
use distributed_notification.Effects.Calm.{IsCalm}
use distributed_notification.Effects.Ensures.{Facts, After}
use distributed_notification.Database.Schema.{Tables, NotificationRow}
use distributed_notification.NotificationRepository.{find_row}
use distributed_notification.RabbitMqTopology.Broker.{Broker}
use distributed_notification.HttpServer.{handle_connection}
use distributed_notification.HttpServer.Answers.{handle_connection-Answered}
use distributed_notification.Worker.{on_message}
use distributed_notification.Worker.Told.{Handled}
use distributed_notification.Worker.Acking.{on_message-Handled}
use distributed_notification.System.{
  System, ready, posted, after_post, after_message, cut_post, cut_message, Turn, posts, takes,
  unpublished, interrupted, expires, passes, Reach, here, next,
}
use distributed_notification.System.Standing.{
  IsOver, row_done, over_done, Stays, StaysFact, Answered-Stays, message-Stays,
}

module _ (P : Platform) (laws : IsCollation P) (json : IsJson P) (broker : Broker) (n : ℕ)
    (providers : Channel → Provider P) (apart : AllApart P providers)
    (calm : (d : Channel) (m : Notification) → IsCalm (suc (suc n)) (providers d m))
    (config : Config) (id : String) (row : NotificationRow) (over : row_done row ≡ true) where
  abbrev Standing : Tables → Type 0
  Standing = Stays P laws json broker n providers apart calm config id row over

  abbrev StandingFact : Facts P
  StandingFact = StaysFact P laws json broker n providers apart calm config id row over

  Handled-Stays :
      (c : Channel) (tag : ℕ) (w : World P) (r : Outcome (Unit {0})) (v : World P)
      → Handled P (suc n) c tag w.commands r v
      → After (λ _. StandingFact) StandingFact r v
      → Standing v.tables
  Handled-Stays c tag w (returns u) v h k = k
  Handled-Stays c tag w (throws e) v h k = k
  Handled-Stays c tag w blocked v h k = absurd h.0

  post-Stays :
      (s : System P) (body : P.Body)
      → Standing s.world.tables
      → let v =
          (handle_connection P
            (posted P broker n providers config body)
            (ready P broker n providers config s.world)).1 in
        Standing v.tables
  post-Stays s body h =
      let w = ready P broker n providers config s.world in
      let q = handle_connection P (posted P broker n providers config body) w in
      Answered-Stays P laws json broker n providers apart calm config id row over body w q.0 q.1
        (handle_connection-Answered P json body w n refl refl) h

  handling-Stays :
      (s : System P) (c : Channel) (tag : ℕ) (body : P.Body)
      → Standing s.world.tables
      → let v =
          (on_message P providers c config body tag
            (ready P broker n providers config s.world)).1 in
        Standing v.tables
  unfolding on_message
  handling-Stays s c tag body h =
      let w = ready P broker n providers config s.world in
      let q = on_message P providers c config body tag w in
      Handled-Stays c tag w q.0 q.1
        (on_message-Handled P (suc n) providers c config calm body tag w refl)
        (message-Stays P laws json broker n providers apart calm config id row over c
          (decode P body) body tag w h)

  Turn-Stays :
      {s t : System P}
      → Turn P broker n providers config s t
      → Standing s.world.tables
      → Standing t.world.tables
  unfolding after_post after_message cut_post cut_message
  Turn-Stays {s} (posts body) h = post-Stays s body h
  Turn-Stays {s} (takes c tag before mail after at main) h = handling-Stays s c tag mail.body h
  Turn-Stays {s} (unpublished body) h = post-Stays s body h
  Turn-Stays {s} (interrupted c tag before mail after told at main) h =
      handling-Stays s c tag mail.body h
  Turn-Stays {s} (expires c before mail after at moves) h = h
  Turn-Stays {s} (passes v same) h = subst Standing (sym same) h

  Reach-Stays :
      {s t : System P}
      → Reach P broker n providers config s t
      → Standing s.world.tables
      → Standing t.world.tables
  Reach-Stays here h = h
  Reach-Stays (next run step) h = Turn-Stays step (Reach-Stays run h)

module _ (P : Platform) (laws : IsCollation P) (json : IsJson P) (broker : Broker) (n : ℕ)
    (providers : Channel → Provider P) (apart : AllApart P providers)
    (calm : (d : Channel) (m : Notification) → IsCalm (suc (suc n)) (providers d m))
    (config : Config) where
  -- Between handlers, a notification that is SENT or CANCELLED is final: in a run in which no two
  -- handlers overlap, its row, with its status and its attempt count, stays as it is under its id,
  -- whatever submissions, handled messages, each to its end or cut off, expiries and changes of the
  -- surroundings follow, also messages that name it. A handler that looked it up before it was over is
  -- not in such a run. The providers use no session and touch neither tables nor broker.
  pub done_stays :
      (s t : System P) (id : String) (row : NotificationRow)
      → find_row P id s.world.tables.notifications ≡ some row
      → IsOver row
      → Reach P broker n providers config s t
      → find_row P id t.world.tables.notifications ≡ some row
  done_stays s t id row found over run =
      Reach-Stays P laws json broker n providers apart calm config id row (over_done row over) run
        found
