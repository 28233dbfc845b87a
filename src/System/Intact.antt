-- ===== src/System/Intact.antt =====
-- src/main.cpp, sql/schema.sql: the tables stay intact, whatever the service does.
use distributed_notification.Base.{ℕ, suc, ◌≡◌, refl, sym, ap, ◌∙◌, subst, inl, inr}
use distributed_notification.Enums.{Channel}
use distributed_notification.Models.{Notification}
use distributed_notification.Config.{Config}
use distributed_notification.Platform.{Platform, IsCollation, IsJson}
use distributed_notification.Provider.{Provider}
use distributed_notification.ProviderRouter.Apart.{AllApart}
use distributed_notification.Effects.{World, Outcome, returns, throws, blocked}
use distributed_notification.Effects.Calm.{IsCalm}
use distributed_notification.Effects.Ensures.{After}
use distributed_notification.Database.Schema.{empty}
use distributed_notification.NotificationRepository.{find_row, find_key}
use distributed_notification.NotificationRepository.Submission.{Submitted}
use distributed_notification.RabbitMqTopology.Broker.{Broker}
use distributed_notification.HttpServer.{Response, handle_connection}
use distributed_notification.HttpServer.Answers.{Answered, handle_connection-Answered}
use distributed_notification.Worker.{on_message}
use distributed_notification.Worker.Told.{Handled}
use distributed_notification.Worker.Acking.{on_message-Handled}
use distributed_notification.Worker.Keeping.{Intact, on_message-Intact}
use distributed_notification.Integrity.{IsIntact}
use distributed_notification.Integrity.Statements.{with_both-IsIntact}
use distributed_notification.System.{
  System, ready, posted, after_post, after_message, cut_post, cut_message, Turn, posts, takes,
  unpublished, interrupted, expires, passes, Reach, here, next,
}

module _ (P : Platform) (laws : IsCollation P) (json : IsJson P) (broker : Broker) (n : ℕ)
    (providers : Channel → Provider P) (apart : AllApart P providers)
    (calm : (d : Channel) (m : Notification) → IsCalm (suc (suc n)) (providers d m))
    (config : Config) where
  Submitted-IsIntact :
      (input m : Notification) (w v : World P)
      → Submitted P input w (returns m) v
      → IsIntact P w.tables
      → IsIntact P v.tables
  Submitted-IsIntact input m w v (inl (row, taken, reads, same)) h = subst (IsIntact P) (sym same) h
  Submitted-IsIntact input m w v (inr (free, is, both, unused)) h =
      let key : m.idempotency_key ≡ input.idempotency_key =
        ap (λ (x : Notification). x.idempotency_key) is in
      subst (IsIntact P) (sym both) (
        with_both-IsIntact P laws m w.timestamp w.tables unused
          (ap (λ k. find_key P k w.tables.notifications) key ∙ free) h)

  Answered-IsIntact :
      (body : P.Body) (w : World P) (r : Outcome (Response P.Body)) (v : World P)
      → Answered P json body w r v
      → IsIntact P w.tables
      → IsIntact P v.tables
  Answered-IsIntact body w (returns r) v (idle, inl (input, asks, h)) t =
      Submitted-IsIntact input h.saved w v h.stored t
  Answered-IsIntact body w (returns r) v (idle, inr (clear, is, same)) t =
      subst (IsIntact P) (sym same.0) t
  Answered-IsIntact body w (throws e) v (idle, garbled, is, same) t =
      subst (IsIntact P) (sym same.0) t
  Answered-IsIntact body w blocked v h t = absurd h

  Handled-IsIntact :
      (c : Channel) (tag : ℕ) (w : World P) (r : Outcome (Unit {0})) (v : World P)
      → Handled P (suc n) c tag w.commands r v
      → After (λ _. Intact P laws) (Intact P laws) r v
      → IsIntact P v.tables
  Handled-IsIntact c tag w (returns u) v h k = k
  Handled-IsIntact c tag w (throws e) v h k = k
  Handled-IsIntact c tag w blocked v h k = absurd h.0

  post-IsIntact :
      (s : System P) (body : P.Body)
      → IsIntact P s.world.tables
      → let v =
          (handle_connection P
            (posted P broker n providers config body)
            (ready P broker n providers config s.world)).1 in
        IsIntact P v.tables
  post-IsIntact s body h =
      let w = ready P broker n providers config s.world in
      let q = handle_connection P (posted P broker n providers config body) w in
      Answered-IsIntact body w q.0 q.1 (handle_connection-Answered P json body w n refl refl) h

  message-IsIntact :
      (s : System P) (c : Channel) (tag : ℕ) (body : P.Body)
      → IsIntact P s.world.tables
      → let v =
          (on_message P providers c config body tag
            (ready P broker n providers config s.world)).1 in
        IsIntact P v.tables
  message-IsIntact s c tag body h =
      let w = ready P broker n providers config s.world in
      let q = on_message P providers c config body tag w in
      Handled-IsIntact c tag w q.0 q.1
        (on_message-Handled P (suc n) providers c config calm body tag w refl)
        ((on_message-Intact P laws providers apart c config body tag).at w h)

  Turn-IsIntact :
      {s t : System P}
      → Turn P broker n providers config s t
      → IsIntact P s.world.tables
      → IsIntact P t.world.tables
  unfolding after_post after_message cut_post cut_message
  Turn-IsIntact {s} (posts body) h = post-IsIntact s body h
  Turn-IsIntact {s} (takes c tag before mail after at main) h = message-IsIntact s c tag mail.body h
  Turn-IsIntact {s} (unpublished body) h = post-IsIntact s body h
  Turn-IsIntact {s} (interrupted c tag before mail after told at main) h =
      message-IsIntact s c tag mail.body h
  Turn-IsIntact {s} (expires c before mail after at moves) h = h
  Turn-IsIntact {s} (passes v same) h = subst (IsIntact P) (sym same) h

  Reach-IsIntact :
      {s t : System P}
      → Reach P broker n providers config s t
      → IsIntact P s.world.tables
      → IsIntact P t.world.tables
  Reach-IsIntact here h = h
  Reach-IsIntact (next run step) h = Turn-IsIntact step (Reach-IsIntact run h)

  empty-IsIntact : IsIntact P empty
  unfolding find_row
  empty-IsIntact = record {
    distinct = tt;
    paired = refl;
    unique = tt;
    owned = tt;
    evidence = λ id row found. cc;
  }

  -- From empty tables, in a run in which no two handlers overlap, by submissions, published or not,
  -- handled messages, each to its end or cut off, expiries and changes of the surroundings in any
  -- order, whatever the providers answer and the server refuses: no two notifications have the same
  -- id or idempotency key, each has its outbox event, no two attempts have the same notification and
  -- number, every attempt belongs to a notification, and a notification is SENT only with a success
  -- and DEAD_LETTERED only with a failure on record. The providers use no session and touch neither
  -- tables nor broker.
  pub tables-IsIntact :
      (start s : System P)
      → start.world.tables ≡ empty
      → Reach P broker n providers config start s
      → IsIntact P s.world.tables
  tables-IsIntact start s fresh run =
      Reach-IsIntact run (subst (IsIntact P) (sym fresh) empty-IsIntact)
