-- ===== src/System/Bounded.antt =====
-- src/main.cpp: the messages of the service come to an end.
use mathlib.Core.List.{Memᴰ}
use mathlib.Core.List.Memᴰ.{append_right}
use distributed_notification.Base.{
  ℕ, suc, ◌+◌, ◌*◌, ◌≤◌, ◌≡◌, refl, sym, ap, subst, inl, inr, Bool, true, false, List, [], ◌∷◌,
  ◌++◌, if◌then◌else◌, arith,
}
use distributed_notification.Enums.{Channel}
use distributed_notification.Models.{Notification}
use distributed_notification.Config.{Config}
use distributed_notification.Platform.{Platform, IsCollation, IsJson}
use distributed_notification.Provider.{Provider}
use distributed_notification.ProviderRouter.Apart.{AllApart}
use distributed_notification.Effects.{World, Command, Outcome, returns, throws, blocked}
use distributed_notification.Effects.Calm.{IsCalm}
use distributed_notification.RabbitMqTopology.{main_queue, declare_all, exchange_name, routing_key}
use distributed_notification.RabbitMqTopology.Broker.{Broker, IsBroker, IsExact}
use distributed_notification.RabbitMqTopology.Burial.{DeadLetters-is_dlq, routed_once}
use distributed_notification.RabbitMqTopology.Names.{is_dlq-main_queue}
use distributed_notification.RabbitMqTopology.Ladder.{IsLadder}
use distributed_notification.HttpServer.{Response, handle_connection}
use distributed_notification.HttpServer.Answers.{Answered, handle_connection-Answered}
use distributed_notification.System.{
  Mail, System, posts, takes, unpublished, interrupted, expires, passes, Reach, here, next, ready,
  posted, after_post, after_message, cut_post, cut_message,
}
use distributed_notification.System.Carrying.{IsMade, IsTracked}
use distributed_notification.System.Kept.{Reach-IsTracked, fresh-IsTracked}
use distributed_notification.System.Spending.{taken-Spends, work-le}
use distributed_notification.System.Draining.{
  work, total, total-append, sent, handlings, submissions, interruptions, taken-total, told_by,
  Spends,
}

module _ (P : Platform) (laws : IsCollation P) (json : IsJson P) (broker : Broker)
    (documented : IsBroker broker) (n : ℕ) (providers : Channel → Provider P)
    (apart : AllApart P providers)
    (calm : (d : Channel) (m : Notification) → IsCalm (suc (suc n)) (providers d m))
    (config : Config) (max : ℕ) (ladder : IsLadder config max)
    (exact : IsExact broker (declare_all config)) where
  abbrev sent_out : List (Command P.Body) → List (Mail P.Body)
  sent_out = sent P max broker n providers config

  -- A submission brings one message at most, with its first attempt.
  answer-total :
      (body : P.Body) (w : World P) (r : Outcome (Response P.Body)) (v : World P)
      → w.commands ≡ []
      → Answered P json body w r v
      → total P max (sent_out v.commands) ≤ suc max
  answer-total body w (returns r) v silent (idle, inl (input, asks, h)) =
      let once = exact.by_key exchange_name (routing_key h.saved.channel) refl in
      rw
        (
          h.command,
          silent,
          once,
          routed_once config h.saved.channel,
          is_dlq-main_queue h.saved.channel,
          h.task,
        )
        (omega arith)
  answer-total body w (returns r) v silent (idle, inr (clear, is, same)) =
      rw (same.1, silent) (omega arith)
  answer-total body w (throws e) v silent (idle, garbled, is, same) =
      rw (same.1, silent) (omega arith)
  answer-total body w blocked v silent h = absurd h

  posted-total :
      (body : P.Body) (s : System P)
      → total P max (after_post P broker n providers config body s).mails
        ≤ total P max s.mails + suc max
  unfolding after_post
  posted-total body s =
      let w = ready P broker n providers config s.world in
      let q = handle_connection P (posted P broker n providers config body) w in
      let one =
        answer-total body w q.0 q.1 refl (handle_connection-Answered P json body w n refl refl) in
      omega (arith, one, total-append P max s.mails (sent_out q.1.commands))

  -- An expired message comes to a main queue from a queue that is no dead-letter queue.
  moved-total :
      (c : Channel) (before : List (Mail P.Body)) (mail : Mail P.Body) (after : List (Mail P.Body))
      → broker.DeadLetters (declare_all config) mail.at_queue (main_queue c)
      → total P max (before ++ record mail { at_queue = main_queue c } ∷ after)
        ≡ total P max (before ++ mail ∷ after)
  moved-total c before mail after moves =
      let from = DeadLetters-is_dlq broker config exact mail.at_queue (main_queue c) moves in
      let same : work P max (record mail { at_queue = main_queue c }) ≡ work P max mail =
        rw (from, is_dlq-main_queue c) refl in
      omega (
        arith,
        same,
        total-append P max before (record mail { at_queue = main_queue c } ∷ after),
        total-append P max before (mail ∷ after),
      )

  abbrev arrived : Bool → List (Command P.Body) → List (Mail P.Body)
  arrived told cs = if told then sent_out cs else []

  cut-total :
      (told : Bool) (cs : List (Command P.Body)) (tag w : ℕ)
      → Spends P max broker n providers config tag w cs
      → total P max (arrived told cs) ≤ w
  cut-total true cs tag w (inl (gone, less)) = omega (arith, less)
  cut-total true cs tag w (inr (kept, none)) = omega (arith, none)
  cut-total false cs tag w h = omega arith

  between-IsMade :
      (start : System P)
      → IsTracked P broker n providers config max (λ id. ⊥) start
      → {s : System P} → Reach P broker n providers config start s
      → (before : List (Mail P.Body)) (mail : Mail P.Body) (after : List (Mail P.Body))
      → s.mails ≡ before ++ mail ∷ after
      → IsMade P broker n providers config max mail.body
  between-IsMade start inv run before mail after at =
      (Reach-IsTracked P laws json broker documented n providers apart calm config max ladder run
          inv).made
        mail (subst (Memᴰ mail) (sym at) (append_right before (Memᴰ.head refl)))

  drained :
      (start : System P)
      → IsTracked P broker n providers config max (λ id. ⊥) start
      → {s : System P} (run : Reach P broker n providers config start s)
      → handlings P max broker n providers config run + total P max s.mails
        ≤ total P max start.mails
          + (submissions P max broker n providers config run
              + interruptions P max broker n providers config run)
            * suc max
  unfolding after_message cut_post cut_message
  drained start inv here = omega arith
  drained start inv (next {t} run (posts body)) =
      omega (arith, drained start inv run, posted-total body t)
  drained start inv (next {t} run (takes c tag before mail after at main)) =
      let made = between-IsMade start inv run before mail after at in
      let less =
        taken-total P max broker n providers config tag before after mail
          (told_by P max broker n providers config c tag mail t)
          (taken-Spends P laws json broker n providers apart calm config max ladder exact t c tag
            mail main made) in
      omega (arith, drained start inv run, less, ap (total P max) at)
  drained start inv (next {t} run (unpublished body)) = omega (arith, drained start inv run)
  drained start inv (next {t} run (interrupted c tag before mail after told at main)) =
      let made = between-IsMade start inv run before mail after at in
      let cs = told_by P max broker n providers config c tag mail t in
      let less = cut-total told cs tag (work P max mail) (
        taken-Spends P laws json broker n providers apart calm config max ladder exact t c tag mail
          main made) in
      let few =
        work-le P laws json broker n providers apart calm config max ladder exact c mail main
          made in
      omega (arith, drained start inv run, less, few, total-append P max t.mails (arrived told cs))
  drained start inv (next {t} run (expires c before mail after at moves)) =
      omega
        (arith, drained start inv run, moved-total c before mail after moves, ap (total P max) at)
  drained start inv (next run (passes v same)) = omega (arith, drained start inv run)

  -- The messages come to an end. From a service with no notifications and no messages, in a run in
  -- which no two handlers overlap, by submissions, published or not, handled messages, each to its end
  -- or cut off, expiries and changes of the surroundings in any order, whatever the providers answer
  -- and the server refuses: the messages that have been handled and acknowledged, together with the
  -- attempts that those in the queues still ask for (max + 2 less its number for each that is not in
  -- a dead-letter queue), are at most max + 1 for each submission that was not left unpublished and
  -- for each handling that was cut off, where max is the setting of the most retries. The broker is as
  -- documented and does no more than that, the providers use no session and touch neither tables nor
  -- broker, and the ladder has a rung for each retry.
  pub handlings-le :
      (start s : System P)
      → start.world.tables.notifications ≡ []
      → start.mails ≡ []
      → (run : Reach P broker n providers config start s)
      → handlings P max broker n providers config run + total P max s.mails
        ≤ (submissions P max broker n providers config run
            + interruptions P max broker n providers config run)
          * suc max
  handlings-le start s empty quiet run =
      let fresh =
        fresh-IsTracked P laws json broker documented n providers apart calm config max ladder start
          empty quiet in
      omega (arith, drained start fresh run, ap (total P max) quiet)
