-- ===== src/System/Spending.antt =====
-- src/Worker.cpp: a message that a worker handles leaves less work, or stays as it is.
use mathlib.Core.List.{Memᴰ}
use mathlib.Core.List.Memᴰ.{not-nil}
use mathlib.Core.List.{append-nil}
use distributed_notification.Base.{
  ℕ, suc, ◌-◌, ◌≤◌, ◌≡◌, refl, sym, ap, subst, inl, inr, pos, gtb_ℤ, true, false, ==_iff, String,
  none, List, [], ◌∷◌, arith,
}
use distributed_notification.Enums.{Channel}
use distributed_notification.Models.{Notification}
use distributed_notification.Config.{Config}
use distributed_notification.Platform.{Platform, IsCollation, IsJson, Parsed, ok}
use distributed_notification.Message.{Task}
use distributed_notification.Provider.{Provider}
use distributed_notification.ProviderRouter.Apart.{AllApart}
use distributed_notification.Effects.{
  World, Command, publish, ack, Outcome, returns, throws, blocked,
}
use distributed_notification.Effects.Calm.{IsCalm}
use distributed_notification.Effects.Ensures.{After}
use distributed_notification.Database.Schema.{Tables, NotificationRow}
use distributed_notification.RabbitMqTopology.{main_queue, retry_queue, dlq, declare_all}
use distributed_notification.RabbitMqTopology.Broker.{Broker, IsExact}
use distributed_notification.RabbitMqTopology.Names.{is_dlq-main_queue, is_dlq-retry_queue}
use distributed_notification.RabbitMqTopology.Ladder.{IsLadder, rung_declared}
use distributed_notification.Worker.{on_message, handle_decoded}
use distributed_notification.Worker.Told.{Handled}
use distributed_notification.Worker.Acking.{on_message-Handled}
use distributed_notification.Worker.Settling.{Settled, retry_of, handle_decoded-Ensures}
use distributed_notification.Worker.Local.{Local}
use distributed_notification.System.{Mail, System, mails_at, ready}
use distributed_notification.System.Carrying.{IsMade}
use distributed_notification.System.Renumbering.{next_task, place_low, next_number, next_decodes}
use distributed_notification.System.Draining.{
  attempts_left, work, total, told_by, Spends, buried-total,
}

module _ (P : Platform) (laws : IsCollation P) (json : IsJson P) (broker : Broker) (n : ℕ)
    (providers : Channel → Provider P) (apart : AllApart P providers)
    (calm : (d : Channel) (m : Notification) → IsCalm (suc (suc n)) (providers d m))
    (config : Config) (max : ℕ) (ladder : IsLadder config max)
    (exact : IsExact broker (declare_all config)) where
  module _ (c : Channel) (body : P.Body) (made : IsMade P broker n providers config max body) where
    abbrev left : ℕ
    left = attempts_left max made.task.attempt_number

    left_is : left ≡ suc max - made.place
    left_is = let e = ap (attempts_left max) made.number in omega (arith, e, made.low)

    abbrev arriving : String → String → P.Body → ℕ
    arriving exchange key b =
        total P max
          (mails_at P broker n providers config b (broker.routes (declare_all config) exchange key))

    -- A message that is sent asks for less than this one.
    abbrev Less : Command P.Body → Type 0
    Less (publish exchange key b persistent priority) = suc (arriving exchange key b) ≤ left
    Less (ack tag) = Unit {0}

    buries-Less : Less (publish "" (dlq c) body true none)
    buries-Less =
        let none_left = buried-total P max broker n providers config exact c body in
        omega (arith, none_left, left_is, made.low)

    retry_routed :
        gtb_ℤ made.task.attempt_number config.max_retries ≡ false
        → broker.routes (declare_all config) "" (retry_queue c made.task.attempt_number)
          ≡ retry_queue c made.task.attempt_number ∷ []
    retry_routed again =
        let low = place_low P json broker n providers config max ladder body made again in
        let (ttl, declared, bound) =
          rung_declared config c made.place (omega (arith, low, ladder.rungs)) in
        rw (made.number) (exact.once (retry_queue c (pos (suc made.place))) true _ declared)

    parks-Less :
        gtb_ℤ made.task.attempt_number config.max_retries ≡ false
        → Less (retry_of P laws providers apart c config made.task)
    parks-Less again =
        let low = place_low P json broker n providers config max ladder body made again in
        let task = next_task P json broker n providers config max ladder body made in
        let number =
          ap (attempts_left max)
            (next_number P json broker n providers config max ladder body made) in
        rw
          (
            retry_routed again,
            is_dlq-retry_queue c made.task.attempt_number,
            next_decodes P json broker n providers config max ladder body made again,
          )
          (omega (arith, number, left_is, low))

    abbrev AllLess : List (Command P.Body) → Type 0
    AllLess cs = (k : Command P.Body) → Memᴰ k cs → Less k

    abbrev Left : List NotificationRow → Tables → List (Command P.Body) → Type 0
    Left rows = Local P laws AllLess rows made.task.notification_id

    -- Of what is known of a handling, this is needed here.
    sent_less :
        (rows : List NotificationRow) (r : Outcome (Unit {0})) (v : World P)
        → After
            (λ _.
              Settled P laws providers apart c config Less
                (λ tag. tt)
                rows
                made.task
                body
                parks-Less
                buries-Less)
            (Left rows)
            r
            v
        → After (λ _ t cs. AllLess cs) (λ t cs. AllLess cs) r v
    sent_less rows (returns u) v h = h.0.1
    sent_less rows (throws e) v h = h.1
    sent_less rows blocked v h = tt

    handled :
        (tag : ℕ) (w : World P)
        → w.commands ≡ []
        → let q = on_message P providers c config body tag w in
          After (λ _ t cs. AllLess cs) (λ t cs. AllLess cs) q.0 q.1
    unfolding on_message
    handled tag w silent =
        subst
          (λ (p : Parsed Task).
            let q = handle_decoded P providers c config p body tag w in
            After (λ _ t cs. AllLess cs) (λ t cs. AllLess cs) q.0 q.1)
          (sym made.decoded)
          (let q = handle_decoded P providers c config (ok made.task) body tag w in
            sent_less w.tables.notifications q.0 q.1 (
              (handle_decoded-Ensures P laws providers apart c config Less (λ tag. tt)
                  w.tables.notifications made.task body parks-Less buries-Less tag).at
                w (refl, λ k m. absurd (not-nil (subst (Memᴰ k) silent m)))))

    spends :
        (tag : ℕ) (r : Outcome (Unit {0})) (v : World P)
        → Handled P (suc n) c tag [] r v
        → After (λ _ t cs. AllLess cs) (λ t cs. AllLess cs) r v
        → Spends P max broker n providers config tag left v.commands
    spends tag (returns u) v (inl told, idle) less =
        let same = (==_iff tag tag).1 refl in
        inl (rw (told, same) refl, rw told (omega (arith, left_is, made.low)))
    spends tag (returns u) v (inr (q, b, p, told, parking), idle) less =
        let same = (==_iff tag tag).1 refl in
        let there = subst (Memᴰ (publish "" q b true p)) (sym told) (Memᴰ.head refl) in
        inl (rw (told, same) refl, rw (told, append-nil _) (less (publish "" q b true p) there))
    spends tag (throws e) v (inl told, idle) less = inr (rw told refl, rw told refl)
    spends tag (throws e) v (inr (b, p, told), idle) less =
        let none_left = buried-total P max broker n providers config exact c b in
        inr (rw told refl, rw (told, append-nil _) none_left)
    spends tag blocked v (h, idle) less = absurd h

  -- A handled message leaves less work by one at least when it is acknowledged, and else no more.
  pub taken-Spends :
      (s : System P) (c : Channel) (tag : ℕ) (mail : Mail P.Body)
      → mail.at_queue ≡ main_queue c
      → IsMade P broker n providers config max mail.body
      → Spends P max broker n providers config tag
          (work P max mail)
          (told_by P max broker n providers config c tag mail s)
  taken-Spends s c tag mail main made =
      let w = ready P broker n providers config s.world in
      let q = on_message P providers c config mail.body tag w in
      rw (main, is_dlq-main_queue c, made.decoded)
        (spends c mail.body made tag q.0 q.1
          (on_message-Handled P (suc n) providers c config calm mail.body tag w refl)
          (handled c mail.body made tag w refl))

  -- A message that is well made asks for max + 1 attempts at most.
  pub work-le :
      (c : Channel) (mail : Mail P.Body)
      → mail.at_queue ≡ main_queue c
      → IsMade P broker n providers config max mail.body
      → work P max mail ≤ suc max
  work-le c mail main made =
      let e = left_is c mail.body made in
      rw (main, is_dlq-main_queue c, made.decoded) (omega (arith, e))
