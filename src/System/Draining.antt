-- ===== src/System/Draining.antt =====
-- src/main.cpp, src/Worker.cpp: the work that the messages in the queues still ask for.
use distributed_notification.Base.{
  ℕ, suc, ◌+◌, ◌-◌, ◌≤◌, ◌≡◌, refl, ◌⊎◌, inl, inr, ℤ, pos, negsuc, Bool, true, false, List, [], ◌∷◌,
  ◌++◌, if◌then◌else◌, arith,
}
use distributed_notification.Enums.{Channel}
use distributed_notification.Config.{Config}
use distributed_notification.Platform.{Platform, Parsed, ok, bad}
use distributed_notification.Message.{Task, decode}
use distributed_notification.Provider.{Provider}
use distributed_notification.Effects.{Command}
use distributed_notification.RabbitMqTopology.{declare_all, dlq}
use distributed_notification.RabbitMqTopology.Broker.{Broker, IsExact}
use distributed_notification.RabbitMqTopology.Names.{is_dlq, is_dlq-dlq}
use distributed_notification.RabbitMqTopology.Burial.{dlq_declared}
use distributed_notification.Worker.{on_message}
use distributed_notification.System.{
  Mail, System, mails_at, routed, acked, ready, Reach, here, next, posts, takes, unpublished,
  interrupted, expires, passes,
}

-- How often a worker may still handle what has this attempt number, with max retries.
abbrev pub attempts_left : ℕ → ℤ → ℕ
attempts_left max (pos i) = suc (suc max) - i
attempts_left max (negsuc i) = 0

abbrev pub work_in : ℕ → Parsed Task → ℕ
work_in max (ok task) = attempts_left max task.attempt_number
work_in max (bad e) = 0

module _ (P : Platform) (max : ℕ) where
  -- Nothing takes a message from a dead-letter queue.
  abbrev pub work : Mail P.Body → ℕ
  work mail = if is_dlq mail.at_queue then 0 else work_in max (decode P mail.body)

  abbrev pub total : List (Mail P.Body) → ℕ
  total [] = 0
  total (mail ∷ mails) = work mail + total mails

  pub total-append : (ms ns : List (Mail P.Body)) → total (ms ++ ns) ≡ total ms + total ns
  total-append [] ns = omega arith
  total-append (m ∷ ms) ns = let h = total-append ms ns in omega (arith, h)

  module _ (broker : Broker) (n : ℕ) (providers : Channel → Provider P) (config : Config) where
    abbrev pub sent : List (Command P.Body) → List (Mail P.Body)
    sent = routed P broker n providers config

    abbrev pub was_acked : ℕ → List (Command P.Body) → Bool
    was_acked = acked P broker n providers config

    -- What a worker of channel c tells when it handles the message.
    abbrev pub told_by : Channel → ℕ → Mail P.Body → System P → List (Command P.Body)
    told_by c tag mail s =
        (on_message P providers c config mail.body tag
          (ready P broker n providers config s.world)).1.commands

    abbrev pub one_if : Bool → ℕ
    one_if b = if b then 1 else 0

    -- How many messages have been handled and acknowledged.
    abbrev pub handlings : {s t : System P} → Reach P broker n providers config s t → ℕ
    handlings here = 0
    handlings (next run (posts body)) = handlings run
    handlings (next {t} run (takes c tag before mail after at main)) =
        one_if (was_acked tag (told_by c tag mail t)) + handlings run
    handlings (next run (unpublished body)) = handlings run
    handlings (next run (interrupted c tag before mail after told at main)) = handlings run
    handlings (next run (expires c before mail after at moves)) = handlings run
    handlings (next run (passes v same)) = handlings run

    abbrev pub submissions : {s t : System P} → Reach P broker n providers config s t → ℕ
    submissions here = 0
    submissions (next run (posts body)) = suc (submissions run)
    submissions (next run (takes c tag before mail after at main)) = submissions run
    submissions (next run (unpublished body)) = submissions run
    submissions (next run (interrupted c tag before mail after told at main)) = submissions run
    submissions (next run (expires c before mail after at moves)) = submissions run
    submissions (next run (passes v same)) = submissions run

    -- How often the handling of a message was cut off.
    abbrev pub interruptions : {s t : System P} → Reach P broker n providers config s t → ℕ
    interruptions here = 0
    interruptions (next run (posts body)) = interruptions run
    interruptions (next run (takes c tag before mail after at main)) = interruptions run
    interruptions (next run (unpublished body)) = interruptions run
    interruptions (next run (interrupted c tag before mail after told at main)) =
        suc (interruptions run)
    interruptions (next run (expires c before mail after at moves)) = interruptions run
    interruptions (next run (passes v same)) = interruptions run

    -- A message whose handling tells the broker this loses work, or stays as it is.
    abbrev pub Spends : ℕ → ℕ → List (Command P.Body) → Type 0
    Spends tag w cs =
        ((was_acked tag cs ≡ true) × (suc (total (sent cs)) ≤ w))
        ⊎ ((was_acked tag cs ≡ false) × (total (sent cs) ≡ 0))

    pub taken-total :
        (tag : ℕ) (before after : List (Mail P.Body)) (mail : Mail P.Body)
        (cs : List (Command P.Body))
        → Spends tag (work mail) cs
        → one_if (was_acked tag cs)
            + total
                ((if was_acked tag cs then before ++ after else before ++ mail ∷ after) ++ sent cs)
          ≤ total (before ++ mail ∷ after)
    taken-total tag before after mail cs (inl (gone, less)) =
        let a = total-append (before ++ after) (sent cs) in
        let b = total-append before after in
        let d = total-append before (mail ∷ after) in rw gone (omega (arith, a, b, d, less))
    taken-total tag before after mail cs (inr (kept, none)) =
        let a = total-append (before ++ mail ∷ after) (sent cs) in rw kept (omega (arith, a, none))

    pub buried-total :
        (exact : IsExact broker (declare_all config)) (c : Channel) (body : P.Body)
        → total (
            mails_at P broker n providers config body
              (broker.routes (declare_all config) "" (dlq c)))
          ≡ 0
    buried-total exact c body =
        rw (exact.once (dlq c) true [] (dlq_declared config c), is_dlq-dlq c) refl
