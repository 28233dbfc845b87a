-- ===== src/RabbitMqTopology/Burial.antt =====
-- src/RabbitMQTopology.cpp: what comes to a dead-letter queue stays there.
use mathlib.Core.List.{Memᴰ}
use mathlib.Core.List.Memᴰ.{append_left, append_right, append_cases, eq_of_singleton}
use distributed_notification.Base.{
  ℕ, ◌+◌, ◌≡◌, refl, sym, subst, ◌⊎◌, inl, inr, ℤ, pos, true, false, Bool-cases, String, List, [],
  ◌∷◌, ◌++◌, str_eq, ◌&&◌,
}
use distributed_notification.Enums.{Channel, email, sms, push}
use distributed_notification.Config.{Config}
use distributed_notification.RabbitMqTopology.{
  Declaration, exchange, queue, binding, exchange_name, routing_key, main_queue, dlq, declare_rungs,
  declare_channel, declare_all,
}
use distributed_notification.RabbitMqTopology.Broker.{Broker, IsExact, bound_queues}
use distributed_notification.RabbitMqTopology.Names.{is_dlq, is_dlq-main_queue, is_dlq-retry_queue}

-- A queue that is declared is no dead-letter queue, or has no arguments.
abbrev Forwards : Declaration → Type 0
Forwards (exchange name type durable) = Unit {0}
Forwards (queue q durable args) = (is_dlq q ≡ false) ⊎ (args ≡ [])
Forwards (binding name q key) = Unit {0}

rungs-Forwards :
    (c : Channel) (start : ℕ) (ttls : List ℤ) (d : Declaration)
    → Memᴰ d (declare_rungs c start ttls)
    → Forwards d
unfolding declare_rungs
rungs-Forwards c start [] d m = elim m [ ]
rungs-Forwards c start (ttl ∷ ttls) d (Memᴰ.head e) =
    subst Forwards (sym e) (inl (is_dlq-retry_queue c (pos start)))
rungs-Forwards c start (ttl ∷ ttls) d (Memᴰ.tail m) = rungs-Forwards c (start + 1) ttls d m

channel-Forwards :
    (config : Config) (c : Channel) (d : Declaration)
    → Memᴰ d (declare_channel config c)
    → Forwards d
unfolding declare_channel
channel-Forwards config c d (Memᴰ.head e) = subst Forwards (sym e) (inl (is_dlq-main_queue c))
channel-Forwards config c d (Memᴰ.tail (Memᴰ.head e)) = subst Forwards (sym e) tt
channel-Forwards config c d (Memᴰ.tail (Memᴰ.tail m)) =
    elim (append_cases (declare_rungs c 1 config.retry_delays_ms) m) [
      | inl rung ↦ rungs-Forwards c 1 config.retry_delays_ms d rung
      | inr last ↦ subst Forwards (sym (eq_of_singleton last)) (inr refl)
    ]

all-Forwards : (config : Config) (d : Declaration) → Memᴰ d (declare_all config) → Forwards d
unfolding declare_all
all-Forwards config d (Memᴰ.head e) = subst Forwards (sym e) tt
all-Forwards config d (Memᴰ.tail m) = elim (append_cases (declare_channel config email) m) [
  | inl first ↦ channel-Forwards config email d first
  | inr rest ↦ elim (append_cases (declare_channel config sms) rest) [
    | inl second ↦ channel-Forwards config sms d second
    | inr third ↦ channel-Forwards config push d third
  ]
]

-- Only from other queues does the broker hand expired messages on.
pub DeadLetters-is_dlq :
    (B : Broker) (config : Config) (exact : IsExact B (declare_all config)) (q main : String)
    → B.DeadLetters (declare_all config) q main
    → is_dlq q ≡ false
DeadLetters-is_dlq B config exact q main moves =
    let (durable, args, a, declared, has) = exact.only q main moves in
    elim (all-Forwards config (queue q durable args) declared) [
      | inl other ↦ other
      | inr empty ↦ elim (subst (Memᴰ ("x-dead-letter-exchange", a)) empty has) [ ]
    ]

-- The dead-letter queue of a channel is declared.
in_channel :
    (config : Config) (c : Channel) → Memᴰ (queue (dlq c) true []) (declare_channel config c)
unfolding declare_channel
in_channel config c =
    Memᴰ.tail (Memᴰ.tail (append_right (declare_rungs c 1 config.retry_delays_ms) (Memᴰ.head refl)))

pub dlq_declared :
    (config : Config) (c : Channel) → Memᴰ (queue (dlq c) true []) (declare_all config)
unfolding declare_all
dlq_declared config email = Memᴰ.tail (append_left _ (in_channel config email))
dlq_declared config sms =
    Memᴰ.tail (append_right (declare_channel config email) (append_left _ (in_channel config sms)))
dlq_declared config push = Memᴰ.tail (
    append_right (declare_channel config email)
      (append_right (declare_channel config sms) (in_channel config push)))

-- The queues that the exchange brings the messages of a channel to.
bound_queues-append :
    (ex key : String) (ds es : List Declaration)
    → bound_queues ex key (ds ++ es) ≡ bound_queues ex key ds ++ bound_queues ex key es
bound_queues-append ex key [] es = refl
bound_queues-append ex key (exchange name type durable ∷ ds) es = bound_queues-append ex key ds es
bound_queues-append ex key (queue q durable args ∷ ds) es = bound_queues-append ex key ds es
bound_queues-append ex key (binding name q k ∷ ds) es =
    let rest = bound_queues-append ex key ds es in
    elim (Bool-cases (str_eq name ex && str_eq k key)) [
      | inl fits ↦ rw (fits, rest) refl
      | inr other ↦ rw (other, rest) refl
    ]

bound_queues-rungs :
    (ex key : String) (c : Channel) (start : ℕ) (ttls : List ℤ)
    → bound_queues ex key (declare_rungs c start ttls) ≡ []
unfolding declare_rungs
bound_queues-rungs ex key c start [] = refl
bound_queues-rungs ex key c start (ttl ∷ ttls) = bound_queues-rungs ex key c (start + 1) ttls

ladder_unbound :
    (ex key : String) (config : Config) (c : Channel)
    → bound_queues ex key (declare_rungs c 1 config.retry_delays_ms ++ queue (dlq c) true [] ∷ [])
      ≡ []
ladder_unbound ex key config c =
    rw
      (
        bound_queues-append ex key (declare_rungs c 1 config.retry_delays_ms)
            (queue (dlq c) true [] ∷ []),
        bound_queues-rungs ex key c 1 config.retry_delays_ms,
      )
      refl

abbrev binding_of : Channel → Declaration
binding_of c = binding exchange_name (main_queue c) (routing_key c)

channel_bound :
    (ex key : String) (config : Config) (c : Channel)
    → bound_queues ex key (declare_channel config c) ≡ bound_queues ex key (binding_of c ∷ [])
unfolding declare_channel
channel_bound ex key config c = rw (ladder_unbound ex key config c) refl

all_bound :
    (key : String) (config : Config)
    → bound_queues exchange_name key (declare_all config)
      ≡ bound_queues exchange_name key (binding_of email ∷ binding_of sms ∷ binding_of push ∷ [])
unfolding declare_all
all_bound key config =
    rw
      (
        bound_queues-append exchange_name key (declare_channel config email)
            (declare_channel config sms ++ declare_channel config push),
        bound_queues-append exchange_name key (declare_channel config sms)
            (declare_channel config push),
        channel_bound exchange_name key config email,
        channel_bound exchange_name key config sms,
        channel_bound exchange_name key config push,
        sym (bound_queues-append exchange_name key (binding_of sms ∷ []) (binding_of push ∷ [])),
        sym (
            bound_queues-append exchange_name key (binding_of email ∷ [])
              (binding_of sms ∷ binding_of push ∷ [])),
      )
      refl

pub routed_once :
    (config : Config) (c : Channel)
    → bound_queues exchange_name (routing_key c) (declare_all config) ≡ main_queue c ∷ []
routed_once config email = all_bound "notification.email" config
routed_once config sms = all_bound "notification.sms" config
routed_once config push = all_bound "notification.push" config
