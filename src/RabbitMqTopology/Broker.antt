-- ===== src/RabbitMqTopology/Broker.antt =====
-- What the retry ladder of src/RabbitMQTopology.cpp needs of RabbitMQ, as documented, and what the
-- declared topology gets from it.
use mathlib.Core.List.{Memᴰ}
use distributed_notification.Base.{
  ℕ, suc, ◌<◌, ◌≡◌, ℤ, pos, Bool, true, String, List, [], ◌∷◌, length, str_eq, false, ◌&&◌,
  if◌then◌else◌,
}
use distributed_notification.Enums.{Channel}
use distributed_notification.Config.{Config}
use distributed_notification.RabbitMqTopology.{
  Argument, Declaration, queue, binding, text, number, main_queue, retry_queue, declare_all,
  routing_key, exchange_name,
}
use distributed_notification.RabbitMqTopology.Ladder.{rung_declared}

-- `DeadLetters ds q main` says that with the declarations ds a message which expires in
-- queue q comes to queue main; `routes ds exchange key` are the queues that a publication goes to.
pub record Broker : Type 1 where
  pub DeadLetters : List Declaration → String → String → Type 0
  pub routes : List Declaration → String → String → List String

-- A queue with a TTL and a dead-letter exchange and routing key hands expired messages to every
-- queue that is bound to that exchange by that key.
pub record IsBroker (B : Broker) : Type 0 where
  pub expires :
      (ds : List Declaration) (q exchange key main : String) (ttl : ℤ)
      → Memᴰ
          (queue q true (
            ("x-message-ttl", number ttl)
            ∷ ("x-dead-letter-exchange", text exchange)
            ∷ ("x-dead-letter-routing-key", text key)
            ∷ []))
          ds
      → Memᴰ (binding exchange main key) ds
      → B.DeadLetters ds q main
  -- The default exchange, which has no name, takes the key for the name of a queue.
  pub by_name :
      (ds : List Declaration) (q : String) (durable : Bool) (args : List (String × Argument))
      → Memᴰ (queue q durable args) ds
      → Memᴰ q (B.routes ds "" q)
  -- Any other exchange brings it to the queues that are bound by the key.
  pub bound :
      (ds : List Declaration) (exchange key q : String)
      → str_eq exchange "" ≡ false
      → Memᴰ (binding exchange q key) ds
      → Memᴰ q (B.routes ds exchange key)

abbrev pub bound_queues : String → String → List Declaration → List String
bound_queues exchange key [] = []
bound_queues exchange key (Declaration.exchange name type durable ∷ ds) =
    bound_queues exchange key ds
bound_queues exchange key (queue q durable args ∷ ds) = bound_queues exchange key ds
bound_queues exchange key (binding name q k ∷ ds) =
    let rest = bound_queues exchange key ds in
    if str_eq name exchange && str_eq k key then q ∷ rest else rest

-- That it does no more than that, with the declarations ds, whose keys have no wildcards: only
-- a queue with a dead-letter exchange hands expired messages on, and a queue gets one copy.
pub record IsExact (B : Broker) (ds : List Declaration) : Type 0 where
  pub only :
      (q main : String)
      → B.DeadLetters ds q main
      → (durable : Bool) × (args : List (String × Argument)) × (a : Argument) × Memᴰ
          (queue q durable args)
          ds
        × Memᴰ ("x-dead-letter-exchange", a) args
  pub once :
      (q : String) (durable : Bool) (args : List (String × Argument))
      → Memᴰ (queue q durable args) ds
      → B.routes ds "" q ≡ q ∷ []
  pub by_key :
      (exchange key : String)
      → str_eq exchange "" ≡ false
      → B.routes ds exchange key ≡ bound_queues exchange key ds

-- With as many delays configured as i + 1 or more, a message that expires in the retry queue i + 1 of
-- a channel comes back to the main queue of that channel.
pub parked_expires :
    (B : Broker) (broker : IsBroker B) (config : Config) (c : Channel) (i : ℕ)
    → i < length config.retry_delays_ms
    → B.DeadLetters (declare_all config) (retry_queue c (pos (suc i))) (main_queue c)
parked_expires B broker config c i h =
    let (ttl, declared, bound) = rung_declared config c i h in
    broker.expires (declare_all config) _ exchange_name (routing_key c) _ ttl declared bound

-- A message for the retry queue i + 1 of a channel arrives there.
pub parked_arrives :
    (B : Broker) (broker : IsBroker B) (config : Config) (c : Channel) (i : ℕ)
    → i < length config.retry_delays_ms
    → Memᴰ
        (retry_queue c (pos (suc i)))
        (B.routes (declare_all config) "" (retry_queue c (pos (suc i))))
parked_arrives B broker config c i h =
    let (ttl, declared, bound) = rung_declared config c i h in
    broker.by_name (declare_all config) _ true _ declared
