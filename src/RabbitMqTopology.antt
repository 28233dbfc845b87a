-- ===== src/RabbitMqTopology.antt =====
-- include/notification/RabbitMQTopology.hpp and src/RabbitMQTopology.cpp: the names of queues, and
-- the declarations in the order in which they are sent to the broker.
pub mod Ladder
pub mod Names
pub mod Broker
pub mod Burial
use distributed_notification.Base.{
  ℕ, ◌+◌, ℤ, pos, Bool, true, String, ◌<>◌, to_string, List, [], ◌∷◌, ◌++◌,
}
use distributed_notification.Enums.{Channel, email, sms, push}
use distributed_notification.Config.{Config}

-- An argument of a queue.
pub data Argument : Type 0 where
  number : ℤ → Argument
  text : String → Argument

pub data ExchangeType : Type 0 where
  topic : ExchangeType

-- `exchange` has name, type, durability; `queue` has name, durability, arguments; `binding` has
-- exchange, queue, routing key.
pub data Declaration : Type 0 where
  exchange : String → ExchangeType → Bool → Declaration
  queue : String → Bool → List (String × Argument) → Declaration
  binding : String → String → String → Declaration

abbrev pub exchange_name : String
exchange_name = "notifications.exchange"

abbrev pub routing_key : Channel → String
routing_key email = "notification.email"
routing_key sms = "notification.sms"
routing_key push = "notification.push"

abbrev pub channel_slug : Channel → String
channel_slug email = "email"
channel_slug sms = "sms"
channel_slug push = "push"

unfoldable pub main_queue : Channel → String
main_queue c = "q." <> channel_slug c

unfoldable pub retry_queue : Channel → ℤ → String
retry_queue c attempt_number = "q." <> (channel_slug c <> (".retry." <> to_string attempt_number))

unfoldable pub dlq : Channel → String
dlq c = "q." <> (channel_slug c <> ".dlq")

abbrev pub main_args : List (String × Argument)
main_args = ("x-max-priority", number (pos 5)) ∷ []

abbrev pub retry_args : Channel → ℤ → List (String × Argument)
retry_args c ttl =
    ("x-message-ttl", number ttl)
    ∷ ("x-dead-letter-exchange", text exchange_name)
    ∷ ("x-dead-letter-routing-key", text (routing_key c))
    ∷ []

-- The loop over the delays, from rung n.
unfoldable pub declare_rungs : Channel → ℕ → List ℤ → List Declaration
declare_rungs c n [] = []
declare_rungs c n (ttl ∷ ttls) =
    queue (retry_queue c (pos n)) true (retry_args c ttl) ∷ declare_rungs c (n + 1) ttls

-- The body of the loop over the channels.
unfoldable pub declare_channel : Config → Channel → List Declaration
declare_channel config c =
    queue (main_queue c) true main_args
    ∷ binding exchange_name (main_queue c) (routing_key c)
    ∷ (declare_rungs c 1 config.retry_delays_ms ++ (queue (dlq c) true [] ∷ []))

unfoldable pub declare_all : Config → List Declaration
declare_all config =
    exchange exchange_name topic true
    ∷ (declare_channel config email ++ (declare_channel config sms ++ declare_channel config push))
