-- ===== src/RabbitMqPublisher.antt =====
-- src/RabbitMQPublisher.cpp: the publisher with its connection and its thread, and its publications.
-- The library's channel takes the message at once and sends it from a thread of its own.
use distributed_notification.Base.{
  ℕ, Bool, true, false, String, ◌<>◌, to_string, some, List, [], ◌∷◌, ◌++◌,
}
use distributed_notification.Config.{Config}
use distributed_notification.RabbitMqTopology.{Declaration, declare_all}
use distributed_notification.Platform.{Platform}
use distributed_notification.Effects.{M, publish, returns}

-- Persistent, with the priority. The channel is given the message and its answer is not read: `commands`
-- has what was given, and System what reaches the broker of it, which may be nothing.
abbrev pub publish_to_exchange : {P : Platform} → String → String → P.Body → ℕ → M P (Unit {0})
publish_to_exchange exchange routing_key body priority w = (
  returns tt,
  record w {
    commands = w.commands ++ (publish exchange routing_key body true (some priority) ∷ []);
  },
)

-- What `publishToQueue` gives to the channel of the library, with T for the library's table of headers.
-- Nothing in the program calls it.
pub record Envelope (B T : Type 0) : Type 0 where
  pub body : B
  pub persistent : Bool
  pub priority : ℕ
  pub headers : T

pub record Publication (B T : Type 0) : Type 0 where
  pub exchange : String
  pub key : String
  pub envelope : Envelope B T

-- The default exchange, which routes by the queue's name.
abbrev pub publish_to_queue : {B T : Type 0} → String → B → ℕ → T → Publication B T
publish_to_queue queue_name body priority headers = record {
  exchange = "";
  key = queue_name;
  envelope = record { body = body; persistent = true; priority = priority; headers = headers };
}

-- `joinable` is that of `ioThread_`, `stopped` that of `ioContext_`; the channel has been told of
-- `declared`.
pub record Publisher : Type 0 where
  pub address : String
  pub confirms : Bool
  pub running : Bool
  pub joinable : Bool
  pub stopped : Bool
  pub declared : List Declaration

abbrev pub amqp_address : Config → String
amqp_address c =
    "amqp://"
    <> (c.amqp_user
        <> (":"
            <> (c.amqp_password
                <> ("@" <> (c.amqp_host <> (":" <> (to_string c.amqp_port <> c.amqp_vhost)))))))

abbrev pub new_publisher : Config → Publisher
new_publisher config = record {
  address = amqp_address config;
  confirms = true;
  running = true;
  joinable = true;
  stopped = false;
  declared = [];
}

-- declareTopologyBlocking
abbrev pub declare_topology : Config → Publisher → Publisher
declare_topology config p = record p { declared = p.declared ++ declare_all config }

-- The destructor, up to the destruction of `ioThread_`.
abbrev pub close_publisher : Publisher → Publisher
close_publisher p = record p { running = false; stopped = true; joinable = false }
