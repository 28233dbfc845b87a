-- ===== src/WorkerPool.antt =====
-- include/notification/Worker.hpp and src/Worker.cpp: the threads of workers and the pool that owns
-- them. What happens inside a thread is `on_message`; here are the flag, the thread and the
-- io_context of each, with what run() asks the broker for.
pub mod Lifecycle
use distributed_notification.Base.{
  ℕ, zero, suc, ℤ, pos, negsuc, Bool, true, false, ◌&&◌, not, String, ◌<>◌, to_string, Option, none,
  some, List, [], ◌∷◌, ◌++◌, map, replicate, if◌then◌else◌,
}
use distributed_notification.Enums.{Channel, email, sms, push}
use distributed_notification.Config.{Config}
use distributed_notification.RabbitMqTopology.{main_queue}

-- What run() tells its connection, before it gives the thread to the io_context.
pub data Setup : Type 0 where
  connect : String → Setup
  set_qos : ℕ → Setup
  consume : String → Setup

-- `joinable` is that of `thread_`, `stopped` that of `ioContext_`, which nothing restarts.
pub record WorkerThread : Type 0 where
  pub channel : Channel
  pub running : Bool
  pub joinable : Bool
  pub stopped : Bool
  pub told : List Setup

abbrev pub build_amqp_address : Config → String
build_amqp_address c =
    "amqp://"
    <> (c.amqp_user
        <> (":"
            <> (c.amqp_password
                <> ("@" <> (c.amqp_host <> (":" <> (to_string c.amqp_port <> c.amqp_vhost)))))))

abbrev pub new_worker : Channel → WorkerThread
new_worker c = record { channel = c; running = false; joinable = false; stopped = false; told = [] }

-- run(), up to `ioContext_.run()`
abbrev pub run_setup : Config → Channel → List Setup
run_setup config c = connect (build_amqp_address config) ∷ set_qos 10 ∷ consume (main_queue c) ∷ []

-- `none` is std::terminate: a std::thread that is joinable cannot be assigned to.
unfoldable pub start_worker : Config → WorkerThread → Option WorkerThread
start_worker config t =
    if t.joinable
    then none
    else some
        (record t { running = true; joinable = true; told = t.told ++ run_setup config t.channel })

-- A join returns when run() does, which is when the io_context is stopped.
unfoldable pub stop_worker : WorkerThread → WorkerThread
stop_worker t =
    if not t.running then t else record t { running = false; stopped = true; joinable = false }

-- The destructor stops, and destroys `thread_`: of a joinable one that is std::terminate.
unfoldable pub destroy_worker : WorkerThread → Option WorkerThread
unfolding stop_worker
destroy_worker t = let t' = stop_worker t in if t'.joinable then none else some t'

-- The number of rounds of `for (int i = 0; i < n; ++i)`.
abbrev pub rounds : ℤ → ℕ
rounds (pos n) = n
rounds (negsuc n) = 0

unfoldable pub new_workers : Config → List WorkerThread
new_workers config =
    replicate (rounds config.workers_per_channel) (new_worker email)
    ++ (replicate (rounds config.workers_per_channel) (new_worker sms)
        ++ replicate (rounds config.workers_per_channel) (new_worker push))

abbrev pub and_rest : Option WorkerThread → Option (List WorkerThread) → Option (List WorkerThread)
and_rest none ts = none
and_rest (some t) none = none
and_rest (some t) (some ts) = some (t ∷ ts)

-- WorkerPool::start
unfoldable pub start_all : Config → List WorkerThread → Option (List WorkerThread)
start_all config [] = some []
start_all config (t ∷ ts) = and_rest (start_worker config t) (start_all config ts)

-- WorkerPool::stop
abbrev pub stop_all : List WorkerThread → List WorkerThread
stop_all = map stop_worker

-- The end of WorkerPool::~WorkerPool, which destroys the workers.
unfoldable pub destroy_all : List WorkerThread → Option (List WorkerThread)
destroy_all [] = some []
destroy_all (t ∷ ts) = and_rest (destroy_worker t) (destroy_all ts)
