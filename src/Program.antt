-- ===== src/Program.antt =====
-- src/main.cpp: the parts of the service in the order in which main makes, stops and destroys them.
pub mod Ending
use distributed_notification.Base.{ℕ, Bool, ℤ, String, Option, none, some, List, length}
use distributed_notification.Platform.{Platform, Parsed, ok, bad}
use distributed_notification.Config.{Config, load_from_file}
use distributed_notification.Database.Opening.{to_size, open_sessions}
use distributed_notification.RabbitMqPublisher.{
  Publisher, new_publisher, declare_topology, close_publisher,
}
use distributed_notification.WorkerPool.{
  WorkerThread, new_workers, start_all, stop_all, destroy_all,
}
use distributed_notification.HttpServer.Threads.{Server, new_server, start_server, stop_server}

pub record Service : Type 0 where
  pub sessions : ℕ
  pub publisher : Publisher
  pub workers : List WorkerThread
  pub server : Server

-- `exits` has what main returns; `terminated` is std::terminate, by an exception that leaves main or
-- by a thread that is destroyed or assigned to before it is joined; `waits` is a join that never
-- returns.
pub data Ended : Type 0 where
  terminated waits : Ended
  exits : ℕ → Ended

-- `ready` is the service at `LOG_INFO("main", "service ready")`, if main comes so far.
pub record Run : Type 0 where
  pub ready : Option Service
  pub ended : Ended

-- What the libraries throw in constructors: for each session, for the address of the broker, and for
-- the acceptor of the server, which may be bound to a port that is taken.
pub record Refusals : Type 0 where
  pub sessions : List (Option String)
  pub address : Option String
  pub acceptor : Option String

-- What follows a constructor that may throw; `none` is std::terminate.
abbrev pub unless : {A : Type 0} → Option String → Option A → Option A
unless none rest = rest
unless (some e) rest = none

abbrev pub with_workers : Config → Refusals → ℕ → Option (List WorkerThread) → Option Service
with_workers config refusals k none = none
with_workers config refusals k (some ws) = unless refusals.acceptor (
    some (record {
      sessions = k;
      publisher = declare_topology config (new_publisher config);
      workers = ws;
      server = start_server config new_server;
    }))

-- With k sessions open.
unfoldable pub start_service : Config → Refusals → ℕ → Option Service
start_service config refusals k =
    unless refusals.address (with_workers config refusals k (start_all config (new_workers config)))

abbrev pub with_stopped : Service → Option Server → Option Service
with_stopped s none = none
with_stopped s (some v) = some (record s { server = v; workers = stop_all s.workers })

-- `httpServer.stop(); workers.stop();`, or `none` where the first waits for ever. What is said of each
-- thread of the server is whether its accept loop returns when the acceptor is closed.
unfoldable pub stop_service : (ℕ → Bool) → Service → Option Service
stop_service returning s = with_stopped s (stop_server returning s.server)

abbrev pub without_workers : Service → Option (List WorkerThread) → Option Service
without_workers s none = none
without_workers s (some ws) =
    some (record s { workers = ws; publisher = close_publisher s.publisher })

abbrev pub after_server : Option Service → Option Service
after_server none = none
after_server (some s) = without_workers s (destroy_all s.workers)

-- The destructors of the server, the workers and the publisher, in the reverse of the order in which
-- they were made. Those of the first two stop again; the server has no thread left to wait for.
unfoldable pub destroy_service : (ℕ → Bool) → Service → Option Service
destroy_service returning s = after_server (with_stopped s (stop_server returning s.server))

abbrev pub after_destruction : Option Service → Ended
after_destruction none = terminated
after_destruction (some s) = exits 0

abbrev pub after_stop : (ℕ → Bool) → Option Service → Ended
after_stop returning none = waits
after_stop returning (some s) = after_destruction (destroy_service returning s)

-- From `service ready`, when a signal comes.
unfoldable pub shut_down : (ℕ → Bool) → Service → Ended
shut_down returning s = after_stop returning (stop_service returning s)

abbrev pub after_start : (ℕ → Bool) → Option Service → Run
after_start returning none = record { ready = none; ended = terminated }
after_start returning (some s) = record { ready = some s; ended = shut_down returning s }

abbrev pub after_opening : Config → Refusals → (ℕ → Bool) → Option ℕ → Run
after_opening config refusals returning none = record { ready = none; ended = terminated }
after_opening config refusals returning (some k) =
    after_start returning (start_service config refusals k)

abbrev pub after_loading : Refusals → (ℕ → Bool) → Parsed Config → Run
after_loading refusals returning (bad e) = record { ready = none; ended = exits 1 }
after_loading refusals returning (ok config) =
    after_opening config refusals returning
      (open_sessions (to_size config.db_pool_size) refusals.sessions)

-- `argc > 1 ? argv[1] : "config/config.json"`
abbrev pub config_path : Option String → String
config_path none = "config/config.json"
config_path (some path) = path

-- The argument, the files, what the constructors will throw, and which accept loops return.
unfoldable pub main :
    (P : Platform) → Option String → (String → Option P.Body) → Refusals → (ℕ → Bool) → Run
main P arg files refusals returning =
    after_loading refusals returning (load_from_file P (config_path arg) (files (config_path arg)))
