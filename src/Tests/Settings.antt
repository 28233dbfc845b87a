-- ===== src/Tests/Settings.antt =====
-- config/config.json, read from its text, and the workers that it asks for.
use distributed_notification.Base.{
  str_eq, if◌then◌else◌, pos, String, some, List, [], ◌∷◌, map, refl, ◌≡◌, inl, All, arith, Option,
  none, ℕ, zero, suc, Bool, true, false,
}
use distributed_notification.Platform.{ok, field}
use distributed_notification.Config.{Config, default, load_from_file}
use distributed_notification.Config.Loading.{Describes, load_from_file-Describes}
use distributed_notification.Enums.{Channel}
use distributed_notification.WorkerPool.{
  WorkerThread, new_workers, start_all, stop_all, destroy_worker,
}
use distributed_notification.WorkerPool.Lifecycle.{working, AllStopped, start_all-stop_all}
use distributed_notification.Tests.Toy.{Value, text, number, toy, toy-IsJson, toy-IsSettingsJson}
use distributed_notification.Program.{Refusals}

abbrev file : List (String × Value)
file =
    ("dbHost", text "127.0.0.1")
    ∷ ("dbPort", number (pos 33060))
    ∷ ("dbUser", text "notification_app")
    ∷ ("dbPassword", text "change-me")
    ∷ ("dbSchema", text "notification_db")
    ∷ ("dbPoolSize", number (pos 8))
    ∷ ("amqpHost", text "127.0.0.1")
    ∷ ("amqpPort", number (pos 5672))
    ∷ ("amqpUser", text "guest")
    ∷ ("amqpPassword", text "guest")
    ∷ ("amqpVhost", text "/")
    ∷ ("workersPerChannel", number (pos 4))
    ∷ ("maxRetries", number (pos 3))
    ∷ ("retryDelaysMs", toy.arr (map number (pos 5000 ∷ pos 15000 ∷ pos 60000 ∷ [])))
    ∷ ("cbFailureThreshold", number (pos 5))
    ∷ ("cbOpenDurationMs", number (pos 30000))
    ∷ ("httpAddress", text "0.0.0.0")
    ∷ ("httpPort", number (pos 8080))
    ∷ ("httpThreads", number (pos 4))
    ∷ []

abbrev settings : Config
settings = record default { db_password = "change-me" }

settings-Describes : Describes toy toy-IsJson toy-IsSettingsJson file settings
unfolding field
settings-Describes = record {
  db_host = inl refl;
  db_port = inl refl;
  db_user = inl refl;
  db_password = inl refl;
  db_schema = inl refl;
  db_pool_size = inl refl;
  amqp_host = inl refl;
  amqp_port = inl refl;
  amqp_user = inl refl;
  amqp_password = inl refl;
  amqp_vhost = inl refl;
  workers_per_channel = inl refl;
  max_retries = inl refl;
  retry_delays_ms = inl refl;
  cb_failure_threshold = inl refl;
  cb_open_duration_ms = inl refl;
  http_address = inl refl;
  http_port = inl refl;
  http_threads = inl refl;
  db_port_range = omega arith;
  db_pool_size_range = omega arith;
  amqp_port_range = omega arith;
  workers_per_channel_range = omega arith;
  max_retries_range = omega arith;
  cb_failure_threshold_range = omega arith;
  cb_open_duration_ms_range = omega arith;
  http_port_range = omega arith;
  http_threads_range = omega arith;
  retry_delays_ms_range = (omega arith, (omega arith, (omega arith, tt)));
}

load_from_file-Describes_example :
    load_from_file toy "config/config.json" (some (toy.dump (toy.obj file))) ≡ ok settings
load_from_file-Describes_example =
    load_from_file-Describes toy toy-IsJson toy-IsSettingsJson file "config/config.json" settings
      settings-Describes

start_all-stop_all_example :
    (ts : List WorkerThread) × ((start_all settings (new_workers settings) ≡ some ts)
      × ((c : Channel) → working settings c ts ≡ 4)
      × AllStopped (stop_all ts)
      × All (λ t. destroy_worker t ≡ some t) (stop_all ts)
      × (stop_all (stop_all ts) ≡ stop_all ts)
      × ((us : List WorkerThread) × ((start_all settings (stop_all ts) ≡ some us)
            × ((c : Channel) → working settings c us ≡ 0))))
start_all-stop_all_example = start_all-stop_all settings

-- A machine with one file.
abbrev files : String → Option toy.Body
files path = if str_eq path "config/config.json" then some (toy.dump (toy.obj file)) else none

abbrev calm : Refusals
calm = record { sessions = []; address = none; acceptor = none }

-- The accept loop of the first thread returns, the others do not.
abbrev first_returns : ℕ → Bool
first_returns zero = true
first_returns (suc i) = false
