-- ===== src/Program/Ending.antt =====
-- src/main.cpp: how main ends.
use distributed_notification.Base.{
  ℕ, zero, suc, ◌≡◌, Bool, true, false, String, Option, none, some, length, ◌&&◌,
}
use distributed_notification.Enums.{Channel}
use distributed_notification.Platform.{Platform, Parsed, ok, bad}
use distributed_notification.Config.{Config}
use distributed_notification.Database.Opening.{to_size, open_sessions}
use distributed_notification.RabbitMqTopology.{declare_all}
use distributed_notification.WorkerPool.{rounds}
use distributed_notification.WorkerPool.Lifecycle.{working}
use distributed_notification.Program.{Service, Ended, terminated, waits, exits, Run, Refusals}

-- Of the first n threads of the server, the accept loops return.
abbrev pub all_return : (ℕ → Bool) → ℕ → Bool
all_return returning zero = true
all_return returning (suc n) = returning 0 && all_return (λ i. returning (suc i)) n

-- How the service ends at a signal.
abbrev pub ending : Bool → Ended
ending true = exits 0
ending false = waits

-- How main runs with k sessions, by what the constructors of the publisher and the server throw.
abbrev pub Made : (ℕ → Bool) → Config → ℕ → Option String → Option String → Run → Type 0
Made returning config k (some e) acceptor r = r ≡ record { ready = none; ended = terminated }
Made returning config k none (some e) r = r ≡ record { ready = none; ended = terminated }
Made returning config k none none r =
    (s : Service) × ((r ≡ record {
      ready = some s;
      ended = ending (all_return returning (rounds config.http_threads));
    })
      × (s.sessions ≡ to_size config.db_pool_size)
      × (s.publisher.declared ≡ declare_all config)
      × ((c : Channel) → working config c s.workers ≡ rounds config.workers_per_channel)
      × (length s.server.threads ≡ rounds config.http_threads))

-- By what the reading of the file gives and by what the opening of the sessions gives.
abbrev pub Opened : (ℕ → Bool) → Config → Refusals → Option ℕ → Run → Type 0
Opened returning config refusals none r = r ≡ record { ready = none; ended = terminated }
Opened returning config refusals (some k) r =
    Made returning config k refusals.address refusals.acceptor r

abbrev pub Exited : (ℕ → Bool) → Refusals → Parsed Config → Run → Type 0
Exited returning refusals (bad e) r = r ≡ record { ready = none; ended = exits 1 }
Exited returning refusals (ok config) r =
    Opened returning config refusals (open_sessions (to_size config.db_pool_size) refusals.sessions)
      r
