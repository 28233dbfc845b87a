-- ===== src/Tests/Worlds.antt =====
-- Concrete worlds, notifications and providers for the tests.
use distributed_notification.Base.{pos, true, false, none, [], ◌∷◌}
use distributed_notification.Enums.{Channel, sms, normal, pending}
use distributed_notification.Models.{Notification}
use distributed_notification.CircuitBreaker.{CircuitBreaker, closed, opened, half_open}
use distributed_notification.Database.Schema.{Tables, empty}
use distributed_notification.NotificationRepository.{new_row, new_event}
use distributed_notification.Effects.{World, Breakers, provider_exception, throws, returns}
use distributed_notification.Provider.{Provider}
use distributed_notification.Tests.Toy.{toy}

abbrev pub closed_breaker : CircuitBreaker
closed_breaker = record {
  state = closed;
  failure_threshold = pos 2;
  open_duration = pos 1;
  failure_count = 0;
  probe_in_flight = false;
  opened_at = 0;
}

abbrev pub opened_breaker : CircuitBreaker
opened_breaker = record closed_breaker { state = opened; opened_at = 5 }

abbrev pub trying_breaker : CircuitBreaker
trying_breaker = record closed_breaker { state = half_open }

abbrev pub all_closed : Breakers
all_closed = record { email = closed_breaker; sms = closed_breaker; push = closed_breaker }

abbrev pub order : Notification
order = record {
  id = "";
  idempotency_key = "order-1";
  channel = sms;
  priority = normal;
  recipient = "+15550100";
  subject = "";
  body = "shipped";
  status = pending;
  attempt_count = pos 0;
  created_at = 0;
  updated_at = 0;
}

abbrev pub saved : Notification
saved = record order { id = "n-1" }

abbrev pub start : World toy
start = record {
  tables = empty;
  snapshot = none;
  outcomes = [];
  available = 2;
  breakers = all_closed;
  now = 0;
  timestamp = 7;
  rng = 0;
  commands = [];
}

abbrev pub saved_tables : Tables
saved_tables = record empty { notifications = new_row saved 7 ∷ []; outbox = new_event saved ∷ [] }

-- The order has been submitted.
abbrev pub submitted : World toy
submitted = record start { tables = saved_tables }

abbrev pub accepts : Channel → Provider toy
accepts c n w = (returns "ref", w)

abbrev pub times_out : Channel → Provider toy
times_out c n w = (throws (provider_exception "timed out" true), w)

abbrev pub rejects : Channel → Provider toy
rejects c n w = (throws (provider_exception "rejected" false), w)
