-- ===== src/CircuitBreaker.antt =====
-- include/notification/CircuitBreaker.hpp. The mutex makes each method one step; the steady clock
-- is an argument, in nanoseconds. A method returns the new state beside its result.
pub mod Runs
pub mod Invariant
pub mod Tripping
pub mod Probes
use distributed_notification.Base.{
  ℕ, ◌+◌, ◌-◌, ◌*◌, ℤ, pos, negsuc, at_least, Bool, true, false, leb, if◌then◌else◌,
}

pub data State : Type 0 where
  closed opened half_open : State

pub record CircuitBreaker : Type 0 where
  pub state : State
  pub failure_threshold : ℤ
  pub open_duration : ℤ  -- milliseconds
  pub failure_count : ℕ
  pub probe_in_flight : Bool
  pub opened_at : ℕ

-- The constructor.
unfoldable pub new : ℤ → ℤ → CircuitBreaker
new failure_threshold open_duration = record {
  state = closed;
  failure_threshold = failure_threshold;
  open_duration = open_duration;
  failure_count = 0;
  probe_in_flight = false;
  opened_at = 0;
}

-- elapsed >= milliseconds(d), at nanosecond precision
abbrev pub elapsed_at_least : ℕ → ℤ → Bool
elapsed_at_least ns (pos ms) = leb (ms * 1000000) ns
elapsed_at_least ns (negsuc ms) = true

unfoldable pub trip : CircuitBreaker → ℕ → CircuitBreaker
trip b now = record b { state = opened; opened_at = now; failure_count = 0 }

allow_in : State → CircuitBreaker → ℕ → CircuitBreaker × Bool
allow_in closed b now = (b, true)
allow_in opened b now =
    if elapsed_at_least (now - b.opened_at) b.open_duration
    then (record b { state = half_open }, true)
    else (b, false)
allow_in half_open b now =
    if b.probe_in_flight then (b, false) else (record b { probe_in_flight = true }, true)

unfoldable pub allow_request : CircuitBreaker → ℕ → CircuitBreaker × Bool
unfolding allow_in
allow_request b now = allow_in b.state b now

unfoldable pub on_success : CircuitBreaker → CircuitBreaker
on_success b = record b { failure_count = 0; probe_in_flight = false; state = closed }

count_failure : CircuitBreaker → ℕ → CircuitBreaker
unfolding trip
count_failure b now =
    let counted = record b { failure_count = b.failure_count + 1 } in
    if at_least counted.failure_count counted.failure_threshold then trip counted now else counted

fail_in : State → CircuitBreaker → ℕ → CircuitBreaker
unfolding trip count_failure
fail_in half_open b now = trip b now
fail_in closed b now = count_failure b now
fail_in opened b now = count_failure b now

unfoldable pub on_failure : CircuitBreaker → ℕ → CircuitBreaker
unfolding fail_in
on_failure b now = fail_in b.state (record b { probe_in_flight = false }) now

is_opened : State → Bool
is_opened closed = false
is_opened opened = true
is_opened half_open = false

unfoldable pub is_open : CircuitBreaker → Bool
unfolding is_opened
is_open b = is_opened b.state
