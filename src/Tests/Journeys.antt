-- ===== src/Tests/Journeys.antt =====
-- Ways of messages, the ladder of queues, the tables and the UUIDs at concrete inputs.
use distributed_notification.Base.{
  ◌+◌, ◌≡◌, refl, ℕ, pos, true, false, some, none, ◌<◌, [], ◌∷◌, ◌++◌, arith,
}
use distributed_notification.Enums.{Channel, sms, channel_from_string, priority_from_string}
use distributed_notification.Config.{default}
use distributed_notification.Models.{DeliveryAttempt}
use distributed_notification.Message.{Task, message}
use distributed_notification.Message.RoundTrip.{decode-message}
use distributed_notification.Effects.{World, publish, ack, returns, throws, provider_exception}
use distributed_notification.Database.Schema.{NotificationRow, Tables, empty}
use distributed_notification.NotificationRepository.{
  find_row, new_row, row_to_notification, set_status, count_attempt, status_from_string,
  update_table,
}
use distributed_notification.NotificationRepository.Atomic.{with_both}
use distributed_notification.NotificationRepository.Quiet.{IsQuiet}
use distributed_notification.DeliveryAttemptRepository.{upsert, new_attempt}
use distributed_notification.DeliveryAttemptRepository.Upsert.{IsRecorded, upsert-IsRecorded}
use distributed_notification.Database.{reply}
use distributed_notification.Provider.{Provider}
use distributed_notification.ProviderRouter.{send}
use distributed_notification.ProviderRouter.Down.{IsDown}
use distributed_notification.CircuitBreaker.{allow_request, on_success, on_failure}
use distributed_notification.RabbitMqTopology.{retry_queue, dlq}
use distributed_notification.RabbitMqTopology.Ladder.{IsLadder}
use distributed_notification.IdGenerator.{uuid4_chars}
use distributed_notification.IdGenerator.Shape.{FitsAll, pattern_v4, uuid4_chars-FitsAll}
use distributed_notification.Worker.{on_message}
use distributed_notification.Worker.Branches.{
  IsDue, IsSettled, marked, on_message-retries, on_message-dead_letters, on_message-delivers,
}
use distributed_notification.Worker.Journey.{Hops, Waits, IsBuried, down_dead_letters}
use distributed_notification.Worker.Quiet.{failed_attempt, sent_attempt}
use distributed_notification.Worker.Redelivery.{delivered_once}
use distributed_notification.Worker.Overlap.{overlap, delivered_row, delivered_twice}
use distributed_notification.Effects.Calm.{IsAside}
use distributed_notification.Tests.Brokers.{simple, simple-IsBroker}
use distributed_notification.Tests.Toy.{toy, toy-IsJson, toy-IsUniform, toy-IsCollation}
use distributed_notification.Tests.Worlds.{
  saved, submitted, all_closed, closed_breaker, accepts, times_out, rejects,
}

times_out-IsDown : (c : Channel) → IsDown (times_out c)
times_out-IsDown c m w = (
  "timed out",
  w,
  refl,
  record { tables = refl; outcomes = refl; available = refl; commands = refl },
)

abbrev row : NotificationRow
row = new_row saved 7

reads : row_to_notification row ≡ some saved
unfolding row_to_notification status_from_string channel_from_string priority_from_string
reads = refl

submitted-IsQuiet : IsQuiet 1 submitted
submitted-IsQuiet = record { idle = refl; accepting = refl }

submitted_row : find_row toy "n-1" submitted.tables.notifications ≡ some row
unfolding find_row
submitted_row = refl

waiting :
    Waits toy toy-IsCollation toy-IsJson simple simple-IsBroker 1 times_out sms default "n-1" 3
      submitted row saved
waiting = record {
  quiet = submitted-IsQuiet;
  found = submitted_row;
  reads = reads;
  due = refl;
  down = times_out-IsDown sms;
  byte = omega arith;
}

default-IsLadder : IsLadder default 3
default-IsLadder = record { maximum = refl; rungs = omega arith; in_int = omega arith }

abbrev numbered : ℕ → toy.Body
numbered k = message toy (record { notification_id = "n-1"; attempt_number = pos k; priority = 3 })

down_dead_letters_example :
    (v : World toy) × Hops toy toy-IsCollation toy-IsJson simple simple-IsBroker 1 times_out sms
      default 3
      (numbered 1)
      submitted
      (numbered 4)
      v
    × IsBuried toy toy-IsCollation toy-IsJson simple simple-IsBroker 1 times_out sms default "n-1" 3
        4 4 11 v
down_dead_letters_example =
    down_dead_letters toy toy-IsCollation toy-IsJson simple simple-IsBroker 1 times_out sms default
      3 "n-1" 3 11 submitted row saved default-IsLadder waiting

abbrev task : ℕ → Task
task k = record { notification_id = "n-1"; attempt_number = pos k; priority = 3 }

due :
    (k : ℕ) (providers : Channel → Provider toy)
    → k < 2147483648
    → IsDue toy toy-IsCollation 1 providers sms default (task k) k (numbered k) submitted row saved
due k providers int = record {
  quiet = submitted-IsQuiet;
  decoded = decode-message toy toy-IsJson (task k) int (omega arith);
  number = refl;
  found = submitted_row;
  reads = reads;
  due = refl;
}

-- Before the provider is called.
abbrev before : (Channel → Provider toy) → World toy
before providers = marked toy toy-IsCollation 1 providers sms default (task 1) submitted

abbrev failed_once : World toy
failed_once = record (before times_out) {
  breakers = record all_closed { sms = record closed_breaker { failure_count = 1 } };
}

times_out-sends :
    send toy times_out saved (before times_out)
    ≡ (throws (provider_exception "timed out" true), failed_once)
unfolding send allow_request on_failure
times_out-sends = refl

on_message-retries_example :
    (v : World toy) × (on_message toy times_out sms default (numbered 1) 11 submitted
      ≡ (returns tt, v))
    × IsSettled toy toy-IsCollation 1 times_out sms default
        (task 1)
        1
        (([] ++ publish "" (retry_queue sms (pos 1)) (numbered 2) true (some 3) ∷ [])
          ++ ack 11 ∷ [])
        (count_attempt (set_status "PROCESSING" row))
        (failed_attempt toy toy-IsCollation 1 times_out sms default (task 1) true "timed out")
        v
on_message-retries_example =
    on_message-retries toy toy-IsCollation 1 times_out sms default (task 1) 1 (numbered 1) submitted
      failed_once row saved 11 "timed out" (due 1 times_out (omega arith)) refl (omega arith)
      times_out-sends (record { tables = refl; outcomes = refl; available = refl; commands = refl })

rejects-sends :
    send toy rejects saved (before rejects)
    ≡ (throws (provider_exception "rejected" false), before rejects)
unfolding send allow_request
rejects-sends = refl

on_message-dead_letters_example :
    (v : World toy) × (on_message toy rejects sms default (numbered 1) 11 submitted
      ≡ (returns tt, v))
    × IsSettled toy toy-IsCollation 1 rejects sms default
        (task 1)
        1
        (([] ++ publish "" (dlq sms) (numbered 1) true none ∷ []) ++ ack 11 ∷ [])
        (set_status "DEAD_LETTERED" (count_attempt (set_status "PROCESSING" row)))
        (failed_attempt toy toy-IsCollation 1 rejects sms default (task 1) false "rejected")
        v
on_message-dead_letters_example =
    on_message-dead_letters toy toy-IsCollation 1 rejects sms default (task 1) 1 (numbered 1)
      submitted (before rejects) row saved 11 "rejected" false (due 1 rejects (omega arith)) refl
      rejects-sends (record { tables = refl; outcomes = refl; available = refl; commands = refl })

accepts-sends : send toy accepts saved (before accepts) ≡ (returns "ref", before accepts)
unfolding send allow_request on_success
accepts-sends = refl

on_message-delivers_example :
    (v : World toy) × (on_message toy accepts sms default (numbered 1) 11 submitted
      ≡ (returns tt, v))
    × IsSettled toy toy-IsCollation 1 accepts sms default
        (task 1)
        1
        ([] ++ ack 11 ∷ [])
        (count_attempt (set_status "SENT" (set_status "PROCESSING" row)))
        (sent_attempt toy toy-IsCollation 1 accepts sms default (task 1) "ref")
        v
on_message-delivers_example =
    on_message-delivers toy toy-IsCollation 1 accepts sms default (task 1) 1 (numbered 1) submitted
      (before accepts) row saved 11 "ref" (due 1 accepts (omega arith)) accepts-sends
      (record { tables = refl; outcomes = refl; available = refl; commands = refl })

abbrev attempt : DeliveryAttempt
attempt = failed_attempt toy toy-IsCollation 1 times_out sms default (task 1) true "timed out"

upsert-IsRecorded_example :
    (t' : Tables) × (upsert toy attempt 1 submitted.tables ≡ reply tt t')
    × IsRecorded toy attempt 1 submitted.tables t'
upsert-IsRecorded_example =
    upsert-IsRecorded toy toy-IsCollation attempt 1 submitted.tables row submitted_row

uuid4_chars-FitsAll_example : FitsAll (uuid4_chars toy 5).0 pattern_v4
uuid4_chars-FitsAll_example = uuid4_chars-FitsAll toy toy-IsUniform 5

delivered_once_example :
    (v : World toy) × (on_message toy accepts sms default (numbered 1) 11 submitted
      ≡ (returns tt, v))
    × (on_message toy accepts sms default (numbered 1) 12 v
        ≡ (returns tt, record v { commands = v.commands ++ ack 12 ∷ [] }))
delivered_once_example =
    delivered_once toy toy-IsCollation 1 accepts sms default (task 1) 1 (numbered 1) submitted
      (before accepts) row saved 11 12 "ref" (due 1 accepts (omega arith)) accepts-sends
      (record { tables = refl; outcomes = refl; available = refl; commands = refl })

-- The breaker of the channel is closed, and the provider takes the notification whenever it is.
takes_again :
    (x : World toy)
    → x.breakers ≡ all_closed
    → (y : World toy) × (send toy accepts saved x ≡ (returns "ref", y)) × IsAside x y
unfolding send allow_request on_success
takes_again x e = (
  record x { breakers = all_closed },
  ground (arith, e),
  record { tables = refl; outcomes = refl; available = refl; commands = refl },
)

delivered_twice_example :
    (v : World toy) × (overlap toy toy-IsCollation 1 accepts sms default
        (task 1)
        (numbered 1)
        11
        (task 1)
        (numbered 1)
        12
        submitted
      ≡ (returns tt, v))
    × IsSettled toy toy-IsCollation 1 accepts sms default
        (task 1)
        1
        (([] ++ ack 11 ∷ []) ++ ack 12 ∷ [])
        (delivered_row toy toy-IsCollation 1 accepts sms default
          (delivered_row toy toy-IsCollation 1 accepts sms default row))
        (sent_attempt toy toy-IsCollation 1 accepts sms default (task 1) "ref")
        v
delivered_twice_example =
    delivered_twice toy toy-IsCollation 1 accepts sms default (task 1) (task 1) 1 1 (numbered 1)
      (numbered 1) submitted (before accepts) row saved 11 12 "ref" "ref"
      (due 1 accepts (omega arith)) (due 1 accepts (omega arith)) refl accepts-sends
      (record { tables = refl; outcomes = refl; available = refl; commands = refl }) takes_again

-- The statements of a submission and of a delivery that is counted before its attempt is recorded.
abbrev stored : Tables
stored = with_both saved 7 empty

abbrev counted : Tables
counted = update_table toy count_attempt "n-1" stored

abbrev noted : Tables
noted = record counted {
  attempts = new_attempt attempt 1 counted.next_attempt_id ∷ [];
  next_attempt_id = counted.next_attempt_id + 1;
}
