-- ===== src/Worker/Journey.antt =====
-- src/Worker.cpp and src/RabbitMQTopology.cpp: the way of a message whose provider stays down.
use distributed_notification.Base.{
  ℕ, zero, suc, ◌+◌, ◌≤◌, ◌<◌, ◌≡◌, refl, ◌∙◌, ap, subst, pos, gtb_ℤ, true, false, not, String,
  Option, none, some, [], ◌∷◌, ◌++◌, arith,
}
use distributed_notification.Enums.{Channel, processing}
use distributed_notification.Models.{Notification}
use distributed_notification.Config.{Config}
use distributed_notification.Platform.{Platform, IsCollation, IsJson}
use distributed_notification.Message.{Task, message}
use distributed_notification.Message.RoundTrip.{decode-message}
use distributed_notification.Provider.{Provider}
use distributed_notification.ProviderRouter.Down.{IsDown, send-FailsAside}
use distributed_notification.RabbitMqTopology.{main_queue, retry_queue, dlq, declare_all}
use distributed_notification.RabbitMqTopology.Ladder.{IsLadder}
use distributed_notification.RabbitMqTopology.Broker.{Broker, IsBroker, parked_expires}
use distributed_notification.Effects.{World, publish, ack, returns}
use distributed_notification.Database.Schema.{NotificationRow}
use distributed_notification.NotificationRepository.{
  find_row, row_to_notification, set_status, count_attempt, status_from_string,
}
use distributed_notification.NotificationRepository.Rows.{next_count, to_int-next_count}
use distributed_notification.NotificationRepository.Quiet.{IsQuiet}
use distributed_notification.Worker.{on_message, is_done}
use distributed_notification.Worker.Branches.{
  IsDue, marked, on_message-retries, on_message-dead_letters,
}

-- A row that is being processed reads as such.
reads-processing :
    (row : NotificationRow) (m : Notification)
    → row_to_notification row ≡ some m
    → row_to_notification (count_attempt (set_status "PROCESSING" row))
      ≡ some (record m { status = processing; attempt_count = next_count m.attempt_count })
unfolding row_to_notification status_from_string
reads-processing row m h = ground (arith, h, to_int-next_count row.attempt_count)

module _ (P : Platform) (laws : IsCollation P) (json : IsJson P) (B : Broker) (broker : IsBroker B)
    (n : ℕ) (providers : Channel → Provider P) (c : Channel) (config : Config) where
  -- From a message in the main queue and a world to the next: a worker handles the message, parks
  -- one message in a queue and acknowledges, and the parked one expires into the main queue.
  pub data Hop : P.Body → World P → P.Body → World P → Type 0 where
    hop :
        {body next : P.Body} {w v : World P} (tag : ℕ) (q : String) (priority : Option ℕ)
        → on_message P providers c config body tag w ≡ (returns tt, v)
        → v.commands ≡ (w.commands ++ publish "" q next true priority ∷ []) ++ ack tag ∷ []
        → B.DeadLetters (declare_all config) q (main_queue c)
        → Hop body w next v

  pub data Hops : ℕ → P.Body → World P → P.Body → World P → Type 0 where
    here : {body : P.Body} {w : World P} → Hops zero body w body w
    next :
        {k : ℕ} {body body' body'' : P.Body} {w w' w'' : World P}
        → Hop body w body' w'
        → Hops k body' w' body'' w''
        → Hops (suc k) body w body'' w''

  -- A stored notification that is not done, in a quiet world, with the provider of its channel down.
  pub record Waits (id : String) (priority : ℕ) (w : World P) (row : NotificationRow)
      (m : Notification) : Type 0 where
    pub quiet : IsQuiet n w
    pub found : find_row P id w.tables.notifications ≡ some row
    pub reads : row_to_notification row ≡ some m
    pub due : is_done m.status ≡ false
    pub down : IsDown (providers m.channel)
    pub byte : priority < 256

  abbrev pub task_at : String → ℕ → ℕ → Task
  task_at id priority k = record {
    notification_id = id;
    attempt_number = pos k;
    priority = priority;
  }

  ready_at :
      (id : String) (priority k : ℕ) (w : World P) (row : NotificationRow) (m : Notification)
      → k < 2147483648
      → Waits id priority w row m
      → IsDue P laws n providers c config
          (task_at id priority k)
          k
          (message P (task_at id priority k))
          w
          row
          m
  ready_at id priority k w row m int h = record {
    quiet = h.quiet;
    decoded = decode-message P json (task_at id priority k) int h.byte;
    number = refl;
    found = h.found;
    reads = h.reads;
    due = h.due;
  }

  one_round :
      (max : ℕ) (id : String) (priority i k : ℕ) (w : World P) (row : NotificationRow)
      (m : Notification)
      → IsLadder config max
      → suc i ≤ max
      → suc i + 1 ≡ k
      → Waits id priority w row m
      → (v : World P) × Hop
          (message P (task_at id priority (suc i)))
          w
          (message P (task_at id priority k))
          v
        × Waits id priority v
            (count_attempt (set_status "PROCESSING" row))
            (record m { status = processing; attempt_count = next_count m.attempt_count })
  one_round max id priority i k w row m ladder low e h =
      let task = task_at id priority (suc i) in
      let body = message P task in
      let (what, u, sends, aside) =
        send-FailsAside P providers m (marked P laws n providers c config task w) h.down in
      let again : gtb_ℤ (pos (suc i)) config.max_retries ≡ false =
        ap (gtb_ℤ (pos (suc i))) ladder.maximum ∙ ground arith in
      let (v, done, settled) =
        on_message-retries P laws n providers c config task (suc i) body w u row m 0 what
          (ready_at id priority (suc i) w row m (omega (arith, ladder.in_int)) h) again
          (omega (arith, low, ladder.in_int)) sends aside in
      (
        v,
        subst (λ (k : ℕ). Hop body w (message P (task_at id priority k)) v) e
            (hop 0 (retry_queue c (pos (suc i))) (some priority) done settled.commands
              (parked_expires B broker config c i (omega (arith, ladder.rungs)))),
        record {
          quiet = settled.quiet;
          found = settled.row_found;
          reads = reads-processing row m h.reads;
          due = refl;
          down = h.down;
          byte = h.byte;
        },
      )

  -- The end of the way: a worker handles the last message by dead-lettering it.
  pub record IsBuried (id : String) (priority last attempts tag : ℕ) (v : World P) : Type 0 where
    pub after : World P
    pub row : NotificationRow
    pub handled :
        on_message P providers c config (message P (task_at id priority last)) tag v
        ≡ (returns tt, after)
    pub told :
        after.commands
        ≡ (v.commands ++ publish "" (dlq c) (message P (task_at id priority last)) true none ∷ [])
          ++ ack tag ∷ []
    pub found : find_row P id after.tables.notifications ≡ some row
    pub status : row.status ≡ "DEAD_LETTERED"
    pub attempts_made : row.attempt_count ≡ attempts

  buried :
      (max : ℕ) (id : String) (priority tag : ℕ) (w : World P) (row : NotificationRow)
      (m : Notification)
      → IsLadder config max
      → Waits id priority w row m
      → IsBuried id priority (suc max) (row.attempt_count + 1) tag w
  buried max id priority tag w row m ladder h =
      let task = task_at id priority (suc max) in
      let body = message P task in
      let (what, u, sends, aside) =
        send-FailsAside P providers m (marked P laws n providers c config task w) h.down in
      let over : gtb_ℤ (pos (suc max)) config.max_retries ≡ true =
        ap (gtb_ℤ (pos (suc max))) ladder.maximum ∙ ground arith in
      let (v, done, settled) =
        on_message-dead_letters P laws n providers c config task (suc max) body w u row m tag what
          true (ready_at id priority (suc max) w row m (omega (arith, ladder.in_int)) h)
          (ap not over) sends aside in
      record {
        after = v;
        row = set_status "DEAD_LETTERED" (count_attempt (set_status "PROCESSING" row));
        handled = done;
        told = settled.commands;
        found = settled.row_found;
        status = refl;
        attempts_made = refl;
      }

  climbs :
      (max : ℕ) (id : String) (priority tag i j : ℕ) (w : World P) (row : NotificationRow)
      (m : Notification)
      → IsLadder config max
      → suc i + j ≡ suc max
      → Waits id priority w row m
      → (v : World P) × Hops j
          (message P (task_at id priority (suc i)))
          w
          (message P (task_at id priority (suc max)))
          v
        × IsBuried id priority (suc max) (row.attempt_count + suc j) tag v
  climbs max id priority tag i zero w row m ladder e h =
      let same : suc i ≡ suc max = omega arith in
      let one : row.attempt_count + 1 ≡ row.attempt_count + suc zero = omega arith in
      (
        w,
        subst
            (λ (k : ℕ).
              Hops zero (message P (task_at id priority (suc i))) w
                (message P (task_at id priority k)) w)
            same here,
        subst (λ (a : ℕ). IsBuried id priority (suc max) a tag w) one
            (buried max id priority tag w row m ladder h),
      )
  climbs max id priority tag i (suc j) w row m ladder e h =
      let (v, first, waits) =
        one_round max id priority i (suc (suc i)) w row m ladder (omega arith) (omega arith) h in
      let (z, rest, end) =
        climbs max id priority tag (suc i) j v (count_attempt (set_status "PROCESSING" row))
          (record m { status = processing; attempt_count = next_count m.attempt_count }) ladder
          (omega arith) waits in
      let sum : row.attempt_count + 1 + suc j ≡ row.attempt_count + suc (suc j) = omega arith in
      (z, next first rest, subst (λ (a : ℕ). IsBuried id priority (suc max) a tag z) sum end)

  -- The first message of a stored notification which is not done, with the provider of its channel
  -- down, a rung for each retry, a quiet world and a broker as documented: the message comes back to
  -- the main queue exactly max times, by way of the retry queues, and the next worker dead-letters
  -- it: the row is then DEAD_LETTERED and counts max + 1 attempts more.
  pub down_dead_letters :
      (max : ℕ) (id : String) (priority tag : ℕ) (w : World P) (row : NotificationRow)
      (m : Notification)
      → IsLadder config max
      → Waits id priority w row m
      → (v : World P) × Hops max
          (message P (task_at id priority 1))
          w
          (message P (task_at id priority (suc max)))
          v
        × IsBuried id priority (suc max) (row.attempt_count + suc max) tag v
  down_dead_letters max id priority tag w row m ladder h =
      climbs max id priority tag 0 max w row m ladder (omega arith) h
