-- ===== src/WorkerPool/Lifecycle.antt =====
-- src/Worker.cpp: starting and stopping the workers.
use distributed_notification.Base.{
  ℕ, zero, suc, ◌+◌, ◌*◌, ◌≡◌, refl, ap, String, str_eq, eq_iff, not, ◌&&◌, ◌||◌, if◌then◌else◌,
  Bool, true, false, some, List, [], ◌∷◌, ◌++◌, map, replicate, All, All-append, arith,
}
use distributed_notification.Enums.{Channel, email, sms, push}
use distributed_notification.Config.{Config}
use distributed_notification.RabbitMqTopology.{main_queue}
use distributed_notification.WorkerPool.{
  Setup, connect, set_qos, consume, build_amqp_address, WorkerThread, new_worker, run_setup,
  start_worker, stop_worker, destroy_worker, rounds, new_workers, start_all, stop_all,
}

-- The worker after its start.
abbrev pub started : Config → WorkerThread → WorkerThread
started config t = record t {
  running = true;
  joinable = true;
  told = t.told ++ run_setup config t.channel;
}

abbrev HasNoThread : WorkerThread → Type 0
HasNoThread t = t.joinable ≡ false

fresh-start_all :
    (config : Config) (ts : List WorkerThread)
    → All HasNoThread ts
    → start_all config ts ≡ some (map (started config) ts)
unfolding start_all start_worker
fresh-start_all config [] h = refl
fresh-start_all config (t ∷ ts) h = rw (h.0, fresh-start_all config ts h.1)

fresh-replicate : (n : ℕ) (c : Channel) → All HasNoThread (replicate n (new_worker c))
fresh-replicate zero c = tt
fresh-replicate (suc n) c = (refl, fresh-replicate n c)

new_workers-HasNoThread : (config : Config) → All HasNoThread (new_workers config)
unfolding new_workers
new_workers-HasNoThread config =
    let n = rounds config.workers_per_channel in
    All-append HasNoThread (replicate n (new_worker email)) _ (fresh-replicate n email) (
      All-append HasNoThread (replicate n (new_worker sms)) (replicate n (new_worker push))
        (fresh-replicate n sms) (fresh-replicate n push))

abbrev is_for : Channel → Channel → ℕ
is_for email email = 1
is_for sms sms = 1
is_for push push = 1
is_for _ _ = 0

-- The connection has been told to consume a queue.
abbrev consumes : String → List Setup → Bool
consumes q [] = false
consumes q (connect address ∷ told) = consumes q told
consumes q (set_qos n ∷ told) = consumes q told
consumes q (consume p ∷ told) = str_eq p q || consumes q told

-- It has been made, to the broker of the settings, and then told so.
abbrev attends : Config → String → List Setup → Bool
attends config q [] = false
attends config q (connect address ∷ told) =
    str_eq address (build_amqp_address config) && consumes q told
attends config q (set_qos n ∷ told) = false
attends config q (consume p ∷ told) = false

-- How many workers of a list are for a channel, run, have connected to the broker and asked for the
-- main queue of the channel, and can still read it.
abbrev pub working : Config → Channel → List WorkerThread → ℕ
working config c [] = 0
working config c (t ∷ ts) =
    (if t.running && (not t.stopped && attends config (main_queue t.channel) t.told)
      then is_for c t.channel
      else 0)
    + working config c ts

attends-run_setup :
    (config : Config) (c : Channel) → attends config (main_queue c) (run_setup config c) ≡ true
attends-run_setup config c =
    rw
      (
        (eq_iff (build_amqp_address config) (build_amqp_address config)).1 refl,
        (eq_iff (main_queue c) (main_queue c)).1 refl,
      )
      refl

working-append :
    (config : Config) (c : Channel) (xs ys : List WorkerThread)
    → working config c (xs ++ ys) ≡ working config c xs + working config c ys
working-append config c [] ys = omega arith
working-append config c (x ∷ xs) ys = omega (arith, working-append config c xs ys)

map-append :
    (config : Config) (xs ys : List WorkerThread)
    → map (started config) (xs ++ ys) ≡ map (started config) xs ++ map (started config) ys
map-append config [] ys = refl
map-append config (x ∷ xs) ys = ap (λ zs. started config x ∷ zs) (map-append config xs ys)

working-replicate :
    (c d : Channel) (config : Config) (n : ℕ)
    → working config c (map (started config) (replicate n (new_worker d))) ≡ n * is_for c d
working-replicate c d config zero = omega arith
working-replicate c d config (suc n) =
    let h = working-replicate c d config n in rw (attends-run_setup config d) (grind (arith, h))

one_channel :
    (c : Channel) (n : ℕ) → n * is_for c email + (n * is_for c sms + n * is_for c push) ≡ n
one_channel email n = omega arith
one_channel sms n = omega arith
one_channel push n = omega arith

working-started :
    (c : Channel) (config : Config)
    → working config c (map (started config) (new_workers config))
      ≡ rounds config.workers_per_channel
unfolding new_workers
working-started c config =
    let n = rounds config.workers_per_channel in
    let es = replicate n (new_worker email) in
    let ss = replicate n (new_worker sms) in
    let ps = replicate n (new_worker push) in
    rw (
      map-append config es (ss ++ ps),
      map-append config ss ps,
      working-append config c (map (started config) es)
          (map (started config) ss ++ map (started config) ps),
      working-append config c (map (started config) ss) (map (started config) ps),
      working-replicate c email config n,
      working-replicate c sms config n,
      working-replicate c push config n,
      one_channel c n,
    )

-- Nobody runs, nothing is joinable.
abbrev IsAtRest : WorkerThread → Type 0
IsAtRest t = (t.running ≡ false) × (t.joinable ≡ false)

abbrev pub AllStopped : List WorkerThread → Type 0
AllStopped = All IsAtRest

started-AllStopped :
    (config : Config) (ts : List WorkerThread) → AllStopped (stop_all (map (started config) ts))
unfolding stop_worker
started-AllStopped config [] = tt
started-AllStopped config (t ∷ ts) = ((refl, refl), started-AllStopped config ts)

idle-stop_worker : (t : WorkerThread) → IsAtRest t → stop_worker t ≡ t
unfolding stop_worker
idle-stop_worker t h = rw h.0

idle-destroy_worker : (t : WorkerThread) → IsAtRest t → destroy_worker t ≡ some t
unfolding destroy_worker
idle-destroy_worker t h = rw (h.0, h.1)

idle-stop_all : (ts : List WorkerThread) → AllStopped ts → stop_all ts ≡ ts
idle-stop_all [] h = refl
idle-stop_all (t ∷ ts) h = rw (idle-stop_worker t h.0, idle-stop_all ts h.1)

idle-destroy_workers :
    (ts : List WorkerThread) → AllStopped ts → All (λ t. destroy_worker t ≡ some t) ts
idle-destroy_workers [] h = tt
idle-destroy_workers (t ∷ ts) h = (idle-destroy_worker t h.0, idle-destroy_workers ts h.1)

idle-HasNoThread : (ts : List WorkerThread) → AllStopped ts → All HasNoThread ts
idle-HasNoThread [] h = tt
idle-HasNoThread (t ∷ ts) h = (h.0.1, idle-HasNoThread ts h.1)

-- Started again, a worker whose io_context is stopped reads nothing.
restarted-working :
    (c : Channel) (config : Config) (ts : List WorkerThread)
    → working config c (map (started config) (stop_all (map (started config) ts))) ≡ 0
unfolding stop_worker
restarted-working c config [] = refl
restarted-working c config (t ∷ ts) = omega (arith, restarted-working c config ts)

-- A new pool starts without an error, with exactly `workers_per_channel` workers at work for each
-- channel, none if that is negative: they run, and have connected to the broker of the settings and
-- asked for the main queue of the channel. After a stop no worker runs or has a thread to join, so that
-- each can be destroyed, and a second stop changes nothing. A second start succeeds too, but leaves
-- no worker at work for any channel.
pub start_all-stop_all :
    (config : Config)
    → (ts : List WorkerThread) × ((start_all config (new_workers config) ≡ some ts)
        × ((c : Channel) → working config c ts ≡ rounds config.workers_per_channel)
        × AllStopped (stop_all ts)
        × All (λ t. destroy_worker t ≡ some t) (stop_all ts)
        × (stop_all (stop_all ts) ≡ stop_all ts)
        × ((us : List WorkerThread) × ((start_all config (stop_all ts) ≡ some us)
              × ((c : Channel) → working config c us ≡ 0))))
start_all-stop_all config =
    let ts = map (started config) (new_workers config) in
    let idle = started-AllStopped config (new_workers config) in
    (
      ts,
      (
        fresh-start_all config (new_workers config) (new_workers-HasNoThread config),
        (λ c. working-started c config),
        idle,
        idle-destroy_workers (stop_all ts) idle,
        idle-stop_all (stop_all ts) idle,
        (
          map (started config) (stop_all ts),
          (
            fresh-start_all config (stop_all ts) (idle-HasNoThread (stop_all ts) idle),
            (λ c. restarted-working c config (new_workers config)),
          ),
        ),
      ),
    )
