-- ===== src/Tests/Pools.antt =====
-- Pools of sessions at concrete inputs.
use distributed_notification.Base.{
  ℕ, ◌+◌, ◌*◌, ◌≡◌, refl, none, List, [], ◌∷◌, map, length, drop, arith,
}
use distributed_notification.Database.Pool.{
  Thread, Pool, method_uses, submission_uses, advance, step,
}
use distributed_notification.Database.Pool.Sharing.{
  Run, stop, go, carried, weight, occurs, pending, AllBalanced, sessions_stay,
}
use distributed_notification.Database.Pool.Finishing.{IsFinished, schedules_finish}
use distributed_notification.Database.Pool.Waiting.{submissions_lock, before, between, pool_of}

abbrev http_thread : Thread
http_thread = record { nesting = 1; todo = submission_uses; held = [] }

abbrev worker : Thread
worker = record { nesting = 0; todo = method_uses; held = [] }

abbrev morning : Pool
morning = pool_of (http_thread ∷ worker ∷ []) (5 ∷ 6 ∷ [])

abbrev later : Pool
later =
    pool_of (record http_thread { todo = drop 2 submission_uses; held = 6 ∷ 5 ∷ [] } ∷ worker ∷ [])
      []

two_steps : Run 2 morning later
unfolding step advance
two_steps = go 0 refl (go 0 refl stop)

sessions_stay_example :
    carried (occurs 6) later.threads + weight (occurs 6) later.available
    ≡ carried (occurs 6) morning.threads + weight (occurs 6) morning.available
sessions_stay_example = sessions_stay 2 morning later 6 two_steps

morning-AllBalanced : AllBalanced morning.threads
morning-AllBalanced = ((omega arith, (omega arith, refl)), ((omega arith, refl), tt))

submissions_lock_example :
    let ss : List ℕ = 5 ∷ 6 ∷ [] in
    Run (length ss) (pool_of (map before ss) ss) (pool_of (map between ss) [])
    × ((i : ℕ) → step i (map between ss) [] ≡ none)
    × (pending (map between ss) ≡ 3 * length ss)
submissions_lock_example = submissions_lock (5 ∷ 6 ∷ [])

schedules_finish_example :
    (2 + pending later.threads ≡ pending morning.threads)
    × ((r : Pool) × (Run (pending later.threads) later r × IsFinished 2 r))
schedules_finish_example =
    schedules_finish 2 morning later two_steps morning-AllBalanced (omega arith) (omega arith)

-- A submission with one session in the queue: it waits for its second.
