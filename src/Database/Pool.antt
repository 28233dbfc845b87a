-- ===== src/Database/Pool.antt =====
-- src/Database.cpp, ConnectionPool: its queue of sessions, shared by threads. A mutex guards the
-- queue, so the taking and the giving back of a session are one step each, and a thread that finds
-- the queue empty has no step: it waits.
pub mod Sharing
pub mod Waiting
pub mod Finishing
use distributed_notification.Base.{ℕ, zero, suc, ◌+◌, Option, none, some, List, [], ◌∷◌, ◌++◌}

-- `acquire`, and the destructor of a `PooledSession`.
pub data Use : Type 0 where
  take give : Use

-- The calls of a thread that are still to come, and the sessions it holds, the last taken first;
-- `nesting` is the most that it holds while it asks for another.
pub record Thread : Type 0 where
  pub nesting : ℕ
  pub todo : List Use
  pub held : List ℕ

-- `available_` is a FIFO queue, its front first.
pub record Pool : Type 0 where
  pub threads : List Thread
  pub available : List ℕ

-- A method of a repository takes one session; insertWithOutbox asks for another while it has it.
abbrev pub method_uses : List Use
method_uses = take ∷ give ∷ []

abbrev pub submission_uses : List Use
submission_uses = take ∷ take ∷ give ∷ give ∷ []

-- A step of a thread: the thread and the queue after it.
unfoldable pub advance : ℕ → List Use → List ℕ → List ℕ → Option (Thread × List ℕ)
advance k [] held available = none
advance k (take ∷ todo) held [] = none
advance k (take ∷ todo) held (s ∷ available) =
    some (record { nesting = k; todo = todo; held = s ∷ held }, available)
advance k (give ∷ todo) [] available = none
advance k (give ∷ todo) (s ∷ held) available =
    some (record { nesting = k; todo = todo; held = held }, available ++ s ∷ [])

abbrev pub in_front : List Thread → Option (Thread × List ℕ) → Option Pool
in_front ts none = none
in_front ts (some (t, available)) = some (record { threads = t ∷ ts; available = available })

abbrev pub behind : Thread → Option Pool → Option Pool
behind t none = none
behind t (some p) = some (record p { threads = t ∷ p.threads })

-- A step of the i-th thread.
unfoldable pub step : ℕ → List Thread → List ℕ → Option Pool
step i [] available = none
step zero (t ∷ ts) available = in_front ts (advance t.nesting t.todo t.held available)
step (suc i) (t ∷ ts) available = behind t (step i ts available)
