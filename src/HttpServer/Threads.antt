-- ===== src/HttpServer/Threads.antt =====
-- src/HttpServer.cpp: the acceptor and the threads of the server. What a thread does is `accept_loop`.
use distributed_notification.Base.{
  ℕ, suc, Bool, true, false, not, ◌&&◌, ◌||◌, Option, none, some, List, [], ◌∷◌, ◌++◌, replicate,
  if◌then◌else◌,
}
use distributed_notification.Config.{Config}
use distributed_notification.WorkerPool.{rounds}

-- `threads_` has, of each thread, whether it is joinable.
pub record Server : Type 0 where
  pub accepting : Bool
  pub stopped : Bool
  pub threads : List Bool

abbrev pub new_server : Server
new_server = record { accepting = true; stopped = false; threads = [] }

unfoldable pub start_server : Config → Server → Server
start_server config s = record s {
  threads = s.threads ++ replicate (rounds config.http_threads) true;
}

-- `if (t.joinable()) t.join();` for each thread. A join returns when the accept loop does: the next
-- accept after the close ends it with operation_aborted, or fails otherwise and it goes on for ever.
-- `returning` says so of each thread.
abbrev pub join_all : (ℕ → Bool) → List Bool → Bool
join_all returning [] = true
join_all returning (joinable ∷ ts) =
    (not joinable || returning 0) && join_all (λ i. returning (suc i)) ts

-- `none` is a wait for ever. No thread is joinable where `threads_.clear()` destroys them.
unfoldable pub stop_server : (ℕ → Bool) → Server → Option Server
stop_server returning s =
    if join_all returning s.threads
    then some (record s { accepting = false; stopped = true; threads = [] })
    else none
