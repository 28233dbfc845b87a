-- ===== src/HttpServer/Accepting.antt =====
-- src/HttpServer.cpp, HttpServer::acceptLoop: what a thread of the server does with one connection
-- after another.
pub mod Answering
use distributed_notification.Base.{ℕ, String, List, [], ◌∷◌}
use distributed_notification.Platform.{Platform}
use distributed_notification.Effects.{World, Exception, Outcome, returns, throws, blocked}
use distributed_notification.HttpServer.{Request, Response, handle_connection}

-- What `accept` and `http::read` give: an accept error, with operation_aborted apart, a connection
-- that cannot be read, or a request, with the world that its handler meets, since other threads act
-- meanwhile.
pub data Accepted (P : Platform) : Type 0 where
  aborted : Accepted P
  accept_error : String → Accepted P
  unreadable : Accepted P
  request : World P → Request P.Body → Accepted P

-- Where the loop has come to after some connections: it waits in `accept` or has returned; an
-- exception that leaves it ends the process, and a handler that waits for ever keeps it.
pub data Ending : Type 0 where
  waits returned held_up : Ending
  escaped : Exception → Ending

pub record Loop (P : Platform) : Type 0 where
  pub answers : List (Response P.Body × World P)
  pub ending : Ending

module _ (P : Platform) where
  -- A handler's end, and the rest of the loop.
  abbrev pub answered : Outcome (Response P.Body) → World P → Loop P → Loop P
  answered (returns r) v rest = record rest { answers = (r, v) ∷ rest.answers }
  answered (throws e) v rest = record { answers = []; ending = escaped e }
  answered blocked v rest = record { answers = []; ending = held_up }

  unfoldable pub accept_loop : List (Accepted P) → Loop P
  accept_loop [] = record { answers = []; ending = waits }
  accept_loop (aborted ∷ es) = record { answers = []; ending = returned }
  accept_loop (accept_error e ∷ es) = accept_loop es
  accept_loop (unreadable ∷ es) = accept_loop es
  accept_loop (request w req ∷ es) =
      let (r, v) = handle_connection P req w in answered r v (accept_loop es)
