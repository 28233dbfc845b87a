-- ===== src/Database.antt =====
-- sql/schema.sql and src/Database.cpp: the tables, statements sent through a session, and the
-- sessions of the pool.
pub mod Schema
pub mod Calm
pub mod Ensures
pub mod Plain
pub mod Laws
pub mod Pool
pub mod Opening
use distributed_notification.Base.{ℕ, zero, suc, String, Option, none, some, List, [], ◌∷◌}
use distributed_notification.Platform.{Platform}
use distributed_notification.Effects.{
  World, M, Outcome, returns, throws, blocked, continue, pure, database_error,
}
use Schema.{Tables}

-- The server's answer to a statement: a result and the new tables, or an error.
pub data Reply (A : Type 0) : Type 0 where
  reply : A → Tables → Reply A
  refuse : String → Reply A

module _ {P : Platform} where
  -- `ConnectionPool::acquire`; with no session left it waits.
  abbrev pub take_session : ℕ → M P (Unit {0})
  take_session zero w = (blocked, w)
  take_session (suc n) w = (returns tt, record w { available = n })

  unfoldable pub acquire : M P (Unit {0})
  acquire w = take_session w.available w

  -- `ConnectionPool::release`
  unfoldable pub release : World P → World P
  release w = record w { available = suc w.available }

module _ {P : Platform} {A : Type 0} where
  -- The destructor of `PooledSession` runs on return and on unwinding.
  abbrev pub give_back : Outcome A × World P → Outcome A × World P
  give_back (returns a, w) = (returns a, release w)
  give_back (throws e, w) = (throws e, release w)
  give_back (blocked, w) = (blocked, w)

  -- `auto handle = pool_.acquire(); …`
  unfoldable pub with_session : M P A → M P A
  with_session m w = let (r, w') = acquire w in continue r (λ _ v. give_back (m v)) w'

  -- A request to the server, which may refuse it.
  abbrev pub consult : List (Option String) → M P A → M P A
  consult [] m w = m w
  consult (none ∷ rest) m w = m (record w { outcomes = rest })
  consult (some e ∷ rest) m w = (throws (database_error e), record w { outcomes = rest })

  unfoldable pub ask : M P A → M P A
  ask m w = consult w.outcomes m w

  abbrev pub answer : Reply A → M P A
  answer (reply a t) w = (returns a, record w { tables = t })
  answer (refuse e) w = (throws (database_error e), w)

  -- `.sql(…).bind(…).execute()`
  unfoldable pub execute : (Tables → Reply A) → M P A
  execute statement = ask (λ w. answer (statement w.tables) w)

module _ {P : Platform} where
  unfoldable pub start_transaction : M P (Unit {0})
  start_transaction = ask (λ w. (returns tt, record w { snapshot = some w.tables }))

  unfoldable pub commit : M P (Unit {0})
  commit = ask (λ w. (returns tt, record w { snapshot = none }))

  abbrev pub restore : Option Tables → World P → World P
  restore none w = w
  restore (some t) w = record w { tables = t; snapshot = none }

  -- Also when the call fails, the server drops the transaction with the connection.
  unfoldable pub rollback : M P (Unit {0})
  rollback w = let (r, w') = ask (pure tt) w in (r, restore w'.snapshot w')
