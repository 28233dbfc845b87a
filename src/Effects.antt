-- ===== src/Effects.antt =====
-- What the service acts on, and the actions: code that reads and writes the world, returns, throws,
-- or waits for a session that nobody gives back.
pub mod Calm
pub mod Ensures
pub mod Plain
use distributed_notification.Base.{ℕ, Bool, true, false, String, Option, List}
use distributed_notification.CircuitBreaker.{CircuitBreaker}
use distributed_notification.Database.Schema.{Tables}
use distributed_notification.Platform.{Platform}

-- The exceptions that the code throws or lets through, each with its text; that of a JSON exception
-- is `none` if it is not UTF-8.
pub data Exception : Type 0 where
  provider_exception : String → Bool → Exception
  database_error : String → Exception
  json_error : Option String → Exception
  invalid_argument : String → Exception

-- What an AMQP channel is told: `publish` has exchange, routing key, body, persistence, priority.
pub data Command (B : Type 0) : Type 0 where
  publish : String → String → B → Bool → Option ℕ → Command B
  ack : ℕ → Command B

-- One breaker for each channel.
pub record Breakers : Type 0 where
  pub email : CircuitBreaker
  pub sms : CircuitBreaker
  pub push : CircuitBreaker

-- `available` counts the idle sessions of the pool: all of them talk to the same server. `outcomes`
-- says of each coming statement whether the server takes it (`none`) or refuses it, with a text;
-- past its end all are taken. `snapshot` is what a rollback restores.
pub record World (P : Platform) : Type 0 where
  pub tables : Tables
  pub snapshot : Option Tables
  pub outcomes : List (Option String)
  pub available : ℕ
  pub breakers : Breakers
  pub now : ℕ
  pub timestamp : ℕ
  pub rng : P.Rng
  pub commands : List (Command P.Body)

pub data Outcome (A : Type 0) : Type 0 where
  returns : A → Outcome A
  throws : Exception → Outcome A
  blocked : Outcome A

abbrev pub is_blocked : {A : Type 0} → Outcome A → Bool
is_blocked (returns a) = false
is_blocked (throws e) = false
is_blocked blocked = true

abbrev pub M : Platform → Type 0 → Type 0
M P A = World P → Outcome A × World P

module _ {P : Platform} {A B : Type 0} where
  abbrev pub continue : Outcome A → (A → M P B) → M P B
  continue (returns a) f w = f a w
  continue (throws e) f w = (throws e, w)
  continue blocked f w = (blocked, w)

  infixl 5 ◌>>=◌ ◌>>◌
  abbrev pub ◌>>=◌ : M P A → (A → M P B) → M P B
  ◌>>=◌ m f w = let (r, w') = m w in continue r f w'

  abbrev pub ◌>>◌ : M P A → M P B → M P B
  ◌>>◌ m n w = let (r, w') = m w in continue r (λ _. n) w'

module _ {P : Platform} {A : Type 0} where
  abbrev pub pure : A → M P A
  pure a w = (returns a, w)

  abbrev pub throw : Exception → M P A
  throw e w = (throws e, w)

  -- `try { m } catch (...) { h }`
  abbrev pub recover : Outcome A → (Exception → M P A) → M P A
  recover (returns a) h w = (returns a, w)
  recover (throws e) h w = h e w
  recover blocked h w = (blocked, w)

  abbrev pub catch_all : M P A → (Exception → M P A) → M P A
  catch_all m h w = let (r, w') = m w in recover r h w'

  -- `try { m } catch (const ProviderException& ex) { h ex.what() ex.isTransient() }`
  abbrev pub on_provider_exception : (String → Bool → M P A) → Exception → M P A
  on_provider_exception h (provider_exception message transient) = h message transient
  on_provider_exception h (database_error e) = throw (database_error e)
  on_provider_exception h (json_error e) = throw (json_error e)
  on_provider_exception h (invalid_argument e) = throw (invalid_argument e)

  abbrev pub catch_provider : M P A → (String → Bool → M P A) → M P A
  catch_provider m h = catch_all m (on_provider_exception h)
