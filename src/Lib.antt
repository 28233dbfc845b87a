-- ===== src/Lib.antt =====
-- Verification of SignalDesk, the notification delivery service: a REST API writes a notification
-- and an outbox event to MySQL in one transaction and publishes a message to RabbitMQ; a worker of
-- the channel reads the message, calls the channel's provider behind a circuit breaker, records the
-- attempt, and acknowledges the message, after parking it in a retry queue or the dead-letter queue
-- if the provider failed.
--
-- Which file models which part:
--   Enums, Models             include/notification/Enums.hpp, Models.hpp
--   CircuitBreaker            include/notification/CircuitBreaker.hpp; a method is one step, since a
--                             mutex guards it, and the steady clock is its argument
--   Platform                  what the program calls and does not contain, with its documented laws
--   Effects                   the world, exceptions, and actions that return, throw or wait; Calm,
--                             Ensures and Plain have the rules for what actions leave and throw
--   Logger                    include/notification/Logger.hpp, the lines of the log
--   Database                  sql/schema.sql and the use of sessions and transactions;
--                             Pool has the queue of src/Database.cpp and threads that share it,
--                             Opening the constructor of the pool
--   NotificationRepository    src/NotificationRepository.cpp, a function for each method; Registry is
--                             what they promise, a map from keys to notifications, and Racing has
--                             submissions with one key at the same time
--   DeliveryAttemptRepository src/DeliveryAttemptRepository.cpp
--   Integrity                 what sql/schema.sql and the code mean the rows to say of one another;
--                             Interleaving has the statements of overlapping handlers
--   IdGenerator               include/notification/IdGenerator.hpp
--   Provider, ProviderRouter  src/MockProviders.cpp, src/ProviderRouter.cpp
--   RabbitMqTopology          src/RabbitMQTopology.cpp; Broker has what RabbitMQ does with expired
--                             messages, as its documentation says
--   Config                    include/notification/Config.hpp, the settings, their defaults, loadFromFile
--   Message, Worker           src/Worker.cpp, WorkerThread::onMessage; Journey follows a message
--                             through queues and workers, Arrival a submission to its delivery,
--                             Overlap two workers with one notification, and Settling what a
--                             handled message leaves of the row that it names
--   WorkerPool                src/Worker.cpp, start, stop and destruction of the workers and the pool
--   HttpServer                src/HttpServer.cpp, HttpServer::handleConnection: the parsed request in,
--                             status and body out; Submission reads the body of a POST, Accepting has
--                             acceptLoop, Threads start and stop
--   RabbitMqPublisher         src/RabbitMQPublisher.cpp, its life and its publications
--   System                    the running service: the tables and the messages in the broker's queues,
--                             changed by requests, handled messages, failures and expiries; Kept
--                             follows the messages, Bounded counts them, Intact has the tables, and
--                             Final a notification that is over
--   Program                   src/main.cpp, from the settings to the exit code
--   Tests                     a platform that can be run, tests, and theorems at concrete inputs
--
-- Conventions. A call that throws is an outcome of its action, and keeps what it wrote before. A
-- call that finds the pool empty is blocked: nothing in a run of one thread gives a session back.
-- The server may refuse any statement, as a list of outcomes says; a refused one has no effect. A
-- text is UTF-8, what the server says too, but for the text of a JSON parse error, which may quote
-- other bytes. An `int` is an integer; where the code adds to one, the bound that keeps it in
-- range is a theorem or a hypothesis. The loops are structural recursions, and no fuel is used but
-- for the digits of a number, where n + 1 rounds suffice for n.
--
-- Concurrency. System has the runs in which no two handlers overlap: a request or a message is
-- handled in one turn, which may be cut off, and the turns come in any order. An exception that
-- leaves a handler ends the process, and so does a crash: between a commit and the publication
-- after it, before an acknowledgement, or at any statement, where the server refuses it and those
-- after it. The turns that follow are those of the next process, with the same tables and queues.
-- A publication may also fail while the process runs: the message of a submission then does not
-- reach the broker; a worker publishes and acknowledges on one channel, of which the broker gets
-- the commands in order, so that with a publication the acknowledgement is lost too. The program
-- has several threads of each kind, and its handlers may overlap: the orders inside them are
-- modelled where they compete, for the sessions of the pool (Database.Pool), for a notification
-- that two workers look up (Worker.Overlap), which may then be delivered and counted twice and
-- leave the state in which it was over, and for an idempotency key
-- (NotificationRepository.Racing); Integrity.Interleaving has what any order keeps. A join of a
-- worker or of the publisher returns when the thread's function does, which is when its io_context
-- is stopped; that of a thread of the server returns if its accept loop does, which is left open.
--
-- Not modelled: where the components write to the log, what sockets, threads (Boost) and the AMQP
-- connection do inside, and the dashboard.
mod Base
pub mod Enums
pub mod CircuitBreaker
pub mod HttpServer
pub mod RabbitMqPublisher
pub mod Models
pub mod Logger
pub mod Database
pub mod Platform
pub mod Effects
pub mod IdGenerator
pub mod NotificationRepository
pub mod DeliveryAttemptRepository
pub mod Provider
pub mod ProviderRouter
pub mod Config
pub mod RabbitMqTopology
pub mod Message
pub mod Worker
pub mod WorkerPool
pub mod Program
pub mod Integrity
pub mod System
mod Tests
