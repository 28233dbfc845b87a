-- ===== src/System.antt =====
-- src/main.cpp: the service as main puts it together, with its HTTP server and its workers, the
-- database and the broker that they share, in runs in which no two handlers overlap: a request or a
-- message is handled in one turn, which may be cut off, and the turns come in any order. The program
-- has several threads of each kind, so that its handlers may overlap too; Worker.Overlap and
-- NotificationRepository.Racing have what follows from that. In a turn, two more sessions than n are
-- idle and no transaction of its session is under way, which the handlers' theorems give back. A
-- process that ends at a statement is one whose statements the server refuses from there on; the
-- turns after it are those of the next process.
pub mod Carrying
pub mod Posting
pub mod Handing
pub mod Renumbering
pub mod Leaving
pub mod Taking
pub mod Cutting
pub mod Kept
pub mod Intact
pub mod Standing
pub mod Final
pub mod Draining
pub mod Spending
pub mod Bounded
use distributed_notification.Base.{
  ℕ, suc, Bool, true, false, ◌||◌, String, none, List, [], ◌∷◌, ◌++◌, ◌≡◌, ◌==◌, map, if◌then◌else◌,
}
use distributed_notification.Enums.{Channel}
use distributed_notification.Config.{Config}
use distributed_notification.Platform.{Platform}
use distributed_notification.Effects.{World, Command, publish, ack, Outcome}
use distributed_notification.Provider.{Provider}
use distributed_notification.RabbitMqTopology.{main_queue, declare_all}
use distributed_notification.RabbitMqTopology.Broker.{Broker}
use distributed_notification.HttpServer.{Request, post, handle_connection}
use distributed_notification.Worker.{on_message}

-- A message in a queue of the broker.
pub record Mail (B : Type 0) : Type 0 where
  pub at_queue : String
  pub body : B

pub record System (P : Platform) : Type 0 where
  pub world : World P
  pub mails : List (Mail P.Body)

module _ (P : Platform) (broker : Broker) (n : ℕ) (providers : Channel → Provider P)
    (config : Config) where
  -- Where the broker puts a body, with what `declareTopologyBlocking` has declared.
  abbrev pub mails_at : P.Body → List String → List (Mail P.Body)
  mails_at body = map (λ q. record { at_queue = q; body = body })

  abbrev pub routed : List (Command P.Body) → List (Mail P.Body)
  routed [] = []
  routed (ack tag ∷ cs) = routed cs
  routed (publish exchange key body persistent priority ∷ cs) =
      mails_at body (broker.routes (declare_all config) exchange key) ++ routed cs

  abbrev pub acked : ℕ → List (Command P.Body) → Bool
  acked tag [] = false
  acked tag (ack t ∷ cs) = t == tag || acked tag cs
  acked tag (publish exchange key body persistent priority ∷ cs) = acked tag cs

  -- The world that a handler meets.
  abbrev pub ready : World P → World P
  ready w = record w { commands = []; snapshot = none; available = suc (suc n) }

  abbrev pub posted : P.Body → Request P.Body
  posted body = record { method = post; target = "/api/notifications"; body = body }

  -- POST /api/notifications
  unfoldable pub after_post : P.Body → System P → System P
  after_post body s =
      let (r, v) = handle_connection P (posted body) (ready s.world) in
      record { world = v; mails = s.mails ++ routed v.commands }

  -- A worker of channel c handles a message that stands between the others. It leaves the queue
  -- when it is acknowledged; if an exception ends the worker, the broker delivers it again.
  unfoldable pub after_message :
      Channel → ℕ → List (Mail P.Body) → Mail P.Body → List (Mail P.Body) → World P → System P
  after_message c tag before mail after w =
      let (r, v) = on_message P providers c config mail.body tag (ready w) in
      record {
        world = v;
        mails =
            (if acked tag v.commands then before ++ after else before ++ mail ∷ after)
            ++ routed v.commands;
      }

  -- A submission may be stored, and its publication does not reach the broker: the process ends before
  -- it, or the connection of the publisher fails, which `publishToExchange` does not tell its caller.
  unfoldable pub cut_post : P.Body → System P → System P
  cut_post body s =
      let (r, v) = handle_connection P (posted body) (ready s.world) in
      record { world = v; mails = s.mails }

  -- The handling of a message is cut off, because the process ends or the connection of the worker
  -- fails: the acknowledgement, which is the last that the worker tells its channel, does not arrive,
  -- and what it has told before that may arrive or not.
  unfoldable pub cut_message : Channel → ℕ → Mail P.Body → Bool → System P → System P
  cut_message c tag mail told s =
      let (r, v) = on_message P providers c config mail.body tag (ready s.world) in
      record { world = v; mails = s.mails ++ (if told then routed v.commands else []) }

  -- A turn begins when no handler is at work, and ends with its handler.
  pub data Turn (s : System P) : System P → Type 0 where
    posts : (body : P.Body) → Turn s (after_post body s)
    takes :
        (c : Channel) (tag : ℕ) (before : List (Mail P.Body)) (mail : Mail P.Body)
        (after : List (Mail P.Body))
        → s.mails ≡ before ++ mail ∷ after
        → mail.at_queue ≡ main_queue c
        → Turn s (after_message c tag before mail after s.world)
    unpublished : (body : P.Body) → Turn s (cut_post body s)
    interrupted :
        (c : Channel) (tag : ℕ) (before : List (Mail P.Body)) (mail : Mail P.Body)
        (after : List (Mail P.Body)) (told : Bool)
        → s.mails ≡ before ++ mail ∷ after
        → mail.at_queue ≡ main_queue c
        → Turn s (cut_message c tag mail told s)
    -- A message expires in its queue, and the broker moves it on.
    expires :
        (c : Channel) (before : List (Mail P.Body)) (mail : Mail P.Body)
        (after : List (Mail P.Body))
        → s.mails ≡ before ++ mail ∷ after
        → broker.DeadLetters (declare_all config) mail.at_queue (main_queue c)
        → Turn s (record s { mails = before ++ record mail { at_queue = main_queue c } ∷ after })
    -- Clocks, the random device, the breakers and the server's readiness change.
    passes : (v : World P) → v.tables ≡ s.world.tables → Turn s (record s { world = v })

  pub data Reach (s : System P) : System P → Type 0 where
    here : Reach s s
    next : {t u : System P} → Reach s t → Turn t u → Reach s u
