-- ===== src/System/Carrying.antt =====
-- src/main.cpp: the messages that carry a notification on its way.
use mathlib.Core.List.{Memᴰ}
use mathlib.Core.List.Memᴰ.{append_left, append_right, append_cases, of_map}
use mathlib.Core.List.Memᴰ
use distributed_notification.Base.{
  ℕ, suc, ◌≤◌, ◌<◌, ◌≡◌, refl, subst, ◌⊎◌, inl, inr, pos, Bool, true, String, Option, none, some,
  List, [], ◌∷◌, ◌++◌,
}
use distributed_notification.Enums.{Channel}
use distributed_notification.Config.{Config}
use distributed_notification.Platform.{Platform, ok}
use distributed_notification.Message.{Task, decode}
use distributed_notification.Provider.{Provider}
use distributed_notification.Effects.{Command, publish, ack}
use distributed_notification.Database.Schema.{NotificationRow}
use distributed_notification.NotificationRepository.{find_row}
use distributed_notification.RabbitMqTopology.{main_queue, declare_all}
use distributed_notification.RabbitMqTopology.Broker.{Broker}
use distributed_notification.Worker.Local.{row_open}
use distributed_notification.System.{Mail, System, mails_at, routed, cut_post}

module _ (P : Platform) (broker : Broker) (n : ℕ) (providers : Channel → Provider P)
    (config : Config) (max : ℕ) where
  -- A body as the API and the workers make them: it decodes, to an attempt number from 1 to max + 1.
  pub record IsMade (body : P.Body) : Type 0 where
    pub task : Task
    pub place : ℕ
    pub decoded : decode P body ≡ ok task
    pub number : task.attempt_number ≡ pos (suc place)
    pub low : place ≤ max
    pub byte : task.priority < 256

  -- A main queue, or one from which the broker moves messages to a main queue when they expire.
  abbrev pub Live : String → Type 0
  Live q =
      (c : Channel) × ((q ≡ main_queue c)
        ⊎ broker.DeadLetters (declare_all config) q (main_queue c))

  -- The message is on its way to a worker and names the notification.
  pub record Carries (id : String) (mail : Mail P.Body) : Type 0 where
    pub live : Live mail.at_queue
    pub task : Task
    pub decoded : decode P mail.body ≡ ok task
    pub same : P.same_text task.notification_id id ≡ true

  abbrev pub IsCarried : String → List (Mail P.Body) → Type 0
  IsCarried id mails = (mail : Mail P.Body) × Memᴰ mail mails × Carries id mail

  -- A submission whose publication does not reach the broker strands what it has stored.
  abbrev pub StrandedBy : P.Body → System P → String → Type 0
  StrandedBy body s id =
      let v = cut_post P broker n providers config body s in
      (find_row P id s.world.tables.notifications ≡ none)
      × (row : NotificationRow) × (find_row P id v.world.tables.notifications ≡ some row)

  -- All messages are well made, and every notification that is neither delivered nor given up is
  -- carried by one, or is lost.
  pub record IsTracked (Lost : String → Type 0) (s : System P) : Type 0 where
    pub made : (mail : Mail P.Body) → Memᴰ mail s.mails → IsMade mail.body
    pub carried :
        (id : String) (row : NotificationRow)
        → find_row P id s.world.tables.notifications ≡ some row
        → row_open row ≡ true
        → IsCarried id s.mails ⊎ Lost id

  pub longer-carried :
      (Lost : String → Type 0) (id : String) (mails more : List (Mail P.Body))
      → IsCarried id mails ⊎ Lost id
      → IsCarried id (mails ++ more) ⊎ Lost id
  longer-carried Lost id mails more (inl (mail, there, carries)) =
      inl (mail, append_left more there, carries)
  longer-carried Lost id mails more (inr lost) = inr lost

  abbrev pub Sound : Command P.Body → Type 0
  Sound (publish exchange key body persistent priority) = IsMade body
  Sound (ack tag) = Unit {0}

  abbrev deliver_to : List (Command P.Body) → List (Mail P.Body)
  deliver_to = routed P broker n providers config

  pub routed-IsMade :
      (cs : List (Command P.Body)) (mail : Mail P.Body)
      → ((k : Command P.Body) → Memᴰ k cs → Sound k)
      → Memᴰ mail (deliver_to cs)
      → IsMade mail.body
  routed-IsMade [] mail sound m = elim m [ ]
  routed-IsMade (ack tag ∷ cs) mail sound m = routed-IsMade cs mail (λ k h. sound k (Memᴰ.tail h)) m
  routed-IsMade (publish exchange key body persistent priority ∷ cs) mail sound m =
      elim (append_cases
        (mails_at P broker n providers config body
          (broker.routes (declare_all config) exchange key))
        m) [
          | inl first ↦
              let (q, there, e) =
                of_map (λ (q : String). record { at_queue = q; body = body })
                  (broker.routes (declare_all config) exchange key) first in
              subst (λ (x : Mail P.Body). IsMade x.body) e (sound _ (Memᴰ.head refl))
          | inr rest ↦ routed-IsMade cs mail (λ k h. sound k (Memᴰ.tail h)) rest
        ]

  -- What is published arrives in every queue that the broker routes it to.
  pub mem-routed :
      (cs : List (Command P.Body)) (exchange key q : String) (body : P.Body) (persistent : Bool)
      (priority : Option ℕ)
      → Memᴰ (publish exchange key body persistent priority) cs
      → Memᴰ q (broker.routes (declare_all config) exchange key)
      → Memᴰ (record { at_queue = q; body = body }) (deliver_to cs)
  mem-routed [] exchange key q body persistent priority m route = elim m [ ]
  mem-routed (k ∷ cs) exchange key q body persistent priority (Memᴰ.head e) route =
      subst
        (λ (k : Command P.Body). Memᴰ (record { at_queue = q; body = body }) (deliver_to (k ∷ cs)))
        e (append_left _ (Memᴰ.map (λ (q : String). record { at_queue = q; body = body }) route))
  mem-routed (ack tag ∷ cs) exchange key q body persistent priority (Memᴰ.tail m) route =
      mem-routed cs exchange key q body persistent priority m route
  mem-routed (publish x y b p r ∷ cs) exchange key q body persistent priority (Memᴰ.tail m) route =
      append_right _ (mem-routed cs exchange key q body persistent priority m route)
