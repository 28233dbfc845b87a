-- ===== src/System/Standing.antt =====
-- src/main.cpp, src/Worker.cpp: what a request or a message leaves of a row that is over.
use mathlib.Core.List.{Memᴰ}
use distributed_notification.Base.{
  ◌⊎◌, ℕ, suc, ◌≡◌, refl, sym, ap, ◌∙◌, subst, inl, inr, Bool, true, false, Bool-cases, String,
  Option, none, some, List, arith,
}
use distributed_notification.Enums.{Channel}
use distributed_notification.Models.{Notification}
use distributed_notification.Config.{Config}
use distributed_notification.Platform.{Platform, Parsed, ok, bad, IsCollation, IsJson}
use distributed_notification.Message.{Task}
use distributed_notification.Provider.{Provider}
use distributed_notification.ProviderRouter.Apart.{AllApart}
use distributed_notification.Effects.{World, Command, Outcome, returns, throws, blocked}
use distributed_notification.Effects.Calm.{IsCalm}
use distributed_notification.Effects.Ensures.{Facts, After, Ensures, Ensures-bind, Ensures-raise}
use distributed_notification.Database.Schema.{Tables, NotificationRow}
use distributed_notification.NotificationRepository.{
  find_row, find_by_id, row_to_notification, status_from_string,
}
use distributed_notification.NotificationRepository.Lookup.{find_row-same}
use distributed_notification.NotificationRepository.Submission.{Submitted}
use distributed_notification.RabbitMqTopology.Broker.{Broker}
use distributed_notification.HttpServer.{Response}
use distributed_notification.HttpServer.Answers.{Answered}
use distributed_notification.Worker.{is_done, handle_found, handle_decoded}
use distributed_notification.Worker.Local.{Local, Looked, find_by_id-Looked}
use distributed_notification.Worker.Settling.{Settled, handle_decoded-Ensures}

abbrev pub row_done : NotificationRow → Bool
row_done row = is_done (status_from_string row.status)

abbrev pub IsOver : NotificationRow → Type 0
IsOver row = (row.status ≡ "SENT") ⊎ (row.status ≡ "CANCELLED")

pub over_done : (row : NotificationRow) → IsOver row → row_done row ≡ true
unfolding status_from_string
over_done row (inl e) = ap (λ s. is_done (status_from_string s)) e
over_done row (inr e) = ap (λ s. is_done (status_from_string s)) e

-- A row that reads has the status that it says.
read_status :
    (row : NotificationRow) (m : Notification)
    → row_to_notification row ≡ some m
    → m.status ≡ status_from_string row.status
unfolding row_to_notification
read_status row m h = ground (arith, h)

module _ (P : Platform) (laws : IsCollation P) (json : IsJson P) (broker : Broker) (n : ℕ)
    (providers : Channel → Provider P) (apart : AllApart P providers)
    (calm : (d : Channel) (m : Notification) → IsCalm (suc (suc n)) (providers d m))
    (config : Config) (id : String) (row : NotificationRow) (over : row_done row ≡ true) where
  -- The row is found under the id.
  abbrev pub Stays : Tables → Type 0
  Stays t = find_row P id t.notifications ≡ some row

  abbrev pub StaysFact : Facts P
  StaysFact t cs = Stays t

  Submitted-Stays :
      (input m : Notification) (w v : World P)
      → Submitted P input w (returns m) v
      → Stays w.tables
      → Stays v.tables
  unfolding find_row
  Submitted-Stays input m w v (inl (r, taken, reads, same)) h = subst Stays (sym same) h
  Submitted-Stays input m w v (inr (free, is, both, unused)) h =
      subst Stays (sym both) (elim (Bool-cases (P.same_text m.id id)) [
        | inr miss ↦ rw miss h
        | inl hit ↦ let e = find_row-same P laws m.id id w.tables.notifications hit in absurd (cc)
      ])

  pub Answered-Stays :
      (body : P.Body) (w : World P) (r : Outcome (Response P.Body)) (v : World P)
      → Answered P json body w r v
      → Stays w.tables
      → Stays v.tables
  Answered-Stays body w (returns r) v (idle, inl (input, asks, h)) t =
      Submitted-Stays input h.saved w v h.stored t
  Answered-Stays body w (returns r) v (idle, inr (clear, is, same)) t = subst Stays (sym same.0) t
  Answered-Stays body w (throws e) v (idle, garbled, is, same) t = subst Stays (sym same.0) t
  Answered-Stays body w blocked v h t = absurd h

  abbrev AnyCommand : Command P.Body → Type 0
  AnyCommand k = Unit {0}

  abbrev AnyCommands : List (Command P.Body) → Type 0
  AnyCommands cs = (k : Command P.Body) → Memᴰ k cs → AnyCommand k

  local-Stays :
      (c : Channel) (task : Task) (body : P.Body) (w : World P) (r : Outcome (Unit {0}))
      (v : World P)
      → P.same_text task.notification_id id ≡ false
      → Stays w.tables
      → After
          (λ _.
            Settled P laws providers apart c config AnyCommand
              (λ tag. tt)
              w.tables.notifications
              task
              body
              (λ e. tt)
              tt)
          (Local P laws AnyCommands w.tables.notifications task.notification_id)
          r
          v
      → After (λ _. StaysFact) StaysFact r v
  local-Stays c task body w (returns u) v ne h k = k.0.0 id ne ∙ h
  local-Stays c task body w (throws e) v ne h k = k.0 id ne ∙ h
  local-Stays c task body w blocked v ne h k = tt

  -- A message of another notification.
  other-Stays :
      (c : Channel) (task : Task) (body : P.Body) (tag : ℕ) (w : World P)
      → P.same_text task.notification_id id ≡ false
      → Stays w.tables
      → let q = handle_decoded P providers c config (ok task) body tag w in
        After (λ _. StaysFact) StaysFact q.0 q.1
  other-Stays c task body tag w ne h =
      let q = handle_decoded P providers c config (ok task) body tag w in
      local-Stays c task body w q.0 q.1 ne h (
        (handle_decoded-Ensures P laws providers apart c config AnyCommand (λ tag. tt)
            w.tables.notifications task body (λ e. tt) tt tag).at
          w (refl, λ k m. tt))

  -- A message of this one.
  found-Unmoved :
      (c : Channel) (task : Task) (body : P.Body) (tag : ℕ) (rows : List NotificationRow)
      (found : Option Notification)
      → find_row P task.notification_id rows ≡ some row
      → Looked P laws AnyCommands rows task.notification_id found
      → Ensures
          (λ t cs. t.notifications ≡ rows)
          (handle_found P providers c config found task body tag)
          (λ _ t cs. t.notifications ≡ rows)
          (λ t cs. t.notifications ≡ rows)
  found-Unmoved c task body tag rows none there looked = record { at = λ w h. h }
  found-Unmoved c task body tag rows (some m) there (r, seen, reads) =
      let same : r ≡ row = cc in
      let done : is_done m.status ≡ true =
        ap is_done (read_status r m reads) ∙ ap row_done same ∙ over in
      rw done (record { at = λ w h. h })

  abbrev Unmoved : List NotificationRow → Facts P
  Unmoved rows t cs = t.notifications ≡ rows

  decoded-Unmoved :
      (c : Channel) (task : Task) (body : P.Body) (tag : ℕ) (rows : List NotificationRow)
      → find_row P task.notification_id rows ≡ some row
      → Ensures
          (λ t cs. Unmoved rows t cs × AnyCommands cs)
          (handle_decoded P providers c config (ok task) body tag)
          (λ _. Unmoved rows)
          (Unmoved rows)
  decoded-Unmoved c task body tag rows there =
      Ensures-bind _ (find_by_id P task.notification_id) _ _ (λ _. Unmoved rows) (Unmoved rows)
        (Ensures-raise _ _ _ _ (λ _. Unmoved rows) (λ e t cs k. k.0)
          (find_by_id-Looked P laws AnyCommands rows task.notification_id))
        λ found. record {
          at = λ w k. (found-Unmoved c task body tag rows found there k.2).at w k.0;
        }

  -- Unmoved rows hold the row.
  Unmoved-Stays :
      (rows : List NotificationRow) (r : Outcome (Unit {0})) (v : World P)
      → find_row P id rows ≡ some row
      → After (λ _. Unmoved rows) (Unmoved rows) r v
      → After (λ _. StaysFact) StaysFact r v
  Unmoved-Stays rows (returns u) v h k = ap (find_row P id) k ∙ h
  Unmoved-Stays rows (throws e) v h k = ap (find_row P id) k ∙ h
  Unmoved-Stays rows blocked v h k = tt

  this-Stays :
      (c : Channel) (task : Task) (body : P.Body) (tag : ℕ) (w : World P)
      → P.same_text task.notification_id id ≡ true
      → Stays w.tables
      → let q = handle_decoded P providers c config (ok task) body tag w in
        After (λ _. StaysFact) StaysFact q.0 q.1
  this-Stays c task body tag w same h =
      let q = handle_decoded P providers c config (ok task) body tag w in
      let rows = w.tables.notifications in
      Unmoved-Stays rows q.0 q.1 h (
        (decoded-Unmoved c task body tag rows
            (sym (find_row-same P laws task.notification_id id rows same) ∙ h)).at
          w (refl, λ k m. tt))

  pub message-Stays :
      (c : Channel) (decoded : Parsed Task) (body : P.Body) (tag : ℕ) (w : World P)
      → Stays w.tables
      → let q = handle_decoded P providers c config decoded body tag w in
        After (λ _. StaysFact) StaysFact q.0 q.1
  message-Stays c (bad e) body tag w h = h
  message-Stays c (ok task) body tag w h = elim (Bool-cases (P.same_text task.notification_id id)) [
    | inl same ↦ this-Stays c task body tag w same h
    | inr ne ↦ other-Stays c task body tag w ne h
  ]
