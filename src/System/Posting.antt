-- ===== src/System/Posting.antt =====
-- src/main.cpp, src/HttpServer.cpp: a submission leaves every notification carried.
use mathlib.Core.List.{Memᴰ}
use mathlib.Core.List.Memᴰ.{append_right, append_cases, eq_of_singleton}
use distributed_notification.Base.{
  ℕ, ◌≡◌, refl, sym, ap, ◌∙◌, subst, ◌⊎◌, inl, inr, true, String, some, List, [], ◌++◌, arith,
}
use distributed_notification.Enums.{Channel, priority_weight}
use distributed_notification.Models.{Notification}
use distributed_notification.Config.{Config}
use distributed_notification.Platform.{Platform, IsJson}
use distributed_notification.Provider.{Provider}
use distributed_notification.Effects.{World, Command, publish, Outcome, returns, throws, blocked}
use distributed_notification.Database.Schema.{Tables, NotificationRow}
use distributed_notification.NotificationRepository.{find_row}
use distributed_notification.NotificationRepository.Lookup.{new_or_old}
use distributed_notification.RabbitMqTopology.{main_queue, declare_all, exchange_name, routing_key}
use distributed_notification.RabbitMqTopology.Broker.{Broker, IsBroker}
use distributed_notification.RabbitMqTopology.Ladder.{main_bound}
use distributed_notification.HttpServer.{Response, handle_connection, first_task}
use distributed_notification.HttpServer.Answers.{
  Answered, IsPublished, handle_connection-Answered, priority_weight-lt,
}
use distributed_notification.Worker.Local.{row_open}
use distributed_notification.System.Carrying.{
  IsMade, IsCarried, IsTracked, Sound, longer-carried, routed-IsMade, mem-routed,
}
use distributed_notification.System.{Mail, System, routed, ready, posted, after_post}

module _ (P : Platform) (json : IsJson P) (broker : Broker) (documented : IsBroker broker) (n : ℕ)
    (providers : Channel → Provider P) (config : Config) (max : ℕ) (Lost : String → Type 0) where
  abbrev with_mails : World P → List (Mail P.Body) → System P
  with_mails v mails = record { world = v; mails = mails }

  abbrev sent_out : List (Command P.Body) → List (Mail P.Body)
  sent_out = routed P broker n providers config

  -- Nothing changed in the tables, and messages were added.
  kept_carried :
      (s : System P) (v : World P) (more : List (Mail P.Body))
      → IsTracked P broker n providers config max Lost s
      → v.tables ≡ s.world.tables
      → (id : String) (row : NotificationRow) → find_row P id v.tables.notifications ≡ some row
      → row_open row ≡ true
      → IsCarried P broker n providers config max id (s.mails ++ more) ⊎ Lost id
  kept_carried s v more inv same id row found opened =
      longer-carried P broker n providers config max Lost id s.mails more (
        inv.carried id row (sym (ap (λ (t : Tables). find_row P id t.notifications) same) ∙ found)
          opened)

  module _ (s : System P) (v : World P) (r : Response P.Body) (input : Notification)
      (h : IsPublished P json input (ready P broker n providers config s.world) v r) where
    -- The message that the broker has got.
    abbrev first_mail : Mail P.Body
    first_mail = record { at_queue = main_queue h.saved.channel; body = h.body }

    told_is :
        (k : Command P.Body)
        → Memᴰ k v.commands
        → k
          ≡ publish exchange_name
              (routing_key h.saved.channel)
              h.body
              true
              (some (priority_weight h.saved.priority))
    told_is k m = eq_of_singleton (subst (Memᴰ k) h.command m)

    first-IsMade : IsMade P broker n providers config max h.body
    first-IsMade = record {
      task = first_task P h.saved;
      place = 0;
      decoded = h.task;
      number = refl;
      low = omega arith;
      byte = priority_weight-lt h.saved.priority;
    }

    first_arrives : Memᴰ first_mail (sent_out v.commands)
    first_arrives =
        mem-routed P broker n providers config max v.commands exchange_name
          (routing_key h.saved.channel) (main_queue h.saved.channel) h.body true
          (some (priority_weight h.saved.priority))
          (subst (Memᴰ _) (sym h.command) (Memᴰ.head refl))
          (documented.bound (declare_all config) exchange_name (routing_key h.saved.channel)
            (main_queue h.saved.channel) refl (main_bound config h.saved.channel))

    published-IsTracked :
        IsTracked P broker n providers config max Lost s
        → IsTracked P broker n providers config max Lost
            (with_mails v (s.mails ++ sent_out v.commands))
    published-IsTracked inv = record {
      made = λ mail m. elim (append_cases s.mails m) [
        | inl old ↦ inv.made mail old
        | inr new ↦
            routed-IsMade P broker n providers config max v.commands mail
              (λ k m.
                subst (Sound P broker n providers config max) (sym (told_is k m)) first-IsMade)
              new
      ];
      carried = λ id row found opened. elim h.stored [
        | inl (old, taken, reads, same) ↦
            kept_carried s v (sent_out v.commands) inv same id row found opened
        | inr (free, e, both, unused) ↦
            elim (new_or_old P id h.saved s.world.timestamp s.world.tables.notifications row
              (sym (ap (λ (t : Tables). find_row P id t.notifications) both) ∙ found)) [
                | inl hit ↦ inl (
                  first_mail,
                  append_right s.mails first_arrives,
                  record {
                    live = (h.saved.channel, inl refl);
                    task = first_task P h.saved;
                    decoded = h.task;
                    same = hit;
                  },
                )
                | inr rest ↦
                    longer-carried P broker n providers config max Lost id s.mails
                      (sent_out v.commands) (inv.carried id row rest opened)
              ]
      ];
    }

  -- Nothing changed in the tables, and the broker was told nothing.
  untouched-IsTracked :
      (s : System P) (v : World P)
      → IsTracked P broker n providers config max Lost s
      → v.tables ≡ s.world.tables
      → v.commands ≡ []
      → IsTracked P broker n providers config max Lost
          (with_mails v (s.mails ++ sent_out v.commands))
  untouched-IsTracked s v inv same silent = record {
    made = λ mail m. elim (append_cases s.mails m) [
      | inl old ↦ inv.made mail old
      | inr new ↦ elim (subst (λ cs. Memᴰ mail (sent_out cs)) silent new) [ ]
    ];
    carried = kept_carried s v (sent_out v.commands) inv same;
  }

  kept_through :
      (s : System P) (body : P.Body) (r : Outcome (Response P.Body)) (v : World P)
      → IsTracked P broker n providers config max Lost s
      → Answered P json body (ready P broker n providers config s.world) r v
      → IsTracked P broker n providers config max Lost
          (with_mails v (s.mails ++ sent_out v.commands))
  kept_through s body (returns r) v inv (idle, inl (input, asks, h)) =
      published-IsTracked s v r input h inv
  kept_through s body (returns r) v inv (idle, inr (clear, is, same)) =
      untouched-IsTracked s v inv same.0 same.1
  kept_through s body (throws e) v inv (idle, garbled, is, same) =
      untouched-IsTracked s v inv same.0 same.1
  kept_through s body blocked v inv h = absurd h

  pub after_post-IsTracked :
      (s : System P) (body : P.Body)
      → IsTracked P broker n providers config max Lost s
      → IsTracked P broker n providers config max Lost
          (after_post P broker n providers config body s)
  unfolding after_post
  after_post-IsTracked s body inv =
      let w = ready P broker n providers config s.world in
      let q = handle_connection P (posted P broker n providers config body) w in
      kept_through s body q.0 q.1 inv (handle_connection-Answered P json body w n refl refl)
