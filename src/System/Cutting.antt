-- ===== src/System/Cutting.antt =====
-- src/main.cpp, src/HttpServer.cpp, src/Worker.cpp: what is cut off or does not reach the broker, and which
-- notifications stay carried.
use mathlib.Core.List.{Memᴰ}
use mathlib.Core.List.Memᴰ.{append_left, append_right, append_cases}
use distributed_notification.Base.{
  ℕ, suc, ◌≡◌, refl, sym, ap, ◌∙◌, subst, ◌⊎◌, inl, inr, Bool, true, false, String, none, some,
  List, [], ◌∷◌, ◌++◌, Bool-cases, if◌then◌else◌,
}
use distributed_notification.Enums.{Channel}
use distributed_notification.Models.{Notification}
use distributed_notification.Config.{Config}
use distributed_notification.Platform.{Platform, IsCollation, IsJson}
use distributed_notification.Provider.{Provider}
use distributed_notification.ProviderRouter.Apart.{AllApart}
use distributed_notification.Effects.{World, Command, Outcome, returns, throws, blocked}
use distributed_notification.Effects.Calm.{IsCalm}
use distributed_notification.Database.Schema.{Tables, NotificationRow}
use distributed_notification.NotificationRepository.{find_row}
use distributed_notification.NotificationRepository.Lookup.{find_row-same, new_or_old}
use distributed_notification.HttpServer.{Response, handle_connection}
use distributed_notification.HttpServer.Answers.{Answered, handle_connection-Answered}
use distributed_notification.RabbitMqTopology.{main_queue}
use distributed_notification.RabbitMqTopology.Broker.{Broker, IsBroker}
use distributed_notification.RabbitMqTopology.Ladder.{IsLadder}
use distributed_notification.Worker.{on_message}
use distributed_notification.Worker.Local.{row_open}
use distributed_notification.System.Carrying.{
  IsMade, IsCarried, IsTracked, Sound, StrandedBy, routed-IsMade, longer-carried,
}
use distributed_notification.System.Leaving.{message-Local}
use distributed_notification.System.{Mail, System, routed, ready, posted, cut_post, cut_message}

module _ (P : Platform) (laws : IsCollation P) (json : IsJson P) (broker : Broker) (n : ℕ)
    (providers : Channel → Provider P) (config : Config) (max : ℕ) (Lost : String → Type 0) where
  or_new :
      (s : System P) (id : String)
      → IsCarried P broker n providers config max id s.mails ⊎ Lost id
      → IsCarried P broker n providers config max id s.mails
        ⊎ (Lost id ⊎ (find_row P id s.world.tables.notifications ≡ none))
  or_new s id (inl carried) = inl carried
  or_new s id (inr lost) = inr (inl lost)

  was_carried :
      (s : System P) (v : World P)
      → IsTracked P broker n providers config max Lost s
      → v.tables ≡ s.world.tables
      → (id : String) (row : NotificationRow) → find_row P id v.tables.notifications ≡ some row
      → row_open row ≡ true
      → IsCarried P broker n providers config max id s.mails
        ⊎ (Lost id ⊎ (find_row P id s.world.tables.notifications ≡ none))
  was_carried s v inv same id row found opened = or_new s id (
      inv.carried id row (sym (ap (λ (t : Tables). find_row P id t.notifications) same) ∙ found)
        opened)

  cut_through :
      (s : System P) (body : P.Body) (r : Outcome (Response P.Body)) (v : World P)
      → IsTracked P broker n providers config max Lost s
      → Answered P json body (ready P broker n providers config s.world) r v
      → (id : String) (row : NotificationRow) → find_row P id v.tables.notifications ≡ some row
      → row_open row ≡ true
      → IsCarried P broker n providers config max id s.mails
        ⊎ (Lost id ⊎ (find_row P id s.world.tables.notifications ≡ none))
  cut_through s body (returns r) v inv (idle, inl (input, asks, h)) id row found opened =
      elim h.stored [
        | inl (old, taken, reads, same) ↦ was_carried s v inv same id row found opened
        | inr (free, e, both, unused) ↦
            elim (new_or_old P id h.saved s.world.timestamp s.world.tables.notifications row
              (sym (ap (λ (t : Tables). find_row P id t.notifications) both) ∙ found)) [
                | inl hit ↦ inr (
                    inr (
                      find_row-same P laws h.saved.id id s.world.tables.notifications hit ∙ unused))
                | inr rest ↦ or_new s id (inv.carried id row rest opened)
              ]
      ]
  cut_through s body (returns r) v inv (idle, inr (clear, is, same)) id row found opened =
      was_carried s v inv same.0 id row found opened
  cut_through s body (throws e) v inv (idle, garbled, is, same) id row found opened =
      was_carried s v inv same.0 id row found opened
  cut_through s body blocked v inv h id row found opened = absurd h

  pub cut_post-IsTracked :
      (s : System P) (body : P.Body)
      → IsTracked P broker n providers config max Lost s
      → IsTracked P broker n providers config max
          (λ id. Lost id ⊎ StrandedBy P broker n providers config max body s id)
          (cut_post P broker n providers config body s)
  unfolding cut_post
  cut_post-IsTracked s body inv =
      let w = ready P broker n providers config s.world in
      let q = handle_connection P (posted P broker n providers config body) w in
      record {
        made = inv.made;
        carried = λ id row found opened.
            elim (cut_through s body q.0 q.1 inv
              (handle_connection-Answered P json body w n refl refl) id row found opened) [
                | inl carried ↦ inl carried
                | inr (inl lost) ↦ inr (inl lost)
                | inr (inr free) ↦ inr (inr (free, row, found))
              ];
      }

module _ (P : Platform) (laws : IsCollation P) (json : IsJson P) (broker : Broker)
    (documented : IsBroker broker) (n : ℕ) (providers : Channel → Provider P)
    (apart : AllApart P providers)
    (calm : (d : Channel) (m : Notification) → IsCalm (suc (suc n)) (providers d m))
    (config : Config) (max : ℕ) (ladder : IsLadder config max) (Lost : String → Type 0) where
  -- What arrives of what was told.
  abbrev arrived : Bool → List (Command P.Body) → List (Mail P.Body)
  arrived told cs = if told then routed P broker n providers config cs else []

  arrived-IsMade :
      (told : Bool) (cs : List (Command P.Body)) (mail : Mail P.Body)
      → ((k : Command P.Body) → Memᴰ k cs → Sound P broker n providers config max k)
      → Memᴰ mail (arrived told cs)
      → IsMade P broker n providers config max mail.body
  arrived-IsMade true cs mail sound m =
      routed-IsMade P broker n providers config max cs mail sound m
  arrived-IsMade false cs mail sound m = elim m [ ]

  pub cut_message-IsTracked :
      (s : System P) (c : Channel) (tag : ℕ) (before : List (Mail P.Body)) (mail : Mail P.Body)
      (after : List (Mail P.Body)) (told : Bool)
      → s.mails ≡ before ++ mail ∷ after
      → mail.at_queue ≡ main_queue c
      → IsTracked P broker n providers config max Lost s
      → IsTracked P broker n providers config max Lost
          (cut_message P broker n providers config c tag mail told s)
  unfolding cut_message
  cut_message-IsTracked s c tag before mail after told at main inv =
      let there : Memᴰ mail s.mails =
        subst (Memᴰ mail) (sym at) (append_right before (Memᴰ.head refl)) in
      let made = inv.made mail there in
      let v =
        (on_message P providers c config mail.body tag
          (ready P broker n providers config s.world)).1 in
      let local =
        message-Local P laws json broker documented n providers apart calm config max ladder s c tag
          mail made in
      record {
        made = λ m h. elim (append_cases s.mails h) [
          | inl old ↦ inv.made m old
          | inr new ↦ arrived-IsMade told v.commands m local.1 new
        ];
        carried = λ id row found opened.
            elim (Bool-cases (P.same_text made.task.notification_id id)) [
              | inl same ↦ inl (
                mail,
                append_left (arrived told v.commands) there,
                record {
                  live = (c, inl main);
                  task = made.task;
                  decoded = made.decoded;
                  same = same;
                },
              )
              | inr ne ↦
                  longer-carried P broker n providers config max Lost id s.mails
                    (arrived told v.commands)
                    (inv.carried id row (sym (local.0 id ne) ∙ found) opened)
            ];
      }
