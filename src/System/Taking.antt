-- ===== src/System/Taking.antt =====
-- src/main.cpp, src/Worker.cpp: a message that a worker handles leaves every notification carried.
use mathlib.Core.List.{Memᴰ}
use mathlib.Core.List.Memᴰ.{append_left, append_right, append_cases}
use distributed_notification.Base.{
  ℕ, suc, ◌≡◌, refl, sym, ap, ◌∙◌, subst, ◌⊎◌, inl, inr, Bool, true, false, String, some, List, ◌∷◌,
  ◌++◌, Bool-cases,
}
use distributed_notification.Enums.{Channel}
use distributed_notification.Models.{Notification}
use distributed_notification.Config.{Config}
use distributed_notification.Platform.{Platform, IsCollation, IsJson, ok}
use distributed_notification.Message.{Task, decode}
use distributed_notification.Provider.{Provider}
use distributed_notification.ProviderRouter.Apart.{AllApart}
use distributed_notification.Effects.{World}
use distributed_notification.Effects.Calm.{IsCalm}
use distributed_notification.Database.Schema.{NotificationRow}
use distributed_notification.NotificationRepository.{find_row}
use distributed_notification.NotificationRepository.Lookup.{find_row-same}
use distributed_notification.RabbitMqTopology.{main_queue}
use distributed_notification.RabbitMqTopology.Broker.{Broker, IsBroker}
use distributed_notification.RabbitMqTopology.Ladder.{IsLadder}
use distributed_notification.Worker.Local.{row_open}
use distributed_notification.System.Handing.{left_over, left_over-mem, mem-left_over}
use distributed_notification.System.Leaving.{Leaves, retry-IsCarried, message-Leaves}
use distributed_notification.System.Carrying.{IsMade, IsCarried, IsTracked, routed-IsMade}
use distributed_notification.System.{Mail, System, routed, acked, after_message}

module _ (P : Platform) (laws : IsCollation P) (json : IsJson P) (broker : Broker)
    (documented : IsBroker broker) (n : ℕ) (providers : Channel → Provider P)
    (apart : AllApart P providers)
    (calm : (d : Channel) (m : Notification) → IsCalm (suc (suc n)) (providers d m))
    (config : Config) (max : ℕ) (ladder : IsLadder config max) where
  module _ (c : Channel) (body : P.Body) (made : IsMade P broker n providers config max body)
      (Lost : String → Type 0) (s : System P) (tag : ℕ) (before after : List (Mail P.Body))
      (mail : Mail P.Body) (at : s.mails ≡ before ++ mail ∷ after)
      (main : mail.at_queue ≡ main_queue c) (its : mail.body ≡ body)
      (inv : IsTracked P broker n providers config max Lost s) (v : World P)
      (left : Leaves P laws json broker documented n providers apart calm config max ladder c body
        made s.world.tables.notifications tag v) where
    abbrev mails_left : List (Mail P.Body)
    mails_left =
        left_over (acked P broker n providers config tag v.commands) before mail after
        ++ routed P broker n providers config v.commands

    -- What is known of a message that was there.
    stays : (m : Mail P.Body) → Memᴰ m s.mails → (m ≡ mail) ⊎ Memᴰ m mails_left
    stays m h =
        elim (mem-left_over (acked P broker n providers config tag v.commands) before mail after m
          (subst (Memᴰ m) at h)) [ inl e ↦ inl e | inr there ↦ inr (append_left _ there) ]

    -- A message of another notification is not the one that is handled.
    still-IsCarried :
        (id : String)
        → P.same_text made.task.notification_id id ≡ false
        → IsCarried P broker n providers config max id s.mails
        → IsCarried P broker n providers config max id mails_left
    still-IsCarried id ne (m, there, carries) = elim (stays m there) [
      | inr still ↦ (m, still, carries)
      | inl e ↦
          let same_body : m.body ≡ body = ap (λ (x : Mail P.Body). x.body) e ∙ its in
          let again : ok carries.task ≡ ok made.task =
            sym carries.decoded ∙ ap (decode P) same_body ∙ made.decoded in
          let named : carries.task ≡ made.task = cc in
          let clash : false ≡ true =
            sym ne
            ∙ ap (λ (t : Task). P.same_text t.notification_id id) (sym named)
            ∙ carries.same in
          absurd (cc)
    ]

    other-IsCarried :
        (id : String) (row : NotificationRow)
        → P.same_text made.task.notification_id id ≡ false
        → find_row P id v.tables.notifications ≡ some row
        → row_open row ≡ true
        → IsCarried P broker n providers config max id mails_left ⊎ Lost id
    other-IsCarried id row ne found opened =
        elim (inv.carried id row (sym (left.local.0 id ne) ∙ found) opened) [
          | inl carried ↦ inl (still-IsCarried id ne carried)
          | inr lost ↦ inr lost
        ]

    this-IsCarried :
        (id : String) (row : NotificationRow)
        → P.same_text made.task.notification_id id ≡ true
        → find_row P id v.tables.notifications ≡ some row
        → row_open row ≡ true
        → IsCarried P broker n providers config max id mails_left
    this-IsCarried id row same found opened = elim left.fate [
      | inl kept ↦ (
        mail,
        append_left (routed P broker n providers config v.commands) (
            subst (λ (gone : Bool). Memᴰ mail (left_over gone before mail after)) (sym kept)
              (append_right before (Memᴰ.head refl))),
        record {
          live = (c, inl main);
          task = made.task;
          decoded = ap (decode P) its ∙ made.decoded;
          same = same;
        },
      )
      | inr (near, inl shut) ↦
          let closed : row_open row ≡ false = shut row (
            sym (find_row-same P laws made.task.notification_id id v.tables.notifications same)
            ∙ found) in
          absurd (cc)
      | inr (near, inr (again, told)) ↦
          let (m, there, carries) =
            retry-IsCarried P laws json broker documented n providers apart calm config max ladder c
              body made id v same again told in
          (m, append_right _ there, carries)
    ]

    taken-IsTracked :
        IsTracked P broker n providers config max Lost (record { world = v; mails = mails_left })
    taken-IsTracked = record {
      made = λ m h.
          elim (append_cases
            (left_over (acked P broker n providers config tag v.commands) before mail after) h) [
              | inl old ↦ inv.made m (
                  subst (Memᴰ m) (sym at) (
                    left_over-mem (acked P broker n providers config tag v.commands) before mail
                      after m old))
              | inr new ↦
                  routed-IsMade P broker n providers config max v.commands m left.local.1 new
            ];
      carried = λ id row found opened.
          elim (Bool-cases (P.same_text made.task.notification_id id)) [
            | inl same ↦ inl (this-IsCarried id row same found opened)
            | inr ne ↦ other-IsCarried id row ne found opened
          ];
    }

  pub after_message-IsTracked :
      (Lost : String → Type 0) (s : System P) (c : Channel) (tag : ℕ) (before : List (Mail P.Body))
      (mail : Mail P.Body) (after : List (Mail P.Body))
      → s.mails ≡ before ++ mail ∷ after
      → mail.at_queue ≡ main_queue c
      → IsTracked P broker n providers config max Lost s
      → IsTracked P broker n providers config max Lost
          (after_message P broker n providers config c tag before mail after s.world)
  unfolding after_message
  after_message-IsTracked Lost s c tag before mail after at main inv =
      let made =
        inv.made mail (subst (Memᴰ mail) (sym at) (append_right before (Memᴰ.head refl))) in
      taken-IsTracked c mail.body made Lost s tag before after mail at main refl inv _ (
        message-Leaves P laws json broker documented n providers apart calm config max ladder s c
          tag mail made)
