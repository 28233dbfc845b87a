-- ===== src/System/Kept.antt =====
-- src/main.cpp: which notifications the service loses, and what its messages say.
use mathlib.Core.List.{Memᴰ}
use mathlib.Core.List.Memᴰ.{append_left, append_right, append_cases, cases_cons}
use distributed_notification.Base.{
  ℕ, suc, ◌≡◌, refl, sym, ap, ◌∙◌, subst, ◌⊎◌, inl, inr, true, String, none, some, List, [], ◌∷◌,
  ◌++◌,
}
use distributed_notification.Enums.{Channel}
use distributed_notification.Models.{Notification}
use distributed_notification.Config.{Config}
use distributed_notification.Platform.{Platform, IsCollation, IsJson}
use distributed_notification.Message.{decode}
use distributed_notification.Provider.{Provider}
use distributed_notification.ProviderRouter.Apart.{AllApart}
use distributed_notification.Effects.Calm.{IsCalm}
use distributed_notification.Database.Schema.{Tables, NotificationRow}
use distributed_notification.NotificationRepository.{find_row}
use distributed_notification.RabbitMqTopology.{main_queue}
use distributed_notification.RabbitMqTopology.Broker.{Broker, IsBroker}
use distributed_notification.RabbitMqTopology.Ladder.{IsLadder}
use distributed_notification.Worker.Local.{row_open}
use distributed_notification.System.Carrying.{IsMade, IsCarried, IsTracked, StrandedBy}
use distributed_notification.System.Posting.{after_post-IsTracked}
use distributed_notification.System.Cutting.{cut_post-IsTracked, cut_message-IsTracked}
use distributed_notification.System.Taking.{after_message-IsTracked}
use distributed_notification.System.{
  Mail, System, Turn, posts, takes, unpublished, interrupted, expires, passes, Reach, here, next,
}

module _ (P : Platform) (laws : IsCollation P) (json : IsJson P) (broker : Broker)
    (documented : IsBroker broker) (n : ℕ) (providers : Channel → Provider P)
    (apart : AllApart P providers)
    (calm : (d : Channel) (m : Notification) → IsCalm (suc (suc n)) (providers d m))
    (config : Config) (max : ℕ) (ladder : IsLadder config max) where
  moved-IsCarried :
      (s : System P) (c : Channel) (before : List (Mail P.Body)) (mail : Mail P.Body)
      (after : List (Mail P.Body))
      → s.mails ≡ before ++ mail ∷ after
      → (id : String) → IsCarried P broker n providers config max id s.mails
      → IsCarried P broker n providers config max id
          (before ++ record mail { at_queue = main_queue c } ∷ after)
  moved-IsCarried s c before mail after at id (m, there, carries) =
      elim (append_cases before (subst (Memᴰ m) at there)) [
        | inl first ↦ (m, append_left _ first, carries)
        | inr rest ↦ elim (cases_cons rest) [
          | inl e ↦ (
            record mail { at_queue = main_queue c },
            append_right before (Memᴰ.head refl),
            record {
              live = (c, inl refl);
              task = carries.task;
              decoded = ap (λ (x : Mail P.Body). decode P x.body) (sym e) ∙ carries.decoded;
              same = carries.same;
            },
          )
          | inr last ↦ (m, append_right before (Memᴰ.tail last), carries)
        ]
      ]

  moved-IsTracked :
      (Lost : String → Type 0) (s : System P) (c : Channel) (before : List (Mail P.Body))
      (mail : Mail P.Body) (after : List (Mail P.Body))
      → s.mails ≡ before ++ mail ∷ after
      → IsTracked P broker n providers config max Lost s
      → IsTracked P broker n providers config max Lost
          (record s { mails = before ++ record mail { at_queue = main_queue c } ∷ after })
  moved-IsTracked Lost s c before mail after at inv = record {
    made = λ m h. elim (append_cases before h) [
      | inl first ↦ inv.made m (subst (Memᴰ m) (sym at) (append_left _ first))
      | inr rest ↦ elim (cases_cons rest) [
        | inl e ↦
            subst (λ (x : Mail P.Body). IsMade P broker n providers config max x.body) (sym e)
              (inv.made mail (subst (Memᴰ mail) (sym at) (append_right before (Memᴰ.head refl))))
        | inr last ↦ inv.made m (subst (Memᴰ m) (sym at) (append_right before (Memᴰ.tail last)))
      ]
    ];
    carried = λ id row found opened. elim (inv.carried id row found opened) [
      | inl carried ↦ inl (moved-IsCarried s c before mail after at id carried)
      | inr lost ↦ inr lost
    ];
  }

  -- A turn strands a notification when it has stored it and the publication does not reach the broker.
  abbrev pub StrandedIn : {s t : System P} → Turn P broker n providers config s t → String → Type 0
  StrandedIn (posts body) id = ⊥
  StrandedIn (takes c tag before mail after at main) id = ⊥
  StrandedIn {s} (unpublished body) id = StrandedBy P broker n providers config max body s id
  StrandedIn (interrupted c tag before mail after told at main) id = ⊥
  StrandedIn (expires c before mail after at moves) id = ⊥
  StrandedIn (passes v same) id = ⊥

  abbrev pub Stranded : {s t : System P} → Reach P broker n providers config s t → String → Type 0
  Stranded here id = ⊥
  Stranded (next run step) id = Stranded run id ⊎ StrandedIn step id

  no_more-IsTracked :
      (Lost More : String → Type 0) (s : System P)
      → IsTracked P broker n providers config max Lost s
      → IsTracked P broker n providers config max (λ id. Lost id ⊎ More id) s
  no_more-IsTracked Lost More s inv = record {
    made = inv.made;
    carried = λ id row found opened. elim (inv.carried id row found opened) [
      | inl carried ↦ inl carried
      | inr lost ↦ inr (inl lost)
    ];
  }

  Turn-IsTracked :
      (Lost : String → Type 0) {s t : System P} (step : Turn P broker n providers config s t)
      → IsTracked P broker n providers config max Lost s
      → IsTracked P broker n providers config max (λ id. Lost id ⊎ StrandedIn step id) t
  Turn-IsTracked Lost {s} (posts body) inv =
      no_more-IsTracked Lost _ _
        (after_post-IsTracked P json broker documented n providers config max Lost s body inv)
  Turn-IsTracked Lost {s} (takes c tag before mail after at main) inv = no_more-IsTracked Lost _ _ (
      after_message-IsTracked P laws json broker documented n providers apart calm config max ladder
        Lost s c tag before mail after at main inv)
  Turn-IsTracked Lost {s} (unpublished body) inv =
      cut_post-IsTracked P laws json broker n providers config max Lost s body inv
  Turn-IsTracked Lost {s} (interrupted c tag before mail after told at main) inv =
      no_more-IsTracked Lost _ _ (
        cut_message-IsTracked P laws json broker documented n providers apart calm config max ladder
          Lost s c tag before mail after told at main inv)
  Turn-IsTracked Lost {s} (expires c before mail after at moves) inv =
      no_more-IsTracked Lost _ _ (moved-IsTracked Lost s c before mail after at inv)
  Turn-IsTracked Lost {s} (passes v same) inv = no_more-IsTracked Lost _ _ (record {
    made = inv.made;
    carried = λ id row found opened.
        inv.carried id row (sym (ap (λ (t : Tables). find_row P id t.notifications) same) ∙ found)
          opened;
  })

  pub Reach-IsTracked :
      {s t : System P} (run : Reach P broker n providers config s t)
      → IsTracked P broker n providers config max (λ id. ⊥) s
      → IsTracked P broker n providers config max (Stranded run) t
  Reach-IsTracked here inv = inv
  Reach-IsTracked (next run step) inv = Turn-IsTracked (Stranded run) step (Reach-IsTracked run inv)

  nothing :
      (t : Tables) (id : String) (row : NotificationRow)
      → t.notifications ≡ []
      → find_row P id t.notifications ≡ some row
      → ⊥
  unfolding find_row
  nothing t id row empty h = let e : none ≡ some row = sym (ap (find_row P id) empty) ∙ h in cc

  pub fresh-IsTracked :
      (start : System P)
      → start.world.tables.notifications ≡ []
      → start.mails ≡ []
      → IsTracked P broker n providers config max (λ id. ⊥) start
  fresh-IsTracked start empty quiet = record {
    made = λ mail m. elim (subst (Memᴰ mail) quiet m) [ ];
    carried = λ id row h opened. absurd (nothing start.world.tables id row empty h);
  }

  -- No notification is lost but in one way. From a service with no notifications and no messages, in a
  -- run in which no two handlers overlap, by submissions, published or not, handled messages, each to
  -- its end or cut off by the end of the process or of the connection, expiries and changes of the
  -- surroundings in any order, whatever the providers answer and the server refuses: every
  -- notification that is PENDING or PROCESSING is named by a message in a main queue, or in a queue
  -- from which the broker moves it to one, or it was stored by a submission whose publication did not
  -- reach the broker, because the process ended before it or the publication failed. The broker is as
  -- documented, the providers use no session and touch neither tables nor broker, and the ladder has
  -- a rung for each retry.
  pub open-IsCarried :
      (start s : System P) (id : String) (row : NotificationRow)
      → start.world.tables.notifications ≡ []
      → start.mails ≡ []
      → (run : Reach P broker n providers config start s)
      → find_row P id s.world.tables.notifications ≡ some row
      → row_open row ≡ true
      → IsCarried P broker n providers config max id s.mails ⊎ Stranded run id
  open-IsCarried start s id row empty quiet run found opened =
      (Reach-IsTracked run (fresh-IsTracked start empty quiet)).carried id row found opened

  -- From a service with no notifications and no messages, by the same turns and under the same
  -- conditions: every message in any queue decodes, to an attempt number from 1 to max + 1 and a
  -- priority below 256, where max is the setting of the most retries.
  pub mails-IsMade :
      (start s : System P) (mail : Mail P.Body)
      → start.world.tables.notifications ≡ []
      → start.mails ≡ []
      → Reach P broker n providers config start s
      → Memᴰ mail s.mails
      → IsMade P broker n providers config max mail.body
  mails-IsMade start s mail empty quiet run there =
      (Reach-IsTracked run (fresh-IsTracked start empty quiet)).made mail there
