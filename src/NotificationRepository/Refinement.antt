-- ===== src/NotificationRepository/Refinement.antt =====
-- src/NotificationRepository.cpp: the methods, on rows and sessions, do what the registry allows.
use distributed_notification.Base.{
  ℕ, suc, ◌≡◌, refl, sym, ap, ◌∙◌, inl, inr, String, Bool-cases, Option, none, some, List, [], ◌∷◌,
  if◌then◌else◌, arith,
}
use mathlib.Core.Path.{fun_ext}
use distributed_notification.Enums.{
  Channel, NotificationStatus, pending, processing, sent, failed, dead_lettered,
  channel_from_string,
}
use distributed_notification.Models.{Notification}
use distributed_notification.Platform.{Platform}
use distributed_notification.Effects.{
  World, M, Outcome, returns, throws, blocked, continue, pure, ◌>>◌,
}
use distributed_notification.Database.{Reply, reply, release, execute, answer}
use distributed_notification.Database.Laws.{with_session_lem, ask-cases}
use distributed_notification.Database.Schema.{Tables, NotificationRow}
use distributed_notification.NotificationRepository.{
  row_to_notification, status_from_string, with_channel, find_key, update_rows, update_table,
  update, set_status, count_attempt, find_by_idempotency_key, insert_with_outbox,
}
use distributed_notification.NotificationRepository.Rows.{
  as_stored, row_to_notification-new_row, to_int-next_count,
}
use distributed_notification.NotificationRepository.Atomic.{with_both}
use distributed_notification.NotificationRepository.Sessions.{insert_with_outbox-IsCalm}
use distributed_notification.NotificationRepository.Submission.{
  IsLook, find-IsLook, Submitted, insert_with_outbox-Submitted,
}
use distributed_notification.NotificationRepository.Registry.{
  Operation, submits, looks_up, marks_processing, marks_sent, marks_failed, marks_dead_lettered,
  counts_attempt, with_status, with_attempt, put, change_named, change, Changes, Submits, Performs,
  Allows, perform, perform_all, read_found, registry,
}

module _ (P : Platform) where
  abbrev changed : (Notification → Notification) → Option Notification → Option Notification
  changed g none = none
  changed g (some n) = some (g n)

  -- A change of rows that a change of notifications shows.
  record Shows (f : NotificationRow → NotificationRow) (g : Notification → Notification)
      : Type 0 where
    same_key : (row : NotificationRow) → (f row).idempotency_key ≡ row.idempotency_key
    same_channel : (row : NotificationRow) → (f row).channel ≡ row.channel
    shown :
        (row : NotificationRow) (c : Channel)
        → with_channel (some c) (f row) ≡ changed g (with_channel (some c) row)

  named :
      (f : NotificationRow → NotificationRow) (g : Notification → Notification) (id : String)
      (row : NotificationRow) (o : Option Channel)
      → Shows f g
      → with_channel o (if P.same_text row.id id then f row else row)
        ≡ change_named P g id (with_channel o row)
  named f g id row none sh = refl
  named f g id row (some c) sh = elim (Bool-cases (P.same_text row.id id)) [
    | inl hit ↦ rw hit (sh.shown row c)
    | inr miss ↦ rw miss refl
  ]

  shown_row :
      (f : NotificationRow → NotificationRow) (g : Notification → Notification) (id : String)
      (row : NotificationRow)
      → Shows f g
      → row_to_notification (if P.same_text row.id id then f row else row)
        ≡ change_named P g id (row_to_notification row)
  unfolding row_to_notification
  shown_row f g id row sh =
      let same : (if P.same_text row.id id then f row else row).channel ≡ row.channel =
        ground (arith, sh.same_channel row) in
      rw same (named f g id row (channel_from_string row.channel) sh)

  key-update_rows :
      (f : NotificationRow → NotificationRow) (g : Notification → Notification) (id key : String)
      (rows : List NotificationRow)
      → Shows f g
      → read_found P (find_key P key (update_rows P f id rows))
        ≡ change_named P g id (read_found P (find_key P key rows))
  unfolding find_key update_rows
  key-update_rows f g id key [] sh = refl
  key-update_rows f g id key (row ∷ rows) sh =
      let same : (if P.same_text row.id id then f row else row).idempotency_key
          ≡ row.idempotency_key =
        ground (arith, sh.same_key row) in
      elim (Bool-cases (P.same_text row.idempotency_key key)) [
        | inl hit ↦ rw (same, hit) (shown_row f g id row sh)
        | inr miss ↦ rw (same, miss) (key-update_rows f g id key rows sh)
      ]

  -- An UPDATE of rows is a change of the registry.
  registry-update_table :
      (f : NotificationRow → NotificationRow) (g : Notification → Notification) (id : String)
      (t : Tables)
      → Shows f g
      → registry P (update_table P f id t) ≡ change P g id (registry P t)
  registry-update_table f g id t sh = fun_ext λ key. key-update_rows f g id key t.notifications sh

  -- A new row is an entry under its key.
  registry-with_both :
      (m : Notification) (ts : ℕ) (t : Tables)
      → registry P (with_both m ts t) ≡ put P m.idempotency_key (as_stored m pending) (registry P t)
  unfolding find_key
  registry-with_both m ts t = fun_ext λ key. elim (Bool-cases (P.same_text m.idempotency_key key)) [
    | inl hit ↦ rw hit (row_to_notification-new_row m pending ts)
    | inr miss ↦ rw miss refl
  ]

  set_status-Shows :
      (text : String) (s : NotificationStatus)
      → status_from_string text ≡ s
      → Shows (set_status text) (with_status s)
  set_status-Shows text s e = record {
    same_key = λ row. refl;
    same_channel = λ row. refl;
    shown = λ row c. rw e;
  }

  count_attempt-Shows : Shows count_attempt with_attempt
  count_attempt-Shows = record {
    same_key = λ row. refl;
    same_channel = λ row. refl;
    shown = λ row c. rw (to_int-next_count row.attempt_count) refl;
  }

  -- After an operation with two or more sessions idle and no transaction under way.
  abbrev pub Refines : Operation → ℕ → World P → Outcome (Option Notification) → World P → Type 0
  Refines op n w r v =
      Performs P op (registry P w.tables) r (registry P v.tables)
      × (v.snapshot ≡ none)
      × (v.available ≡ suc (suc n))

  updated :
      (f : NotificationRow → NotificationRow) (g : Notification → Notification) (id : String)
      (w : World P) (n : ℕ)
      → Shows f g
      → w.available ≡ suc (suc n)
      → w.snapshot ≡ none
      → let q = (do update P f id; pure none) w in
        Changes P g id (registry P w.tables) q.0 (registry P q.1.tables)
        × (q.1.snapshot ≡ none)
        × (q.1.available ≡ suc (suc n))
  unfolding update execute release
  updated f g id w n sh a s =
      let statement : Tables → Reply (Unit {0}) = λ t. reply tt (update_table P f id t) in
      let m : M P (Unit {0}) = λ v. answer {P = P} (statement v.tables) v in
      let ready : World P = record w { available = suc n } in
      elim (ask-cases m ready) [
        | inl (e, os, eq) ↦
            rw (with_session_lem (execute statement) w (suc n) a, eq) (refl, s, refl)
        | inr (os, eq) ↦
            rw (with_session_lem (execute statement) w (suc n) a, eq)
              ((refl, registry-update_table f g id w.tables sh), s, refl)
      ]

  looked_up :
      (key : String) (w : World P) (n : ℕ) (r : Outcome (Option Notification)) (v : World P)
      → w.available ≡ suc (suc n)
      → w.snapshot ≡ none
      → IsLook P key w r v
      → Refines (looks_up key) n w r v
  looked_up key w n (returns none) v a s k =
      ((sym (ap (read_found P) k.looked), ap (registry P) k.tables), k.snapshot ∙ s, k.idle ∙ a)
  looked_up key w n (returns (some m)) v a s k = (
    (sym (ap (read_found P) k.looked.1 ∙ k.looked.2), ap (registry P) k.tables),
    k.snapshot ∙ s,
    k.idle ∙ a,
  )
  looked_up key w n (throws e) v a s k = (ap (registry P) k.tables, k.snapshot ∙ s, k.idle ∙ a)
  looked_up key w n blocked v a s k = absurd k.looked

  submitted :
      (input : Notification) (w : World P) (n : ℕ) (r : Outcome Notification) (v : World P)
      → Submitted P input w r v
      → let q = continue r (λ m. pure (some m)) v in
        Submits P input (registry P w.tables) q.0 (registry P q.1.tables)
  submitted input w n (returns m) v (inl k) = inl (ap (read_found P) k.1 ∙ k.2, ap (registry P) k.3)
  submitted input w n (returns m) v (inr k) =
      let same : m.idempotency_key ≡ input.idempotency_key =
        ap (λ (x : Notification). x.idempotency_key) k.1 in
      inr (
        ap (read_found P) k.0,
        k.1,
        ap (registry P) k.2
            ∙ registry-with_both m w.timestamp w.tables
            ∙ ap (λ key. put P key (as_stored m pending) (registry P w.tables)) same,
      )
  submitted input w n (throws e) v k = ap (registry P) k
  submitted input w n blocked v k = absurd k

  calm :
      (w : World P) (n : ℕ) (r : Outcome Notification) (v : World P)
      → v.snapshot ≡ none
      → v.available ≡ n
      → let q = continue r (λ m. pure (some m)) v in (q.1.snapshot ≡ none) × (q.1.available ≡ n)
  calm w n (returns m) v s a = (s, a)
  calm w n (throws e) v s a = (s, a)
  calm w n blocked v s a = (s, a)

  -- Each method does to the registry what its operation may do.
  perform-Refines :
      (op : Operation) (w : World P) (n : ℕ)
      → w.available ≡ suc (suc n)
      → w.snapshot ≡ none
      → Refines op n w (perform P op w).0 (perform P op w).1
  unfolding status_from_string
  perform-Refines (submits input) w n a s =
      let q = insert_with_outbox P input w in
      let h = insert_with_outbox-Submitted P input w n a s in
      let idle = ((insert_with_outbox-IsCalm P n input).at w a).idle in
      let k = calm w (suc (suc n)) q.0 q.1 h.1 idle in (submitted input w n q.0 q.1 h.0, k.0, k.1)
  perform-Refines (looks_up key) w n a s =
      let q = find_by_idempotency_key P key w in
      looked_up key w n q.0 q.1 a s (find-IsLook P key w (suc n) a)
  perform-Refines (marks_processing id) w n a s =
      updated _ _ id w n (set_status-Shows "PROCESSING" processing refl) a s
  perform-Refines (marks_sent id) w n a s =
      updated _ _ id w n (set_status-Shows "SENT" sent refl) a s
  perform-Refines (marks_failed id) w n a s =
      updated _ _ id w n (set_status-Shows "FAILED" failed refl) a s
  perform-Refines (marks_dead_lettered id) w n a s =
      updated _ _ id w n (set_status-Shows "DEAD_LETTERED" dead_lettered refl) a s
  perform-Refines (counts_attempt id) w n a s = updated _ _ id w n count_attempt-Shows a s

  -- The repository refines the registry. With two or more sessions idle and no transaction under way,
  -- any sequence of submissions, lookups by key and changes of status or attempt count (all its
  -- methods but `findById` and `list`), whatever the server refuses, gives outcomes that the registry
  -- allows, from what the tables hold under each key before to what they hold after: a lookup tells what is
  -- under its key; a submission returns what is there or adds a PENDING notification, and nothing else
  -- changes; a change reaches the notifications with its id; an exception leaves all as it was.
  pub perform_all-Allows :
      (ops : List Operation) (w : World P) (n : ℕ)
      → w.available ≡ suc (suc n)
      → w.snapshot ≡ none
      → let q = perform_all P ops w in
        Allows P ops (registry P w.tables) q.0 (registry P q.1.tables)
  perform_all-Allows [] w n a s = refl
  perform_all-Allows (op ∷ ops) w n a s =
      let q = perform P op w in
      let h = perform-Refines op w n a s in
      (registry P q.1.tables, (h.0, perform_all-Allows ops q.1 n h.2 h.1))
