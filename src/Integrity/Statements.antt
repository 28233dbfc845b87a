-- ===== src/Integrity/Statements.antt =====
-- src/NotificationRepository.cpp, src/DeliveryAttemptRepository.cpp: which statements keep the tables
-- intact, and in which order.
use distributed_notification.Base.{
  ℕ, ◌≡◌, refl, sym, ap, ◌∙◌, subst, inl, inr, true, false, String, str_eq, eq_iff, none, some, ◌∷◌,
  map, Bool-cases, arith,
}
use distributed_notification.Enums.{attempt_status_to_string}
use distributed_notification.Models.{Notification, DeliveryAttempt}
use distributed_notification.Platform.{Platform, IsCollation}
use distributed_notification.Database.Schema.{Tables, NotificationRow, OutboxRow}
use distributed_notification.NotificationRepository.{
  find_row, find_key, new_row, set_status, count_attempt, update_table,
}
use distributed_notification.NotificationRepository.Atomic.{with_both}
use distributed_notification.NotificationRepository.Lookup.{
  KeepsId, find_row-update_rows_inv, find_row-same,
}
use distributed_notification.NotificationRepository.Idempotency.{update_table-IsPaired}
use distributed_notification.Integrity.{IsIntact, HasAttempt, HasFailure, HasEvidence, AllDistinct}
use distributed_notification.Integrity.Rows.{
  KeepsKey, find_row-id, find_row-update_rows_old, update_rows-AllDistinct, update_rows-AllOwned,
  cons-AllOwned,
}
use distributed_notification.Integrity.Attempts.{find_attempt-same, IsUpserted}

-- Texts that a test tells apart.
differ : (s t : String) → str_eq s t ≡ false → s ≡ t → ⊥
differ s t ne e = let hit : str_eq s t ≡ true = (eq_iff s t).1 e in cc

module _ (P : Platform) (laws : IsCollation P) where
  -- The notification, if it is there, is being processed.
  abbrev pub IsTaken : String → Tables → Type 0
  IsTaken id t =
      (row : NotificationRow) → find_row P id t.notifications ≡ some row → row.status ≡ "PROCESSING"

  abbrev pub Working : String → Tables → Type 0
  Working id t = IsIntact P t × IsTaken id t

  abbrev Evident : String → NotificationRow → Tables → Type 0
  Evident id row t =
      (row.status ≡ "SENT" → HasAttempt P id "SUCCESS" t)
      × (row.status ≡ "DEAD_LETTERED" → HasFailure P id t)

  -- A row with another status needs no evidence.
  plain_row :
      (id : String) (row : NotificationRow) (t : Tables) (s : String)
      → row.status ≡ s
      → str_eq s "SENT" ≡ false
      → str_eq s "DEAD_LETTERED" ≡ false
      → Evident id row t
  plain_row id row t s e ne ne' = (
    λ h. absurd (differ s "SENT" ne (sym e ∙ h)),
    λ h. absurd (differ s "DEAD_LETTERED" ne' (sym e ∙ h)),
  )

  with_both-HasEvidence :
      (m : Notification) (ts : ℕ) (t : Tables) → HasEvidence P t → HasEvidence P (with_both m ts t)
  unfolding find_row
  with_both-HasEvidence m ts t h id row found = elim (Bool-cases (P.same_text m.id id)) [
    | inl hit ↦ plain_row id row (with_both m ts t) "PENDING" (ground (arith, hit, found)) refl refl
    | inr miss ↦ h id row (ground (arith, miss, found))
  ]

  pub with_both-IsIntact :
      (m : Notification) (ts : ℕ) (t : Tables)
      → find_row P m.id t.notifications ≡ none
      → find_key P m.idempotency_key t.notifications ≡ none
      → IsIntact P t
      → IsIntact P (with_both m ts t)
  with_both-IsIntact m ts t free unused h = record {
    distinct = (free, unused, h.distinct);
    paired = ap (λ ids. m.id ∷ ids) h.paired;
    unique = h.unique;
    owned = cons-AllOwned P (new_row m ts) t.notifications t.attempts h.owned;
    evidence = with_both-HasEvidence m ts t h.evidence;
  }

  -- An UPDATE keeps all but, for its rows, the evidence.
  updated-IsIntact :
      (f : NotificationRow → NotificationRow) (id : String) (t : Tables)
      → KeepsId P f
      → KeepsKey f
      → IsIntact P t
      → ((other : String) (row : NotificationRow)
          → P.same_text row.id id ≡ true
          → find_row P other t.notifications ≡ some row
          → Evident other (f row) t)
      → IsIntact P (update_table P f id t)
  updated-IsIntact f id t same key h changed = record {
    distinct = update_rows-AllDistinct P f id t.notifications same key h.distinct;
    paired = update_table-IsPaired P f id t same h.paired;
    unique = h.unique;
    owned = update_rows-AllOwned P f id t.notifications t.attempts same h.owned;
    evidence = λ other row found.
        let (old, there, e) =
          find_row-update_rows_old P f id other t.notifications row same found in
        elim e [
          | inl e ↦
              subst (λ (r : NotificationRow). Evident other r t) (sym e)
                (h.evidence other old there)
          | inr (fits, e) ↦
              subst (λ (r : NotificationRow). Evident other r t) (sym e)
                (changed other old fits there)
        ];
  }

  -- UPDATE … SET status = 'PROCESSING'
  pub begun-Working :
      (id : String) (t : Tables)
      → IsIntact P t
      → Working id (update_table P (set_status "PROCESSING") id t)
  begun-Working id t h = (
    updated-IsIntact (set_status "PROCESSING") id t (λ r. refl) (λ r. refl) h
        (λ other row fits found.
          plain_row other (set_status "PROCESSING" row) t "PROCESSING" refl refl refl),
    λ row found.
        let (old, there, e) =
          find_row-update_rows_inv P (set_status "PROCESSING") id t.notifications row (λ r. refl)
            found in
        ap (λ (r : NotificationRow). r.status) e,
  )

  pub counted-IsIntact :
      (id : String) (t : Tables) → IsIntact P t → IsIntact P (update_table P count_attempt id t)
  counted-IsIntact id t h =
      updated-IsIntact count_attempt id t (λ r. refl) (λ r. refl) h
        (λ other row fits found. h.evidence other row found)

  pub counted-Working :
      (id : String) (t : Tables) → Working id t → Working id (update_table P count_attempt id t)
  counted-Working id t h = (
    counted-IsIntact id t h.0,
    λ row found.
        let (old, there, e) =
          find_row-update_rows_inv P count_attempt id t.notifications row (λ r. refl) found in
        ap (λ (r : NotificationRow). r.status) e ∙ h.1 old there,
  )

  attempt_same :
      (id other status : String) (t : Tables)
      → P.same_text id other ≡ true
      → HasAttempt P id status t
      → HasAttempt P other status t
  attempt_same id other status t e (n, a, found, is) =
      (n, a, find_attempt-same P laws id other n t.attempts e ∙ found, is)

  failure_same :
      (id other : String) (t : Tables)
      → P.same_text id other ≡ true
      → HasFailure P id t
      → HasFailure P other t
  failure_same id other t e (inl h) = inl (attempt_same id other _ t e h)
  failure_same id other t e (inr h) = inr (attempt_same id other _ t e h)

  module _ (a : DeliveryAttempt) (n : ℕ) (t t' : Tables) (u : IsUpserted P laws a n t t') where
    kept_attempt :
        (other status : String)
        → P.same_text a.notification_id other ≡ false
        → HasAttempt P other status t
        → HasAttempt P other status t'
    kept_attempt other status ne (k, b, found, is) = (k, b, u.others other k ne ∙ found, is)

    kept_failure :
        (other : String)
        → P.same_text a.notification_id other ≡ false
        → HasFailure P other t
        → HasFailure P other t'
    kept_failure other ne (inl h) = inl (kept_attempt other _ ne h)
    kept_failure other ne (inr h) = inr (kept_attempt other _ ne h)

    there_before :
        (other : String) (row : NotificationRow)
        → find_row P other t'.notifications ≡ some row
        → find_row P other t.notifications ≡ some row
    there_before other row found = sym (ap (find_row P other) u.recorded.notifications) ∙ found

    kept_evidence : Working a.notification_id t → HasEvidence P t'
    kept_evidence h other row found = elim (Bool-cases (P.same_text a.notification_id other)) [
      | inl same ↦
          plain_row other row t' "PROCESSING"
            (h.1 row (
              sym (find_row-same P laws a.notification_id other t.notifications same)
              ∙ there_before other row found))
            refl refl
      | inr ne ↦
          let e = h.0.evidence other row (there_before other row found) in
          (λ is. kept_attempt other "SUCCESS" ne (e.0 is), λ is. kept_failure other ne (e.1 is))
    ]

    -- The upsert of an attempt of the notification that is being processed.
    pub upserted-Working :
        Working a.notification_id t
        → Working a.notification_id t'
          × HasAttempt P a.notification_id (attempt_status_to_string a.status) t'
    upserted-Working h =
        let (row, found, says) = u.recorded.found in
        (
          (
            record {
              distinct = subst (AllDistinct P) (sym u.recorded.notifications) h.0.distinct;
              paired =
                  ap (map (λ (r : NotificationRow). r.id)) u.recorded.notifications
                  ∙ h.0.paired
                  ∙ ap (map (λ (e : OutboxRow). e.notification_id)) (sym u.recorded.outbox);
              unique = u.recorded.unique h.0.unique;
              owned = u.owned;
              evidence = kept_evidence h;
            },
            λ r there. h.1 r (there_before a.notification_id r there),
          ),
          (n, row, found, says.1),
        )

  named_same :
      (id other : String) (row : NotificationRow) (t : Tables)
      → P.same_text row.id id ≡ true
      → find_row P other t.notifications ≡ some row
      → P.same_text id other ≡ true
  named_same id other row t fits found =
      laws.same_trans id row.id other (laws.same_sym row.id id fits)
        (find_row-id P other t.notifications row found)

  -- UPDATE … SET status = 'SENT', with the success on record.
  pub sent-IsIntact :
      (id : String) (t : Tables)
      → IsIntact P t
      → HasAttempt P id "SUCCESS" t
      → IsIntact P (update_table P (set_status "SENT") id t)
  sent-IsIntact id t h noted =
      updated-IsIntact (set_status "SENT") id t (λ r. refl) (λ r. refl) h
        λ other row fits found. (
          λ is. attempt_same id other "SUCCESS" t (named_same id other row t fits found) noted,
          λ is. absurd (differ "SENT" "DEAD_LETTERED" refl is),
        )

  pub buried-IsIntact :
      (id : String) (t : Tables)
      → IsIntact P t
      → HasFailure P id t
      → IsIntact P (update_table P (set_status "DEAD_LETTERED") id t)
  buried-IsIntact id t h noted =
      updated-IsIntact (set_status "DEAD_LETTERED") id t (λ r. refl) (λ r. refl) h
        λ other row fits found. (
          λ is. absurd (differ "DEAD_LETTERED" "SENT" refl is),
          λ is. failure_same id other t (named_same id other row t fits found) noted,
        )
