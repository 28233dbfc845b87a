-- ===== src/Integrity/Rows.antt =====
-- src/NotificationRepository.cpp: what the INSERT and the UPDATEs leave of the rows.
use distributed_notification.Base.{
  ◌≡◌, refl, ◌⊎◌, inl, inr, true, String, none, some, List, [], ◌∷◌, Bool-cases, if◌then◌else◌,
  arith,
}
use distributed_notification.Platform.{Platform}
use distributed_notification.Database.Schema.{NotificationRow, AttemptRow}
use distributed_notification.NotificationRepository.{find_row, find_key, update_rows}
use distributed_notification.NotificationRepository.Lookup.{KeepsId}
use distributed_notification.Integrity.{AllDistinct, AllOwned}

abbrev pub KeepsKey : (NotificationRow → NotificationRow) → Type 0
KeepsKey f = (row : NotificationRow) → (f row).idempotency_key ≡ row.idempotency_key

module _ (P : Platform) where
  -- Of a row that is found: its id is the text that was asked for, for the server.
  pub find_row-id :
      (id : String) (rows : List NotificationRow) (row : NotificationRow)
      → find_row P id rows ≡ some row
      → P.same_text row.id id ≡ true
  unfolding find_row
  find_row-id id [] row h = cc
  find_row-id id (x ∷ rows) row h = ground (arith, find_row-id id rows row)

  -- What is found after an UPDATE is what was found before, or its changed form if its id fits.
  pub find_row-update_rows_old :
      (f : NotificationRow → NotificationRow) (id other : String) (rows : List NotificationRow)
      (row : NotificationRow)
      → KeepsId P f
      → find_row P other (update_rows P f id rows) ≡ some row
      → (old : NotificationRow) × (find_row P other rows ≡ some old)
        × ((row ≡ old) ⊎ ((P.same_text old.id id ≡ true) × (row ≡ f old)))
  unfolding find_row update_rows
  find_row-update_rows_old f id other [] row same h = cc
  find_row-update_rows_old f id other (x ∷ rows) row same h =
      elim (Bool-cases (P.same_text x.id other)) [
        | inr miss ↦
            let (old, found, e) =
              find_row-update_rows_old f id other rows row same (ground (arith, miss, h, same x)) in
            (old, ground (arith, miss, found), e)
        | inl hit ↦ elim (Bool-cases (P.same_text x.id id)) [
          | inl fits ↦ (x, rw hit, inr (fits, ground (arith, hit, fits, same x, h)))
          | inr not_this ↦ (x, rw hit, inl (ground (arith, hit, not_this, h)))
        ]
      ]

  find_row-update_rows-none :
      (f : NotificationRow → NotificationRow) (id other : String) (rows : List NotificationRow)
      → KeepsId P f
      → find_row P other rows ≡ none
      → find_row P other (update_rows P f id rows) ≡ none
  unfolding find_row update_rows
  find_row-update_rows-none f id other [] same h = refl
  find_row-update_rows-none f id other (x ∷ rows) same h =
      ground (arith, same x, find_row-update_rows-none f id other rows same)

  find_key-update_rows-none :
      (f : NotificationRow → NotificationRow) (id key : String) (rows : List NotificationRow)
      → KeepsKey f
      → find_key P key rows ≡ none
      → find_key P key (update_rows P f id rows) ≡ none
  unfolding find_key update_rows
  find_key-update_rows-none f id key [] same h = refl
  find_key-update_rows-none f id key (x ∷ rows) same h =
      ground (arith, same x, find_key-update_rows-none f id key rows same)

  find_row-update_rows-some :
      (f : NotificationRow → NotificationRow) (id other : String) (rows : List NotificationRow)
      (row : NotificationRow)
      → KeepsId P f
      → find_row P other rows ≡ some row
      → (x : NotificationRow) × (find_row P other (update_rows P f id rows) ≡ some x)
  unfolding find_row update_rows
  find_row-update_rows-some f id other [] row same h = cc
  find_row-update_rows-some f id other (x ∷ rows) row same h =
      elim (Bool-cases (P.same_text x.id other)) [
        | inl hit ↦ (if P.same_text x.id id then f x else x, ground (arith, hit, same x))
        | inr miss ↦
            let (y, found) =
              find_row-update_rows-some f id other rows row same (ground (arith, miss, h)) in
            (y, ground (arith, miss, same x, found))
      ]

  pub update_rows-AllDistinct :
      (f : NotificationRow → NotificationRow) (id : String) (rows : List NotificationRow)
      → KeepsId P f
      → KeepsKey f
      → AllDistinct P rows
      → AllDistinct P (update_rows P f id rows)
  unfolding update_rows
  update_rows-AllDistinct f id [] same key h = tt
  update_rows-AllDistinct f id (x ∷ rows) same key h = (
    ground (arith, same x, find_row-update_rows-none f id x.id rows same h.0),
    ground (arith, key x, find_key-update_rows-none f id x.idempotency_key rows key h.1),
    update_rows-AllDistinct f id rows same key h.2,
  )

  pub update_rows-AllOwned :
      (f : NotificationRow → NotificationRow) (id : String) (rows : List NotificationRow)
      (attempts : List AttemptRow)
      → KeepsId P f
      → AllOwned P rows attempts
      → AllOwned P (update_rows P f id rows) attempts
  update_rows-AllOwned f id rows [] same h = tt
  update_rows-AllOwned f id rows (a ∷ attempts) same ((row, found), h) = (
    find_row-update_rows-some f id a.notification_id rows row same found,
    update_rows-AllOwned f id rows attempts same h,
  )

  -- A row that is added hides none of another id.
  pub cons-AllOwned :
      (new : NotificationRow) (rows : List NotificationRow) (attempts : List AttemptRow)
      → AllOwned P rows attempts
      → AllOwned P (new ∷ rows) attempts
  unfolding find_row
  cons-AllOwned new rows [] h = tt
  cons-AllOwned new rows (a ∷ attempts) ((row, found), h) = (
    elim (Bool-cases (P.same_text new.id a.notification_id)) [
      | inl hit ↦ (new, rw hit)
      | inr miss ↦ (row, rw miss found)
    ],
    cons-AllOwned new rows attempts h,
  )
