-- ===== src/NotificationRepository/Lookup.antt =====
-- src/NotificationRepository.cpp: what is found under an id after an UPDATE.
use distributed_notification.Base.{
  ℕ, ◌⊎◌, ◌≡◌, refl, true, false, String, some, List, [], ◌∷◌, inl, inr, Bool-cases, arith,
}
use distributed_notification.Models.{Notification}
use distributed_notification.Platform.{Platform, IsCollation}
use distributed_notification.Database.Schema.{NotificationRow}
use distributed_notification.NotificationRepository.{find_row, update_rows, new_row}

module _ (P : Platform) where
  -- The changes that the UPDATE statements of the program make.
  abbrev pub KeepsId : (NotificationRow → NotificationRow) → Type 0
  KeepsId f = (row : NotificationRow) → (f row).id ≡ row.id

  -- The row that is found under the id of an UPDATE is the one that was found before, changed.
  pub find_row-update_rows :
      (f : NotificationRow → NotificationRow) (id : String) (rows : List NotificationRow)
      (row : NotificationRow)
      → KeepsId f
      → find_row P id rows ≡ some row
      → find_row P id (update_rows P f id rows) ≡ some (f row)
  unfolding find_row update_rows
  find_row-update_rows f id [] row same h = cc
  find_row-update_rows f id (x ∷ rows) row same h =
      ground (arith, same x, find_row-update_rows f id rows row same)

  -- An UPDATE leaves what is found under every other id.
  pub find_row-update_rows_ne :
      (laws : IsCollation P) (f : NotificationRow → NotificationRow) (id other : String)
      (rows : List NotificationRow)
      → KeepsId f
      → P.same_text id other ≡ false
      → find_row P other (update_rows P f id rows) ≡ find_row P other rows
  unfolding find_row update_rows
  find_row-update_rows_ne laws f id other [] same ne = refl
  find_row-update_rows_ne laws f id other (x ∷ rows) same ne = ground (
    arith,
    same x,
    ne,
    laws.same_trans id x.id other,
    laws.same_sym x.id id,
    find_row-update_rows_ne laws f id other rows same ne,
  )

  -- What is found after an UPDATE under its id is the changed form of what was found before.
  pub find_row-update_rows_inv :
      (f : NotificationRow → NotificationRow) (id : String) (rows : List NotificationRow)
      (row : NotificationRow)
      → KeepsId f
      → find_row P id (update_rows P f id rows) ≡ some row
      → (old : NotificationRow) × (find_row P id rows ≡ some old) × (row ≡ f old)
  unfolding find_row update_rows
  find_row-update_rows_inv f id [] row same h = cc
  find_row-update_rows_inv f id (x ∷ rows) row same h = elim (Bool-cases (P.same_text x.id id)) [
    | inl hit ↦ (x, rw hit, ground (arith, hit, same x, h))
    | inr miss ↦
        let (old, found, e) =
          find_row-update_rows_inv f id rows row same (ground (arith, miss, h)) in
        (old, ground (arith, miss, found), e)
  ]

  -- Texts that are the same for the server find the same row.
  pub find_row-same :
      (laws : IsCollation P) (id other : String) (rows : List NotificationRow)
      → P.same_text id other ≡ true
      → find_row P other rows ≡ find_row P id rows
  unfolding find_row
  find_row-same laws id other [] e = refl
  find_row-same laws id other (x ∷ rows) e = ground (
    arith,
    e,
    laws.same_trans x.id id other,
    laws.same_trans x.id other id,
    laws.same_sym id other,
    find_row-same laws id other rows e,
  )

  -- What is found with a new row in front is the new row or was there before.
  pub new_or_old :
      (id : String) (m : Notification) (ts : ℕ) (rows : List NotificationRow)
      (row : NotificationRow)
      → find_row P id (new_row m ts ∷ rows) ≡ some row
      → (P.same_text m.id id ≡ true) ⊎ (find_row P id rows ≡ some row)
  unfolding find_row
  new_or_old id m ts rows row h = elim (Bool-cases (P.same_text m.id id)) [
    | inl hit ↦ inl hit
    | inr miss ↦ inr (ground (arith, miss, h))
  ]
