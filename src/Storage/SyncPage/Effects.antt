-- ===== src/Storage/SyncPage/Effects.antt =====
-- The removals of `apply_mailbox_sync_page` of crates/quickmaild/src/storage.rs.
use quick_mail.Prelude.{
  String, Bool, true, false, not, ◌||◌, ◌&&◌, ◌≡◌, refl, none, some, List, [], ◌∷◌, All, All-imp,
  all, string_eq, pair_eq, ◌==◌, arith, Bool-cases, inl, inr,
}
use text.Mathlib.TextEquality.{eq_iff}
use quick_mail.Storage.Table.{find, has, delete, IsKeyed}
use quick_mail.Storage.Table.Laws.{has-delete, delete-All}
use quick_mail.Storage.Schema.{MessageRow, message_key}
use quick_mail.Storage.SyncPage.{in_mailbox, delete_removed}

pub all-All {ℓ} :
    {A : Type ℓ} (p : A → Bool) (xs : List A) → all p xs ≡ true → All (λ x. p x ≡ true) xs
all-All p [] h = tt
all-All p (x ∷ xs) h = (ground (arith, h), all-All p xs (ground (arith, h)))

module _ {Text : Type 0} (account_id mailbox_id : String) where
  -- The rows of the id, if any, lie in the mailbox.
  abbrev pub Resident : String → MessageRow Text → Type 0
  Resident id row = (not (row.id == id) || in_mailbox account_id mailbox_id row) ≡ true

  absent-Resident :
      (id : String) (rows : List (MessageRow Text))
      → has message_key id rows ≡ false
      → All (Resident id) rows
  unfolding has
  absent-Resident id [] h = tt
  absent-Resident id (row ∷ rows) h =
      (ground (arith, h), absent-Resident id rows (ground (arith, h)))

  pub removal_is_local-Resident :
      (id : String) (rows : List (MessageRow Text))
      → IsKeyed message_key rows
      → elim (find message_key id rows) [
        | none ↦ true
        | some row ↦ in_mailbox account_id mailbox_id row
      ]
        ≡ true
      → All (Resident id) rows
  unfolding find IsKeyed
  removal_is_local-Resident id [] keyed h = tt
  removal_is_local-Resident id (row ∷ rows) keyed h = elim (Bool-cases (row.id == id)) [
    | inl here ↦ (
      ground (arith, h, here),
      absent-Resident id rows (rw ((eq_iff row.id id).0 here) at keyed.0),
    )
    | inr other ↦ (ground (arith, other), removal_is_local-Resident id rows keyed.1 (rw other at h))
  ]

  delete_one-gone :
      (id : String) (rows : List (MessageRow Text))
      → All (Resident id) rows
      → has message_key id
          (delete (λ row. row.id == id && in_mailbox account_id mailbox_id row) rows)
        ≡ false
  unfolding has delete
  delete_one-gone id [] h = refl
  delete_one-gone id (row ∷ rows) h = ground (arith, h.0, delete_one-gone id rows h.1)

  still_gone :
      (id : String) (test : MessageRow Text → Bool) (rows : List (MessageRow Text))
      → has message_key id rows ≡ false
      → has message_key id (delete test rows) ≡ false
  still_gone id test rows h = ground (arith, has-delete message_key test id rows, h)

  delete_removed_keeps_gone :
      (id : String) (ids : List String) (rows : List (MessageRow Text))
      → has message_key id rows ≡ false
      → has message_key id (delete_removed account_id mailbox_id ids rows) ≡ false
  unfolding delete_removed
  delete_removed_keeps_gone id [] rows h = h
  delete_removed_keeps_gone id (i ∷ ids) rows h =
      delete_removed_keeps_gone id ids _ (still_gone id _ rows h)

  -- A removed id that lies in the mailbox is gone.
  pub delete_removed-gone :
      (ids : List String) (rows : List (MessageRow Text))
      → All (λ id. All (Resident id) rows) ids
      → All (λ id. has message_key id (delete_removed account_id mailbox_id ids rows) ≡ false) ids
  unfolding delete_removed
  delete_removed-gone [] rows h = tt
  delete_removed-gone (i ∷ ids) rows h = (
    delete_removed_keeps_gone i ids _ (delete_one-gone i rows h.0),
    delete_removed-gone ids _ (
        All-imp (λ id. All (Resident id) rows) _ ids
          (λ id local. delete-All (Resident id) _ rows local) h.1),
  )
