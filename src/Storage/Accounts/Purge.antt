-- ===== src/Storage/Accounts/Purge.antt =====
-- What `upsert_account_config` and `remove_account` of crates/quickmaild/src/storage.rs leave
-- behind.
use quick_mail.Prelude.{
  ℕ, String, Bool, true, false, not, ◌&&◌, ◌≡◌, refl, ap, sym, ◌∙◌, List, [], ◌∷◌, All, All-imp,
  Bool-cases, inl, inr, any, filter, ◌==◌, string_eq, beq_refl, eq_of_beq, arith,
}
use text.Mathlib.TextEquality.{eq_iff}
use quick_mail.Storage.Table.{delete, has, IsKeyed}
use quick_mail.Storage.Table.Laws.{delete-All, delete-All_kept}
use quick_mail.Storage.Schema.{OperationRow, Repository, account_key, operation_key}
use quick_mail.Storage.Serde.{Serde}
use quick_mail.Storage.Scope.{
  in_calendar_scope, is_owned_kind, operation_payload_belongs_to_account, delete_owned,
  remove_account_operations,
}
use quick_mail.Storage.Revision.{bump_revision-Ensures}
use quick_mail.Storage.Result.{ok, Ensures-guard, Ensures-elim}
use quick_mail.Storage.Accounts.{delete_account_row, remove_account}

-- What a deletion keeps does not pass its test.
delete-gone {ℓ} :
    {R : Type ℓ} (test : R → Bool) (rows : List R) → All (λ r. test r ≡ false) (delete test rows)
unfolding delete
delete-gone test [] = tt
delete-gone test (r ∷ rows) = elim (Bool-cases (test r)) [
  | inl gone ↦ rw gone (delete-gone test rows)
  | inr kept ↦ rw kept (kept, delete-gone test rows)
]

-- A selection that the deletion does not touch.
filter-delete {ℓ} :
    {R : Type ℓ} (p test : R → Bool) (rows : List R)
    → ((r : R) → p r ≡ true → test r ≡ false)
    → filter p (delete test rows) ≡ filter p rows
unfolding delete
filter-delete p test [] h = refl
filter-delete p test (r ∷ rows) h = ground (arith, filter-delete p test rows h, h r)

filter-refused :
    {R : Type 0} (test : R → Bool) (rows : List R)
    → All (λ r. test r ≡ false) rows
    → filter (λ r. not (test r)) rows ≡ rows
filter-refused test [] h = refl
filter-refused test (r ∷ rows) h = rw (h.0) (ap (λ l. r ∷ l) (filter-refused test rows h.1))

-- A deletion of rows that the selection leaves out.
filter-kept :
    {R : Type 0} (gone test : R → Bool) (rows : List R)
    → All (λ r. gone r ≡ true → test r ≡ true) rows
    → filter (λ r. not (test r)) (delete gone rows) ≡ filter (λ r. not (test r)) rows
unfolding delete
filter-kept gone test [] h = refl
filter-kept gone test (r ∷ rows) h = elim (Bool-cases (gone r)) [
  | inl out ↦ rw (out, h.0 out) (filter-kept gone test rows h.1)
  | inr in_ ↦ ground (arith, in_, filter-kept gone test rows h.1)
]

All-both :
    {R : Type 0} (P Q S : R → Type 0) (rows : List R)
    → ((r : R) → P r → Q r → S r)
    → All P rows
    → All Q rows
    → All S rows
All-both P Q S [] f h g = tt
All-both P Q S (r ∷ rows) f h g = (f r h.0 g.0, All-both P Q S rows f h.1 g.1)

module _ {Json Text : Type 0} (serde : Serde Json Text) (id : String) where
  -- An operation that `remove_account_operations` is to remove.
  abbrev pub belongs : OperationRow Text → Bool
  belongs o =
      is_owned_kind o.kind && operation_payload_belongs_to_account serde o.kind o.payload_json id

  abbrev Listed : List (OperationRow Text) → OperationRow Text → Type 0
  Listed selected q =
      belongs q ≡ true
      → any
          (λ o. o.id == q.id && operation_payload_belongs_to_account serde o.kind o.payload_json id)
          selected
        ≡ true

  delete_owned-gone :
      (selected operations : List (OperationRow Text))
      → All (Listed selected) operations
      → All (λ q. belongs q ≡ false) (delete_owned serde id selected operations)
  unfolding delete_owned
  delete_owned-gone [] operations h =
      All-imp (Listed []) (λ q. belongs q ≡ false) operations (λ q l. ground (arith, l)) h
  delete_owned-gone (o ∷ selected) operations h =
      elim (Bool-cases (operation_payload_belongs_to_account serde o.kind o.payload_json id)) [
        | inl owned ↦ rw owned (
            delete_owned-gone selected (delete (λ q. q.id == o.id) operations) (
              delete-All_kept (Listed (o ∷ selected)) (Listed selected) _ operations
                (λ q l kept b. ground (arith, l b, eq_iff o.id q.id, eq_iff q.id o.id)) h))
        | inr other ↦ rw other (
            delete_owned-gone selected operations (
              All-imp (Listed (o ∷ selected)) (Listed selected) operations
                (λ q l b. ground (arith, l b, other)) h))
      ]

  listed :
      (operations : List (OperationRow Text))
      → All (Listed (filter (λ o. is_owned_kind o.kind) operations)) operations
  listed [] = tt
  listed (o ∷ operations) = (
    λ b. ground (arith, b, beq_refl o.id),
    All-imp (Listed (filter (λ q. is_owned_kind q.kind) operations))
        (Listed (filter (λ q. is_owned_kind q.kind) (o ∷ operations))) operations
        (λ q l b. ground (arith, l b)) (listed operations),
  )

  -- Nothing of the account is left: its row, and the rows of the other tables that name it.
  abbrev pub IsPurged : Repository Text → Type 0
  IsPurged r =
      All (λ a. (a.account.id == id) ≡ false) r.accounts
      × All (λ m. (m.account_id == id) ≡ false) r.mailboxes
      × All (λ s. (s.account_id == id) ≡ false) r.sync_state
      × All (λ m. (m.account_id == id) ≡ false) r.messages
      × All (λ d. (d.account_id == id) ≡ false) r.drafts
      × All (λ t. (t.account == id) ≡ false) r.tasks
      × All (λ e. in_calendar_scope id e.calendar_id ≡ false) r.events
      × All (λ o. belongs o ≡ false) r.operations

  -- After `remove_account` has succeeded, nothing of the account is left in any table: no account
  -- row, mailbox, sync cursor, message, draft or task that names it, no event of a calendar under
  -- it, and no operation of a known kind whose payload belongs to it.
  pub remove_account-IsPurged :
      (r r' : Repository Text) (n : ℕ) → remove_account serde id r ≡ ok (r', n) → IsPurged r'
  unfolding remove_account delete_account_row remove_account_operations
  remove_account-IsPurged r r' n h =
      Ensures-elim (remove_account serde id r)
        (Ensures-guard (has account_key id r.accounts) _ (λ _. bump_revision-Ensures IsPurged _ (
          delete-gone _ r.accounts,
          delete-gone _ r.mailboxes,
          delete-gone _ r.sync_state,
          delete-gone _ r.messages,
          delete-gone _ r.drafts,
          delete-gone _ r.tasks,
          delete-gone _ r.events,
          delete_owned-gone (filter (λ o. is_owned_kind o.kind) r.operations) r.operations
              (listed r.operations),
        )))
        h

  -- Of the operations in the table, only those to be removed have the id of this one.
  abbrev Only : List (OperationRow Text) → OperationRow Text → Type 0
  Only operations o =
      operation_payload_belongs_to_account serde o.kind o.payload_json id ≡ true
      → All (λ q. (q.id == o.id) ≡ true → belongs q ≡ true) operations

  apart_rows :
      (k : String) (rows : List (OperationRow Text))
      → has operation_key k rows ≡ false
      → All (λ q. (q.id == k) ≡ false) rows
  unfolding has
  apart_rows k [] h = tt
  apart_rows k (q ∷ rows) h = (ground (arith, h), apart_rows k rows (ground (arith, h)))

  Only-rows :
      (rows : List (OperationRow Text))
      → IsKeyed operation_key rows
      → All (λ o. is_owned_kind o.kind ≡ true → Only rows o) rows
  unfolding IsKeyed
  Only-rows [] keyed = tt
  Only-rows (o ∷ rows) keyed =
      let apart = apart_rows o.id rows keyed.0 in
      (
        λ kind owned. (
          λ same. ground (arith, kind, owned),
          All-imp (λ q. (q.id == o.id) ≡ false) (λ q. (q.id == o.id) ≡ true → belongs q ≡ true) rows
              (λ q other same. ground (arith, other, same)) apart,
        ),
        All-both _ _ _ rows
            (λ p other only kind owned. (
              λ same. ground (arith, other, same, eq_iff p.id o.id, eq_iff o.id p.id),
              only kind owned,
            ))
            apart (Only-rows rows keyed.1),
      )

  delete_owned-kept :
      (selected operations : List (OperationRow Text))
      → All (Only operations) selected
      → filter (λ q. not (belongs q)) (delete_owned serde id selected operations)
        ≡ filter (λ q. not (belongs q)) operations
  unfolding delete_owned
  delete_owned-kept [] operations h = refl
  delete_owned-kept (o ∷ selected) operations h =
      elim (Bool-cases (operation_payload_belongs_to_account serde o.kind o.payload_json id)) [
        | inl owned ↦
            let left = delete (λ q. q.id == o.id) operations in
            rw owned (
              delete_owned-kept selected left (
                All-imp (Only operations) (Only left) selected
                  (λ p only own. delete-All _ _ operations (only own)) h.1)
              ∙ filter-kept (λ q. q.id == o.id) belongs operations (h.0 owned))
        | inr other ↦ rw other (delete_owned-kept selected operations h.1)
      ]

  selected_rows :
      (P : OperationRow Text → Type 0) (rows : List (OperationRow Text))
      → All (λ o. is_owned_kind o.kind ≡ true → P o) rows
      → All P (filter (λ o. is_owned_kind o.kind) rows)
  selected_rows P [] h = tt
  selected_rows P (o ∷ rows) h = elim (Bool-cases (is_owned_kind o.kind)) [
    | inl kind ↦ rw kind (h.0 kind, selected_rows P rows h.1)
    | inr other ↦ rw other (selected_rows P rows h.1)
  ]

  operations_left :
      (r : Repository Text)
      → IsKeyed operation_key r.operations
      → remove_account_operations serde id r.operations ≡ filter (λ o. not (belongs o)) r.operations
  unfolding remove_account_operations
  operations_left r keyed =
      let selected = filter (λ o. is_owned_kind o.kind) r.operations in
      let gone = delete_owned-gone selected r.operations (listed r.operations) in
      sym (filter-refused belongs _ gone)
      ∙ delete_owned-kept selected r.operations
          (selected_rows (Only r.operations) r.operations (Only-rows r.operations keyed))

  -- The rows that are not the account's are as they were.
  abbrev pub Spared : String → Repository Text → Repository Text → Type 0
  Spared other r r' =
      (filter (λ a. a.account.id == other) r'.accounts
        ≡ filter (λ a. a.account.id == other) r.accounts)
      × (filter (λ m. m.account_id == other) r'.mailboxes
          ≡ filter (λ m. m.account_id == other) r.mailboxes)
      × (filter (λ s. s.account_id == other) r'.sync_state
          ≡ filter (λ s. s.account_id == other) r.sync_state)
      × (filter (λ m. m.account_id == other) r'.messages
          ≡ filter (λ m. m.account_id == other) r.messages)
      × (filter (λ d. d.account_id == other) r'.drafts
          ≡ filter (λ d. d.account_id == other) r.drafts)
      × (filter (λ t. t.account == other) r'.tasks ≡ filter (λ t. t.account == other) r.tasks)
      × (r'.events ≡ filter (λ e. not (in_calendar_scope id e.calendar_id)) r.events)
      × (r'.operations ≡ filter (λ o. not (belongs o)) r.operations)

  -- `remove_account` takes away what is the account's and nothing else. The rows of another account
  -- stay in each table whose rows name one account; all events stay but those whose calendar id
  -- begins with the account's id and a colon; and, where the ids of operations are unique, all
  -- operations stay but those whose payload belongs to the account.
  pub remove_account-others :
      (r r' : Repository Text) (n : ℕ) (other : String)
      → (other == id) ≡ false
      → IsKeyed operation_key r.operations
      → remove_account serde id r ≡ ok (r', n)
      → Spared other r r'
  unfolding remove_account delete_account_row remove_account_operations delete
  remove_account-others r r' n other apart keyed h =
      Ensures-elim (remove_account serde id r)
        (Ensures-guard (has account_key id r.accounts) _ (λ _.
          bump_revision-Ensures (Spared other r) _ (
            filter-delete _ _ r.accounts (λ a. apart_from a.account.id),
            filter-delete _ _ r.mailboxes (λ m. apart_from m.account_id),
            filter-delete _ _ r.sync_state (λ s. apart_from s.account_id),
            filter-delete _ _ r.messages (λ m. apart_from m.account_id),
            filter-delete _ _ r.drafts (λ d. apart_from d.account_id),
            filter-delete _ _ r.tasks (λ t. apart_from t.account),
            refl,
            operations_left r keyed,
          )))
        h
    where
      apart_from : (a : String) → (a == other) ≡ true → (a == id) ≡ false
      apart_from a e = rw (eq_of_beq a other e) apart
