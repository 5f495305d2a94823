-- ===== src/Storage/Database/Keeping.antt =====
-- Properties that the statements of crates/quickmaild/src/storage.rs keep, and the steps of its
-- methods.
use quick_mail.Prelude.{
  ℕ, ◌+◌, true, ℤ, String, Bool, ◌≡◌, ◌++◌, Bool-cases, inl, inr, not, ◌&&◌, none, some, List, [],
  ◌∷◌, any, string_eq, pair_eq, ◌==◌, if◌then◌else◌,
}
use quick_mail.Models.{Mailbox, Message, MessageSummary}
use quick_mail.Models.Ids.{is_normalized_message_id}
use quick_mail.Provider.{MailAction, mark_read, star, archive, trash, move, set_labels}
use quick_mail.Storage.Scope.{contains, delete_owned, operation_payload_belongs_to_account}
use quick_mail.Storage.Mailboxes.{upsert_each_mailbox}
use quick_mail.Storage.Messages.{upsert_each_message}
use quick_mail.Storage.SyncPage.{is_empty, upsert_each_summary}
use quick_mail.Storage.Actions.{apply_action_locally}
use quick_mail.Storage.Operations.{
  Outcome, done, settle, is_deferrable, insert_operation, finish_operation, defer_operation,
  finish_agenda_operation_in_transaction,
}
use quick_mail.Storage.Table.{find, has, update, delete}
use quick_mail.Storage.Schema.{OperationRow, Repository, account_key, operation_key, fits_i64}
use quick_mail.Storage.Serde.{Serde}
use quick_mail.Storage.Revision.{
  bump_revision, read_revision, bump_revision-Ensures, read_revision-Ensures,
}
use quick_mail.Storage.Result.{
  Result, ok, err, not_found, invalid_data, ◌>>=◌, Ensures, Ensures-bind, Ensures-guard, Ensures-if,
  Ensures-Unit, returns, fails,
}

-- A property of the revision and the operations that the statements of all methods keep. `fresh`
-- says which ids new operations may have.
pub record Kept {Text : Type 0} (fresh : String → Bool) (Q : ℕ → List (OperationRow Text) → Type 0)
    : Type 0 where
  pub bumps : (n : ℕ) (rows : List (OperationRow Text)) → Q n rows → Q (n + 1) rows
  pub inserts :
      (o : OperationRow Text) (n : ℕ) (rows : List (OperationRow Text))
      → fresh o.id ≡ true
      → Q n rows
      → Q n (rows ++ o ∷ [])
  pub settles :
      (now : ℤ) (id : String) (outcome : Outcome) (n : ℕ) (rows : List (OperationRow Text))
      → Q n rows
      → Q n (update (λ o. o.id == id) (settle now outcome) rows)
  pub puts_off :
      (now : ℤ) (id error : String) (n : ℕ) (rows : List (OperationRow Text))
      → Q n rows
      → Q n (
          update
            (is_deferrable id)
            (λ o. record o { state = "pending"; attempted_at = some now; last_error = some error })
            rows)
  pub deletes :
      (test : OperationRow Text → Bool) (n : ℕ) (rows : List (OperationRow Text))
      → Q n rows
      → Q n (delete test rows)

abbrev pub Holds :
    {Text : Type 0} → (ℕ → List (OperationRow Text) → Type 0) → Repository Text → Type 0
Holds Q r = Q r.revision r.operations

module _ {Text : Type 0} {fresh : String → Bool} {Q : ℕ → List (OperationRow Text) → Type 0}
    (kept : Kept fresh Q) where
  pub bumped :
      (r : Repository Text)
      → Holds Q r
      → Ensures {A = Repository Text × ℕ} (λ p. Holds Q p.0) (bump_revision r)
  bumped r h = bump_revision-Ensures (Holds Q) r (kept.bumps r.revision r.operations h)

  pub unchanged :
      (r : Repository Text)
      → Holds Q r
      → Ensures {A = Repository Text × ℕ} (λ p. Holds Q p.0) (read_revision r >>= λ k. ok (r, k))
  unchanged r h = read_revision-Ensures (Holds Q) r h

  pub upsert_each_mailbox-keeps :
      (mailboxes : List Mailbox) (r : Repository Text)
      → Holds Q r
      → Ensures (Holds Q) (upsert_each_mailbox mailboxes r)
  unfolding upsert_each_mailbox
  upsert_each_mailbox-keeps [] r h = returns r h
  upsert_each_mailbox-keeps (m ∷ mailboxes) r h =
      Ensures-guard (fits_i64 m.unread && fits_i64 m.total) _ (λ _.
        Ensures-guard (has account_key m.account_id r.accounts) _
          (λ _. upsert_each_mailbox-keeps mailboxes _ h))

  pub remove_account_operations-keeps :
      {Json : Type 0} (serde : Serde Json Text) (id : String) (n : ℕ)
      (selected rows : List (OperationRow Text))
      → Q n rows
      → Q n (delete_owned serde id selected rows)
  unfolding delete_owned
  remove_account_operations-keeps serde id n [] rows h = h
  remove_account_operations-keeps serde id n (o ∷ selected) rows h =
      elim (Bool-cases (operation_payload_belongs_to_account serde o.kind o.payload_json id)) [
        | inl owned ↦
            rw owned
              (remove_account_operations-keeps serde id n selected _ (kept.deletes _ n rows h))
        | inr other ↦ rw other (remove_account_operations-keeps serde id n selected rows h)
      ]

  pub insert_operation-keeps :
      (now : ℤ) (uuid kind : String) (payload : Text) (r : Repository Text)
      → fresh uuid ≡ true
      → Holds Q r
      → Ensures (Holds Q) (insert_operation now uuid kind payload r)
  unfolding insert_operation
  insert_operation-keeps now uuid kind payload r new h =
      Ensures-guard (not (has operation_key uuid r.operations)) _
        (λ _. returns _ (kept.inserts _ r.revision r.operations new h))

  pub finish_operation-keeps :
      (now : ℤ) (id : String) (outcome : Outcome) (r : Repository Text)
      → Holds Q r
      → Ensures (Holds Q) (finish_operation now id outcome r)
  unfolding finish_operation
  finish_operation-keeps now id outcome r h =
      Ensures-guard (has operation_key id r.operations) _
        (λ _. returns _ (kept.settles now id outcome r.revision r.operations h))

  pub defer_operation-keeps :
      (now : ℤ) (id error : String) (r : Repository Text)
      → Holds Q r
      → Ensures (Holds Q) (defer_operation now id error r)
  unfolding defer_operation
  defer_operation-keeps now id error r h =
      Ensures-guard (any (is_deferrable id) r.operations) _
        (λ _. returns _ (kept.puts_off now id error r.revision r.operations h))

  finish_agenda-keeps :
      (now : ℤ) (id : String) (kinds : List String) (r : Repository Text)
      → Holds Q r
      → Ensures (Holds Q) (finish_agenda_operation_in_transaction now id kinds r)
  unfolding finish_agenda_operation_in_transaction
  finish_agenda-keeps now id kinds r h =
      elim (find operation_key id r.operations)
        as (λ found. Ensures (Holds Q) (elim found [
          | none ↦ err not_found
          | some o ↦
              if contains kinds o.kind && o.state == "pending"
              then ok (record r {
                operations = update (λ q. q.id == id) (settle now done) r.operations;
              })
              else err (invalid_data "agenda operation cannot be committed in its current state")
        ])) [
          | none ↦ fails _
          | some o ↦
              Ensures-if (contains kinds o.kind && o.state == "pending")
                (λ _. returns _ (kept.settles now id done r.revision r.operations h)) (λ _. fails _)
        ]

  -- A change of one table, checked by `step`.
  pub after_step :
      {A : Type 0} (step : Result A) (change : A → Repository Text)
      → ((a : A) → Holds Q (change a))
      → Ensures {A = Repository Text × ℕ}
          (λ p. Holds Q p.0)
          (step >>= λ a. bump_revision (change a))
  after_step step change h =
      Ensures-bind {Q = λ _. Unit} (Ensures-Unit step) (λ a _. bumped (change a) (h a))

  pub committed_step :
      {A : Type 0} (step : Result A) (change : A → Repository Text) (now : ℤ) (id : String)
      (kinds : List String)
      → ((a : A) → Holds Q (change a))
      → Ensures {A = Repository Text × ℕ}
          (λ p. Holds Q p.0)
          (step >>= λ a.
            finish_agenda_operation_in_transaction now id kinds (change a) >>= bump_revision)
  committed_step step change now id kinds h =
      Ensures-bind {Q = λ _. Unit} (Ensures-Unit step)
        (λ a _. Ensures-bind (finish_agenda-keeps now id kinds (change a) (h a)) bumped)

  pub queued :
      {A : Type 0} (now : ℤ) (uuid kind : String) (payload : Text) (answer : A)
      (r : Repository Text)
      → fresh uuid ≡ true
      → Holds Q r
      → Ensures {A = Repository Text × A × ℕ}
          (λ p. Holds Q p.0)
          (insert_operation now uuid kind payload r >>= λ q.
            bump_revision q >>= λ p. ok (p.0, answer, p.1))
  queued now uuid kind payload answer r new h =
      Ensures-bind (insert_operation-keeps now uuid kind payload r new h)
        (λ q g. Ensures-bind (bumped q g) (λ p k. returns _ k))

module _ {Json Text : Type 0} (serde : Serde Json Text) {fresh : String → Bool}
    {Q : ℕ → List (OperationRow Text) → Type 0} (kept : Kept fresh Q) where
  pub upsert_each_message-keeps :
      (now : ℤ) (loaded : Bool) (messages : List (Message Json)) (r : Repository Text)
      → Holds Q r
      → Ensures (Holds Q) (upsert_each_message serde now loaded messages r)
  unfolding upsert_each_message
  upsert_each_message-keeps now loaded [] r h = returns r h
  upsert_each_message-keeps now loaded (m ∷ messages) r h =
      Ensures-guard (is_normalized_message_id m.summary.account_id m.summary.id) _ (λ _.
        Ensures-guard (has account_key m.summary.account_id r.accounts) _
          (λ _. upsert_each_message-keeps now loaded messages _ h))

  pub upsert_each_summary-keeps :
      (now : ℤ) (messages : List (MessageSummary Json)) (r : Repository Text)
      → Holds Q r
      → Ensures (Holds Q) (upsert_each_summary serde now messages r)
  unfolding upsert_each_summary
  upsert_each_summary-keeps now [] r h = returns r h
  upsert_each_summary-keeps now (m ∷ messages) r h =
      Ensures-guard (has account_key m.account_id r.accounts) _
        (λ _. upsert_each_summary-keeps now messages _ h)

  pub apply_action_locally-keeps :
      (now : ℤ) (action : MailAction) (r : Repository Text)
      → Holds Q r
      → Ensures (Holds Q) (apply_action_locally serde now action r)
  unfolding apply_action_locally
  apply_action_locally-keeps now (mark_read ids read) r h =
      Ensures-guard (not (is_empty ids)) _ (λ _. returns _ h)
  apply_action_locally-keeps now (star ids starred) r h =
      Ensures-guard (not (is_empty ids)) _ (λ _. returns _ h)
  apply_action_locally-keeps now (archive ids) r h = returns _ h
  apply_action_locally-keeps now (trash ids) r h = returns _ h
  apply_action_locally-keeps now (move ids mailbox_id) r h = returns _ h
  apply_action_locally-keeps now (set_labels ids labels) r h = returns _ h
