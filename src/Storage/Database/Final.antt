-- ===== src/Storage/Database/Final.antt =====
-- What no later call does to an operation of crates/quickmaild/src/storage.rs whose outcome is
-- stored.
use quick_mail.Prelude.{
  Bool, not, All, ◌++◌, ℤ, String, true, false, ◌&&◌, ◌≡◌, refl, Option, none, some, List, [], ◌∷◌,
  any, all, string_eq, ◌==◌, arith, if◌then◌else◌,
}
use quick_mail.Storage.Table.{find, has, update}
use quick_mail.Storage.Table.Laws.{update-All, delete-All}
use quick_mail.Storage.Schema.{OperationRow, Repository, operation_key}
use quick_mail.Storage.Serde.{Serde}
use quick_mail.Storage.Scope.{contains}
use quick_mail.Storage.Operations.{
  Outcome, done, failed, outcome_state, settle, is_deferrable, finish_operation, defer_operation,
  finish_agenda_operation_in_transaction,
}
use quick_mail.Storage.Result.{
  ok, err, not_found, invalid_data, Ensures, Ensures-elim, Ensures-guard, Ensures-if, returns,
  fails,
}
use quick_mail.Storage.Database.{Call, serve}
use quick_mail.Storage.Database.Keeping.{Kept}
use quick_mail.Storage.Database.Histories.{draws, serve-keeps}

-- No row has this id and waits.
abbrev NotWaiting : {Text : Type 0} → String → List (OperationRow Text) → Type 0
NotWaiting op rows = All (λ o. (o.id == op && o.state == "pending") ≡ false) rows

abbrev IsSettled : {Text : Type 0} → String → Repository Text → Type 0
IsSettled op r = NotWaiting op r.operations

settled_state : (outcome : Outcome) → (outcome_state outcome == "pending") ≡ false
settled_state done = refl
settled_state (failed error) = refl

abbrev is_apart : String → String → Bool
is_apart op uuid = not (uuid == op)

-- The call enters no operation under this id: the ids are new UUIDs.
abbrev pub draws_apart : {Json : Type 0} → String → Call Json → Bool
draws_apart op c = draws (is_apart op) c

module _ {Text : Type 0} (op : String) where
  inserted :
      (rows : List (OperationRow Text)) (o : OperationRow Text)
      → (o.id == op && o.state == "pending") ≡ false
      → NotWaiting op rows
      → NotWaiting op (rows ++ o ∷ [])
  inserted [] o fresh h = (fresh, tt)
  inserted (q ∷ rows) o fresh h = (h.0, inserted rows o fresh h.1)

  settled :
      (now : ℤ) (id : String) (outcome : Outcome) (rows : List (OperationRow Text))
      → NotWaiting op rows
      → NotWaiting op (update (λ o. o.id == id) (settle now outcome) rows)
  settled now id outcome rows h =
      update-All _ (λ o. o.id == id) (settle now outcome) rows
        (λ o p. ground (arith, settled_state outcome)) h

  settled_now :
      (now : ℤ) (outcome : Outcome) (rows : List (OperationRow Text))
      → NotWaiting op (update (λ o. o.id == op) (settle now outcome) rows)
  unfolding update
  settled_now now outcome [] = tt
  settled_now now outcome (o ∷ rows) =
      (ground (arith, settled_state outcome), settled_now now outcome rows)

  -- A row that is put off was waiting before.
  put_off :
      (now : ℤ) (id error : String) (rows : List (OperationRow Text))
      → NotWaiting op rows
      → NotWaiting op (
          update
            (is_deferrable id)
            (λ o. record o { state = "pending"; attempted_at = some now; last_error = some error })
            rows)
  unfolding update is_deferrable
  put_off now id error [] h = tt
  put_off now id error (o ∷ rows) h = (ground (arith, h.0), put_off now id error rows h.1)

  NotWaiting-Kept : Kept (is_apart op) (λ n rows. NotWaiting {Text = Text} op rows)
  NotWaiting-Kept = record {
    bumps = λ n rows h. h;
    inserts = λ o n rows fresh h. inserted rows o (ground (arith, fresh)) h;
    settles = λ now id outcome n rows h. settled now id outcome rows h;
    puts_off = λ now id error n rows h. put_off now id error rows h;
    deletes = λ test n rows h. delete-All _ test rows h;
  }

module _ {Json Text : Type 0} (serde : Serde Json Text) (op : String) where
  not_deferrable :
      (rows : List (OperationRow Text)) → NotWaiting op rows → any (is_deferrable op) rows ≡ false
  unfolding is_deferrable
  not_deferrable [] h = refl
  not_deferrable (o ∷ rows) h = ground (arith, h.0, not_deferrable rows h.1)

  found_settled :
      (rows : List (OperationRow Text))
      → NotWaiting op rows
      → elim (find operation_key op rows) [ none ↦ false | some o ↦ o.state == "pending" ] ≡ false
  unfolding find
  found_settled [] h = refl
  found_settled (o ∷ rows) h = ground (arith, h.0, found_settled rows h.1)

  -- A settled operation takes part in no commit.
  no_commit :
      (now : ℤ) (kinds : List String) (r r' : Repository Text)
      → IsSettled op r
      → ¬ (finish_agenda_operation_in_transaction now op kinds r ≡ ok r')
  unfolding finish_agenda_operation_in_transaction
  no_commit now kinds r r' settled h =
      go (find operation_key op r.operations) (found_settled r.operations settled) h
    where
      go :
          (found : Option (OperationRow Text))
          → elim found [ none ↦ false | some o ↦ o.state == "pending" ] ≡ false
          → elim found [
            | none ↦ err not_found
            | some o ↦
                if contains kinds o.kind && o.state == "pending"
                then ok (record r {
                  operations = update (λ q. q.id == op) (settle now done) r.operations;
                })
                else err (invalid_data "agenda operation cannot be committed in its current state")
          ]
            ≡ ok r'
          → ⊥
      go none e h = cc
      go (some o) e h = ground (arith, e, h)

  no_defer :
      (now : ℤ) (error : String) (r : Repository Text)
      → IsSettled op r
      → defer_operation now op error r ≡ err not_found
  unfolding defer_operation
  no_defer now error r settled = rw (not_deferrable r.operations settled)

  finished :
      (now : ℤ) (outcome : Outcome) (r : Repository Text)
      → Ensures (IsSettled op) (finish_operation now op outcome r)
  unfolding finish_operation
  finished now outcome r =
      Ensures-guard (has operation_key op r.operations) _
        (λ _. returns _ (settled_now op now outcome r.operations))

  agenda_finished :
      (now : ℤ) (kinds : List String) (r : Repository Text)
      → Ensures (IsSettled op) (finish_agenda_operation_in_transaction now op kinds r)
  unfolding finish_agenda_operation_in_transaction
  agenda_finished now kinds r =
      elim (find operation_key op r.operations)
        as (λ found. Ensures (IsSettled op) (elim found [
          | none ↦ err not_found
          | some o ↦
              if contains kinds o.kind && o.state == "pending"
              then ok (record r {
                operations = update (λ q. q.id == op) (settle now done) r.operations;
              })
              else err (invalid_data "agenda operation cannot be committed in its current state")
        ])) [
          | none ↦ fails _
          | some o ↦
              Ensures-if (contains kinds o.kind && o.state == "pending")
                (λ _. returns _ (settled_now op now done r.operations)) (λ _. fails _)
        ]

  -- Once `finish_operation` has stored a provider's answer, whatever it was, the operation is never
  -- pending again: after any list of calls that the database serves later, failed ones included, in
  -- which no new operation is entered under the same id, a commit of the operation does not succeed,
  -- and `defer_operation` finds no such operation.
  pub finish_operation-final :
      (now later : ℤ) (error : String) (outcome : Outcome) (kinds : List String)
      (calls : List (Call Json)) (r r' r'' : Repository Text)
      → finish_operation now op outcome r ≡ ok r'
      → all (draws_apart op) calls ≡ true
      → (¬ (finish_agenda_operation_in_transaction later op kinds (serve serde calls r') ≡ ok r''))
        × (defer_operation later op error (serve serde calls r') ≡ err not_found)
  finish_operation-final now later error outcome kinds calls r r' r'' h d =
      let settled =
        serve-keeps serde (NotWaiting-Kept op) calls r' d
          (Ensures-elim (finish_operation now op outcome r) (finished now outcome r) h) in
      (no_commit later kinds _ r'' settled, no_defer later error _ settled)

  -- An agenda operation is committed at most once: after a commit, and any list of calls that the
  -- database serves later, failed ones included, in which no new operation is entered under the same
  -- id, no commit of the operation succeeds, of whatever kinds, and it cannot be deferred.
  pub finish_agenda_operation_in_transaction-once :
      (now later : ℤ) (error : String) (kinds kinds' : List String) (calls : List (Call Json))
      (r r' r'' : Repository Text)
      → finish_agenda_operation_in_transaction now op kinds r ≡ ok r'
      → all (draws_apart op) calls ≡ true
      → (¬ (finish_agenda_operation_in_transaction later op kinds' (serve serde calls r') ≡ ok r''))
        × (defer_operation later op error (serve serde calls r') ≡ err not_found)
  finish_agenda_operation_in_transaction-once now later error kinds kinds' calls r r' r'' h d =
      let settled = serve-keeps serde (NotWaiting-Kept op) calls r' d (
        Ensures-elim (finish_agenda_operation_in_transaction now op kinds r)
          (agenda_finished now kinds r) h) in
      (no_commit later kinds' _ r'' settled, no_defer later error _ settled)
