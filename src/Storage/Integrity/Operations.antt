-- ===== src/Storage/Integrity/Operations.antt =====
-- The operations on the `operations` table keep the integrity of the cache.
use text.Mathlib.TextEquality.{eq_iff}
use quick_mail.Prelude.{
  ℕ, ℤ, String, false, not, ◌&&◌, ◌||◌, ◌≡◌, refl, List, [], ◌∷◌, ◌++◌, any, string_eq, ◌==◌, arith,
}
use quick_mail.Provider.{MailAction, OutgoingMessage}
use quick_mail.Storage.Table.{IsKeyed, has}
use quick_mail.Storage.Schema.{OperationRow, Repository, operation_key}
use quick_mail.Storage.Serde.{Serde}
use quick_mail.Storage.Scope.{is_agenda_kind}
use quick_mail.Storage.Actions.{validate_mail_action, is_blank}
use quick_mail.Storage.Operations.{
  Outcome, is_done, settle, insert_operation, finish_operation, is_deferrable, defer_operation,
  apply_mail_action, finish_mail_action, queue_outgoing, queue_agenda_operation,
}
use quick_mail.Storage.Revision.{bump_revision}
use quick_mail.Storage.Result.{
  ok, ◌>>=◌, Ensures, Ensures-bind, Ensures-guard, Ensures-if, Ensures-Unit, returns,
}
use quick_mail.Storage.Integrity.{IsSound}
use quick_mail.Storage.Integrity.Tables.{
  set_operations, Sound, bump_revision-Sound, read_revision-Sound,
}
use quick_mail.Storage.Integrity.AgendaCalls.{update_operations}
use quick_mail.Storage.Integrity.Messages.{apply_action_locally-Sound}

module _ {Text : Type 0} where
  has-append_one :
      (k : String) (o : OperationRow Text) (rows : List (OperationRow Text))
      → has operation_key k (rows ++ o ∷ []) ≡ (has operation_key k rows || o.id == k)
  unfolding has
  has-append_one k o [] = ground arith
  has-append_one k o (q ∷ rows) = ground (arith, has-append_one k o rows)

  append_one-IsKeyed :
      (o : OperationRow Text) (rows : List (OperationRow Text))
      → has operation_key o.id rows ≡ false
      → IsKeyed operation_key rows
      → IsKeyed operation_key (rows ++ o ∷ [])
  unfolding has IsKeyed
  append_one-IsKeyed o [] fresh h = (refl, tt)
  append_one-IsKeyed o (q ∷ rows) fresh h = (
    ground (arith, has-append_one q.id o rows, eq_iff q.id o.id, eq_iff o.id q.id),
    append_one-IsKeyed o rows (ground arith) h.1,
  )

  insert_operation-Sound :
      (now : ℤ) (uuid kind : String) (payload : Text) (r : Repository Text)
      → IsSound r
      → Ensures IsSound (insert_operation now uuid kind payload r)
  unfolding insert_operation
  insert_operation-Sound now uuid kind payload r h =
      Ensures-guard (not (has operation_key uuid r.operations)) _ (λ fresh. returns _ (
        set_operations r h _ (append_one-IsKeyed _ r.operations (ground arith) h.operations_keyed)))

  pub finish_operation-Sound :
      (now : ℤ) (id : String) (outcome : Outcome) (r : Repository Text)
      → IsSound r
      → Ensures IsSound (finish_operation now id outcome r)
  unfolding finish_operation
  finish_operation-Sound now id outcome r h =
      Ensures-guard (has operation_key id r.operations) _
        (λ _. returns _ (update_operations _ (settle now outcome) (λ o. refl) r h))

  pub defer_operation-Sound :
      (now : ℤ) (id error : String) (r : Repository Text)
      → IsSound r
      → Ensures IsSound (defer_operation now id error r)
  unfolding defer_operation
  defer_operation-Sound now id error r h =
      Ensures-guard (any (is_deferrable id) r.operations) _
        (λ _. returns _ (update_operations _ _ (λ o. refl) r h))

  queue :
      (now : ℤ) (uuid kind : String) (payload : Text) (r : Repository Text)
      → IsSound r
      → Ensures
          (λ p. IsSound p.0)
          (do
            queued ← insert_operation now uuid kind payload r
            (r', revision) ← bump_revision queued
            ok (let answer : Repository Text × String × ℕ = (r', uuid, revision) in answer))
  queue now uuid kind payload r h =
      Ensures-bind (insert_operation-Sound now uuid kind payload r h) (λ queued sound.
        Ensures-bind (bump_revision-Sound queued sound) (λ p sound'. returns _ sound'))

module _ {Json Text : Type 0} (serde : Serde Json Text) where
  pub apply_mail_action-Sound :
      (now : ℤ) (uuid : String) (action : MailAction) (r : Repository Text)
      → IsSound r
      → Ensures (λ p. IsSound p.0) (apply_mail_action serde now uuid action r)
  unfolding apply_mail_action
  apply_mail_action-Sound now uuid action r h =
      Ensures-bind (Ensures-Unit (validate_mail_action action))
        (λ _ _. queue now uuid "mail_action" (serde.mail_action action) r h)

  pub queue_outgoing-Sound :
      (now : ℤ) (uuid : String) (message : OutgoingMessage) (r : Repository Text)
      → IsSound r
      → Ensures (λ p. IsSound p.0) (queue_outgoing serde now uuid message r)
  unfolding queue_outgoing
  queue_outgoing-Sound now uuid message r h = queue now uuid "mail_send" _ r h

  pub queue_agenda_operation-Sound :
      (now : ℤ) (uuid kind account_id : String) (payload : Json) (r : Repository Text)
      → IsSound r
      → Ensures (λ p. IsSound p.0) (queue_agenda_operation serde now uuid kind account_id payload r)
  unfolding queue_agenda_operation
  queue_agenda_operation-Sound now uuid kind account_id payload r h =
      Ensures-guard (is_agenda_kind kind && (not (is_blank account_id) && serde.is_object payload))
        _ (λ _. queue now uuid kind _ r h)

  pub finish_mail_action-Sound :
      (now : ℤ) (id : String) (action : MailAction) (outcome : Outcome) (r : Repository Text)
      → IsSound r
      → Sound (finish_mail_action serde now id action outcome r)
  unfolding finish_mail_action
  finish_mail_action-Sound now id action outcome r h =
      Ensures-bind (finish_operation-Sound now id outcome r h) (λ settled sound.
        Ensures-if (is_done outcome)
          (λ _.
            Ensures-bind (apply_action_locally-Sound serde now action settled sound)
              bump_revision-Sound)
          (λ _. read_revision-Sound settled sound))
