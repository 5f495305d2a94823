-- ===== src/Storage/Operations/Outcomes.antt =====
-- What `finish_mail_action` of crates/quickmaild/src/storage.rs does with the provider's answer.
use quick_mail.Prelude.{
  ℕ, ℤ, String, ◌&&◌, ◌≡◌, refl, sym, ap, subst, none, some, string_eq, if◌then◌else◌,
}
use quick_mail.Provider.{MailAction}
use quick_mail.Storage.Table.{find, has, IsKeyed}
use quick_mail.Storage.Schema.{Repository, message_key, operation_key}
use quick_mail.Storage.Scope.{contains}
use quick_mail.Storage.Serde.{Serde}
use quick_mail.Storage.Revision.{bump_revision-Ensures, read_revision-Ensures}
use quick_mail.Storage.Result.{ok, Ensures, Ensures-bind, Ensures-guard, Ensures-elim, returns}
use quick_mail.Storage.Actions.{message_ids}
use quick_mail.Storage.Actions.Effects.{shown_after, apply_action_locally-Applied}
use quick_mail.Storage.Operations.{
  Outcome, done, failed, is_done, finish_operation, finish_mail_action,
}

module _ {Json Text : Type 0} (serde : Serde Json Text) where
  -- When `finish_mail_action` has stored a provider's answer, a message that the action names shows
  -- the action's effect (read or unread, starred or not, gone, moved, relabelled) if the provider
  -- confirmed it, and every other message, or every message if the provider failed, shows what it
  -- showed before.
  pub find-finish_mail_action :
      (now : ℤ) (operation_id : String) (action : MailAction) (outcome : Outcome)
      (r r' : Repository Text) (n : ℕ) (id : String)
      → IsKeyed message_key r.messages
      → finish_mail_action serde now operation_id action outcome r ≡ ok (r', n)
      → find message_key id r'.messages ≡ (
          if is_done outcome && contains (message_ids action) id
          then elim (find message_key id r.messages) [
            | none ↦ none
            | some row ↦ shown_after serde now action row
          ]
          else find message_key id r.messages)
  unfolding finish_mail_action finish_operation
  find-finish_mail_action now operation_id action outcome r r' n id keyed h = go outcome h
    where
      same_messages :
          (outcome : Outcome)
          → Ensures (λ q. q.messages ≡ r.messages) (finish_operation now operation_id outcome r)
      same_messages outcome =
          Ensures-guard (has operation_key operation_id r.operations) _ (λ _. returns _ refl)

      go :
          (outcome : Outcome)
          → finish_mail_action serde now operation_id action outcome r ≡ ok (r', n)
          → find message_key id r'.messages ≡ (
              if is_done outcome && contains (message_ids action) id
              then elim (find message_key id r.messages) [
                | none ↦ none
                | some row ↦ shown_after serde now action row
              ]
              else find message_key id r.messages)
      go done h =
          Ensures-elim (finish_mail_action serde now operation_id action done r)
            (Ensures-bind (same_messages done) (λ q same.
              Ensures-bind
                (apply_action_locally-Applied serde now action q id
                  (subst (IsKeyed message_key) (sym same) keyed))
                (λ q' applied.
                  bump_revision-Ensures
                    (λ p. find message_key id p.messages ≡ (
                      if contains (message_ids action) id
                      then elim (find message_key id r.messages) [
                        | none ↦ none
                        | some row ↦ shown_after serde now action row
                      ]
                      else find message_key id r.messages))
                    q' (rw same at applied))))
            h
      go (failed error) h =
          Ensures-elim (finish_mail_action serde now operation_id action (failed error) r)
            (Ensures-bind (same_messages (failed error)) (λ q same.
              read_revision-Ensures
                (λ p. find message_key id p.messages ≡ find message_key id r.messages) q
                (ap (find message_key id) same)))
            h
