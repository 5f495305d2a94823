-- ===== src/Storage/Integrity/Messages.antt =====
-- The message statements keep the integrity of the cache.
use text.Mathlib.TextEquality.{eq_iff}
use quick_mail.Prelude.{
  ℤ, String, Bool, true, not, ◌≡◌, refl, List, [], ◌∷◌, All, all, string_eq, pair_eq, arith, subst,
  sym,
}
use quick_mail.Models.{Message, MessageSummary}
use quick_mail.Models.Ids.{is_normalized_message_id}
use quick_mail.Provider.{MailAction, mark_read, star, archive, trash, move, set_labels}
use quick_mail.Storage.Table.{delete, upsert}
use quick_mail.Storage.Table.Laws.{
  upsert-IsKeyed, upsert-All, update-IsKeyed, update-All, delete-IsKeyed, delete-All,
}
use quick_mail.Storage.Schema.{MessageRow, Repository, message_key}
use quick_mail.Storage.Serde.{Serde}
use quick_mail.Storage.Messages.{
  merge_message, merge_summary, message_to_row, upsert_each_message,
  upsert_messages_with_body_state,
}
use quick_mail.Storage.SyncPage.{summary_to_row, upsert_each_summary, message_is_local, is_empty}
use quick_mail.Storage.Actions.{update_each, delete_each, apply_action_locally}
use quick_mail.Storage.Result.{Ensures, Ensures-bind, Ensures-guard, returns}
use quick_mail.Storage.Integrity.{IsSound, IsOwned, HasAccount}
use quick_mail.Storage.Integrity.Tables.{
  set_messages, Sound, bump_revision-Sound, read_revision-Sound,
}

module _ {Text : Type 0} where
  -- An upsert of an owned message, with a merge that takes the account of the new row.
  pub put_message :
      (merge : MessageRow Text → MessageRow Text → MessageRow Text)
      → ((old new : MessageRow Text) → (merge old new).id ≡ old.id)
      → ((old new : MessageRow Text) → (merge old new).account_id ≡ new.account_id)
      → (r : Repository Text) (row : MessageRow Text) → IsSound r
      → IsOwned r.accounts row
      → IsSound (record r { messages = upsert message_key merge row r.messages })
  put_message merge keeps moves r row h owned =
      set_messages r h _ (upsert-IsKeyed message_key merge keeps row r.messages h.messages_keyed) (
        upsert-All message_key merge keeps (IsOwned r.accounts) row r.messages owned
          (λ old _ same. (
            subst (HasAccount r.accounts) (sym (moves old row)) owned.0,
            cc (keeps old row, moves old row, owned.1, same),
          ))
          h.messages_owned)

  pub delete_messages :
      (test : MessageRow Text → Bool) (r : Repository Text)
      → IsSound r
      → IsSound (record r { messages = delete test r.messages })
  delete_messages test r h =
      set_messages r h _ (delete-IsKeyed message_key test r.messages h.messages_keyed)
        (delete-All (IsOwned r.accounts) test r.messages h.messages_owned)

  pub update_each-Sound :
      (f : MessageRow Text → MessageRow Text)
      → ((row : MessageRow Text) → ((f row).id ≡ row.id) × ((f row).account_id ≡ row.account_id))
      → (ids : List String) (r : Repository Text) → IsSound r
      → IsSound (record r { messages = update_each f ids r.messages })
  unfolding update_each
  update_each-Sound f keeps [] r h = h
  update_each-Sound f keeps (id ∷ ids) r h = update_each-Sound f keeps ids _ (
      set_messages r h _
        (update-IsKeyed message_key _ f (λ row. (keeps row).0) r.messages h.messages_keyed)
        (update-All (IsOwned r.accounts) _ f r.messages
          (λ row owned. (
            subst (HasAccount r.accounts) (sym (keeps row).1) owned.0,
            cc ((keeps row).0, (keeps row).1, owned.1),
          ))
          h.messages_owned))

  pub delete_each-Sound :
      (ids : List String) (r : Repository Text)
      → IsSound r
      → IsSound (record r { messages = delete_each ids r.messages })
  unfolding delete_each
  delete_each-Sound [] r h = h
  delete_each-Sound (id ∷ ids) r h = delete_each-Sound ids _ (delete_messages _ r h)

module _ {Json : Type 0} where
  pub local-normalized :
      (account_id mailbox_id : String) (messages : List (MessageSummary Json))
      → all (message_is_local account_id mailbox_id) messages ≡ true
      → All (λ s. is_normalized_message_id s.account_id s.id ≡ true) messages
  unfolding message_is_local
  local-normalized account_id mailbox_id [] h = tt
  local-normalized account_id mailbox_id (m ∷ messages) h = (
    ground (arith, eq_iff m.account_id account_id),
    local-normalized account_id mailbox_id messages (ground arith),
  )

module _ {Json Text : Type 0} (serde : Serde Json Text) where
  pub apply_action_locally-Sound :
      (now : ℤ) (action : MailAction) (r : Repository Text)
      → IsSound r
      → Ensures IsSound (apply_action_locally serde now action r)
  unfolding apply_action_locally
  apply_action_locally-Sound now (mark_read ids read) r h =
      Ensures-guard (not (is_empty ids)) _
        (λ _. returns _ (update_each-Sound _ (λ row. (refl, refl)) ids r h))
  apply_action_locally-Sound now (star ids starred) r h =
      Ensures-guard (not (is_empty ids)) _
        (λ _. returns _ (update_each-Sound _ (λ row. (refl, refl)) ids r h))
  apply_action_locally-Sound now (archive ids) r h = returns _ (delete_each-Sound ids r h)
  apply_action_locally-Sound now (trash ids) r h = returns _ (delete_each-Sound ids r h)
  apply_action_locally-Sound now (move ids mailbox_id) r h =
      returns _ (update_each-Sound _ (λ row. (refl, refl)) ids r h)
  apply_action_locally-Sound now (set_labels ids labels) r h =
      returns _ (update_each-Sound _ (λ row. (refl, refl)) ids r h)

  pub upsert_each_message-Sound :
      (now : ℤ) (loaded : Bool) (messages : List (Message Json)) (r : Repository Text)
      → IsSound r
      → Ensures IsSound (upsert_each_message serde now loaded messages r)
  unfolding upsert_each_message merge_message message_to_row
  upsert_each_message-Sound now loaded [] r h = returns r h
  upsert_each_message-Sound now loaded (m ∷ messages) r h = Ensures-guard _ _ (λ normalized.
      Ensures-guard _ _ (λ known. upsert_each_message-Sound now loaded messages _ (
        put_message merge_message (λ old new. refl) (λ old new. refl) r
          (message_to_row serde now loaded m) h (known, normalized))))

  pub upsert_messages_with_body_state-Sound :
      (now : ℤ) (messages : List (Message Json)) (loaded : Bool) (r : Repository Text)
      → IsSound r
      → Sound (upsert_messages_with_body_state serde now messages loaded r)
  unfolding upsert_messages_with_body_state
  upsert_messages_with_body_state-Sound now [] loaded r h = read_revision-Sound r h
  upsert_messages_with_body_state-Sound now (m ∷ messages) loaded r h =
      Ensures-bind (upsert_each_message-Sound now loaded (m ∷ messages) r h) bump_revision-Sound

  pub upsert_each_summary-Sound :
      (now : ℤ) (summaries : List (MessageSummary Json)) (r : Repository Text)
      → All (λ s. is_normalized_message_id s.account_id s.id ≡ true) summaries
      → IsSound r
      → Ensures
          (λ r'. IsSound r' × (r'.mailboxes ≡ r.mailboxes))
          (upsert_each_summary serde now summaries r)
  unfolding upsert_each_summary
  upsert_each_summary-Sound now [] r n h = returns r (h, refl)
  upsert_each_summary-Sound now (s ∷ summaries) r n h = Ensures-guard _ _ (λ known.
      upsert_each_summary-Sound now summaries _ n.1 (
        put_message merge_summary (λ old new. refl) (λ old new. refl) r (summary_to_row serde now s)
          h (known, n.0)))
