-- ===== src/Storage/Actions.antt =====
-- Mail actions of crates/quickmaild/src/storage.rs: their check, and their effect on the cache
-- once the provider has confirmed them.
pub mod Effects
use Prim.Native.Char.{code}
use quick_mail.Prelude.{
  ℕ, ℤ, String, Bool, true, false, not, ◌&&◌, ◌||◌, Option, none, some, List, [], ◌∷◌, ◌==◌,
  string_eq, leb, nat_beq, if◌then◌else◌,
}
use quick_mail.Provider.{MailAction, mark_read, star, archive, trash, move, set_labels}
use quick_mail.Storage.Table.{update, delete}
use quick_mail.Storage.Schema.{MessageRow, Repository}
use quick_mail.Storage.SyncPage.{is_empty}
use quick_mail.Storage.Serde.{Serde}
use quick_mail.Storage.Result.{Result, ok, err, invalid_data, ◌>>=◌, ◌>>◌, guard}

-- The characters that `str::trim` takes away: Unicode's White_Space.
unfoldable pub is_whitespace : ℕ → Bool
is_whitespace c =
    (leb 9 c && leb c 13)
    || (nat_beq c 32
        || (nat_beq c 0x85
            || (nat_beq c 0xa0
                || (nat_beq c 0x1680
                    || ((leb 0x2000 c && leb c 0x200a)
                        || (nat_beq c 0x2028
                            || (nat_beq c 0x2029
                                || (nat_beq c 0x202f
                                    || (nat_beq c 0x205f || nat_beq c 0x3000)))))))))

-- `text.trim().is_empty()`.
unfoldable pub is_blank : String → Bool
unfolding is_whitespace
is_blank String.[] = true
is_blank (String.◌∷◌ c s) = is_whitespace (code c) && is_blank s

abbrev pub message_ids : MailAction → List String
message_ids (mark_read ids read) = ids
message_ids (star ids starred) = ids
message_ids (archive ids) = ids
message_ids (trash ids) = ids
message_ids (move ids mailbox_id) = ids
message_ids (set_labels ids labels) = ids

abbrev has_no_destination : MailAction → Bool
has_no_destination (move ids mailbox_id) = is_blank mailbox_id
has_no_destination _ = false

unfoldable pub validate_mail_action : MailAction → Result (Unit {0})
unfolding is_blank
validate_mail_action action = do
  guard (not (is_empty (message_ids action))) (invalid_data "mail action has no message ids")
  guard (not (has_no_destination action)) (invalid_data "mail move has no destination mailbox")

module _ {Text : Type 0} where
  -- `UPDATE messages … WHERE id=?1`, for each id.
  unfoldable pub update_each :
      (MessageRow Text → MessageRow Text)
      → List String
      → List (MessageRow Text)
      → List (MessageRow Text)
  update_each f [] rows = rows
  update_each f (id ∷ ids) rows = update_each f ids (update (λ row. row.id == id) f rows)

  -- `DELETE FROM messages WHERE id=?1`, for each id.
  unfoldable pub delete_each : List String → List (MessageRow Text) → List (MessageRow Text)
  delete_each [] rows = rows
  delete_each (id ∷ ids) rows = delete_each ids (delete (λ row. row.id == id) rows)

module _ {Json Text : Type 0} (serde : Serde Json Text) where
  unfoldable pub apply_action_locally : ℤ → MailAction → Repository Text → Result (Repository Text)
  unfolding update_each delete_each
  apply_action_locally now (mark_read ids read) r = do
    guard (not (is_empty ids)) (invalid_data "mail action has no message ids")
    ok (record r { messages = update_each (λ row. record row { is_read = read }) ids r.messages })
  apply_action_locally now (star ids starred) r = do
    guard (not (is_empty ids)) (invalid_data "mail action has no message ids")
    ok (record r {
      messages = update_each (λ row. record row { starred = starred }) ids r.messages;
    })
  apply_action_locally now (archive ids) r = ok (record r { messages = delete_each ids r.messages })
  apply_action_locally now (trash ids) r = ok (record r { messages = delete_each ids r.messages })
  apply_action_locally now (move ids mailbox_id) r = ok (record r {
    messages =
        update_each (λ row. record row { mailbox_id = some mailbox_id; updated_at = now }) ids
          r.messages;
  })
  apply_action_locally now (set_labels ids labels) r = ok (record r {
    messages =
        update_each
          (λ row. record row { labels_json = serde.labels.to_string labels; updated_at = now }) ids
          r.messages;
  })
