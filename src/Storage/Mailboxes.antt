-- ===== src/Storage/Mailboxes.antt =====
-- Mailboxes of crates/quickmaild/src/storage.rs, and the cursors of their synchronisation.
use quick_mail.Prelude.{
  ℕ, String, Bool, true, ◌&&◌, Option, none, some, List, [], ◌∷◌, map, ◌==◌, string_eq, pair_eq,
  filter, ltb, nat_beq, if◌then◌else◌, ◌≡◌, refl,
}
use quick_mail.Models.{Mailbox, MailboxRole, inbox, drafts, sent, archive, trash, spam, other}
use quick_mail.Storage.Table.{find, upsert, has}
use quick_mail.Storage.Order.{order_by, nocase_ltb}
use quick_mail.Storage.Schema.{MailboxRow, Repository, mailbox_key, sync_key, account_key, fits_i64}
use quick_mail.Storage.Revision.{read_revision, bump_revision}
use quick_mail.Storage.Result.{Result, ok, sqlite, ◌>>=◌, ◌>>◌, guard}

unfoldable pub mailbox_role_name : MailboxRole → String
mailbox_role_name inbox = "inbox"
mailbox_role_name drafts = "drafts"
mailbox_role_name sent = "sent"
mailbox_role_name archive = "archive"
mailbox_role_name trash = "trash"
mailbox_role_name spam = "spam"
mailbox_role_name other = "other"

unfoldable pub parse_mailbox_role : String → MailboxRole
parse_mailbox_role role =
    if role == "inbox"
    then inbox
    else if role == "drafts"
    then drafts
    else if role == "sent"
    then sent
    else if role == "archive"
    then archive
    else if role == "trash"
    then trash
    else if role == "spam"
    then spam
    else other

abbrev pub option_map {ℓ κ} : {A : Type ℓ} {B : Type κ} → (A → B) → Option A → Option B
option_map f none = none
option_map f (some a) = some (f a)

unfoldable pub mailbox_to_row : Mailbox → MailboxRow
unfolding mailbox_role_name
mailbox_to_row m = record {
  id = m.id;
  account_id = m.account_id;
  name = m.name;
  role = option_map mailbox_role_name m.role;
  unread = m.unread;
  total = m.total;
}

unfoldable pub mailbox_from_row : MailboxRow → Mailbox
unfolding parse_mailbox_role
mailbox_from_row m = record {
  id = m.id;
  account_id = m.account_id;
  name = m.name;
  role = option_map parse_mailbox_role m.role;
  unread = m.unread;
  total = m.total;
}

-- Every column but the key takes the new value.
unfoldable pub merge_mailbox : MailboxRow → MailboxRow → MailboxRow
merge_mailbox old new = record new { id = old.id; account_id = old.account_id }

-- The `CASE role` of `list_mailboxes`.
unfoldable pub role_rank : Option String → ℕ
role_rank none = 6
role_rank (some role) =
    if role == "inbox"
    then 0
    else if role == "drafts"
    then 1
    else if role == "sent"
    then 2
    else if role == "archive"
    then 3
    else if role == "spam"
    then 4
    else if role == "trash"
    then 5
    else 6

unfoldable pub mailbox_before : MailboxRow → MailboxRow → Bool
unfolding role_rank
mailbox_before a b =
    if ltb (role_rank a.role) (role_rank b.role)
    then true
    else nat_beq (role_rank a.role) (role_rank b.role) && nocase_ltb a.name b.name

module _ {Text : Type 0} where
  -- The loop of `upsert_mailboxes`: the account has to exist (`REFERENCES accounts(id)`).
  unfoldable pub upsert_each_mailbox : List Mailbox → Repository Text → Result (Repository Text)
  upsert_each_mailbox [] r = ok r
  upsert_each_mailbox (m ∷ mailboxes) r = do
    guard (fits_i64 m.unread && fits_i64 m.total) sqlite
    guard (has account_key m.account_id r.accounts) sqlite
    upsert_each_mailbox mailboxes
        (record r { mailboxes = upsert mailbox_key merge_mailbox (mailbox_to_row m) r.mailboxes })

  unfoldable pub upsert_mailboxes : List Mailbox → Repository Text → Result (Repository Text × ℕ)
  upsert_mailboxes [] r = read_revision r >>= λ n. ok (r, n)
  upsert_mailboxes (m ∷ mailboxes) r = upsert_each_mailbox (m ∷ mailboxes) r >>= bump_revision

  unfoldable pub list_mailboxes : String → Repository Text → List Mailbox
  list_mailboxes account_id r =
      map mailbox_from_row
        (order_by mailbox_before (filter (λ m. m.account_id == account_id) r.mailboxes))

  unfoldable pub mailbox_sync_cursor : String → String → Repository Text → Option String
  mailbox_sync_cursor account_id mailbox_id r =
      option_map (λ row. row.cursor) (find sync_key (account_id, mailbox_id) r.sync_state)

-- The name of a role is read back as that role.
pub parse_mailbox_role-mailbox_role_name :
    (role : MailboxRole) → parse_mailbox_role (mailbox_role_name role) ≡ role
unfolding parse_mailbox_role mailbox_role_name
parse_mailbox_role-mailbox_role_name inbox = refl
parse_mailbox_role-mailbox_role_name drafts = refl
parse_mailbox_role-mailbox_role_name sent = refl
parse_mailbox_role-mailbox_role_name archive = refl
parse_mailbox_role-mailbox_role_name trash = refl
parse_mailbox_role-mailbox_role_name spam = refl
parse_mailbox_role-mailbox_role_name other = refl

role_round_trip :
    (role : Option MailboxRole)
    → option_map parse_mailbox_role (option_map mailbox_role_name role) ≡ role
role_round_trip none = refl
role_round_trip (some role) = rw (parse_mailbox_role-mailbox_role_name role)

-- What is stored of a mailbox is read back as the mailbox, its role included.
pub mailbox_from_row-mailbox_to_row : (m : Mailbox) → mailbox_from_row (mailbox_to_row m) ≡ m
unfolding mailbox_from_row mailbox_to_row
mailbox_from_row-mailbox_to_row m = λ i. record m { role = role_round_trip m.role i }
