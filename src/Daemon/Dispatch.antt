-- ===== src/Daemon/Dispatch.antt =====
-- `apply_provider_action` of crates/quickmaild/src/daemon.rs: the messages of an action go to the
-- providers that own them.
pub mod Groups
pub mod Owners
use Prim.Native.String.{◌++◌, len}
use quick_mail.Prelude.{
  ℕ, String, Bool, true, false, Option, none, some, List, [], ◌∷◌, ◌++◌ as ◌++ᴸ◌, ◌==◌, string_eq,
  ltb, if◌then◌else◌,
}
use quick_mail.Imap.Error.{Reply, done, fail}
use quick_mail.Imap.Session.{Step, after, ◌>>=◌, ◌>>◌, pure, lift}
use quick_mail.Models.Ids.{is_normalized_message_id}
use quick_mail.Provider.{
  ProviderError, MailAction, mark_read, star, archive, trash, move, set_labels,
}

unfoldable pub action_message_ids : MailAction → List String
action_message_ids (mark_read message_ids is_read) = message_ids
action_message_ids (star message_ids starred) = message_ids
action_message_ids (archive message_ids) = message_ids
action_message_ids (trash message_ids) = message_ids
action_message_ids (move message_ids mailbox_id) = message_ids
action_message_ids (set_labels message_ids labels) = message_ids

unfoldable pub action_with_ids : MailAction → List String → MailAction
action_with_ids (mark_read _ is_read) message_ids = mark_read message_ids is_read
action_with_ids (star _ starred) message_ids = star message_ids starred
action_with_ids (archive _) message_ids = archive message_ids
action_with_ids (trash _) message_ids = trash message_ids
action_with_ids (move _ mailbox_id) message_ids = move message_ids mailbox_id
action_with_ids (set_labels _ labels) message_ids = set_labels message_ids labels

-- `max_by_key(len)`: the last of the longest. All of them begin the same id, so counting characters
-- orders them as counting bytes does.
abbrev longer : String → Option String → Option String
longer account_id none = some account_id
longer account_id (some other) =
    if ltb (len other) (len account_id) then some account_id else some other

-- The account that owns a message: the longest of those whose id the message's id starts with.
unfoldable pub owner_of : List String → String → Option String
unfolding is_normalized_message_id
owner_of [] id = none
owner_of (account_id ∷ accounts) id =
    let rest = owner_of accounts id in
    if is_normalized_message_id account_id id then longer account_id rest else rest

-- `grouped.entry(account_id).or_default().push(id)`.
unfoldable pub push_to : String → String → List (String × List String) → List (String × List String)
push_to account_id id [] = (account_id, id ∷ []) ∷ []
push_to account_id id ((other, ids) ∷ groups) =
    let rest = push_to account_id id groups in
    if other == account_id then (other, ids ++ᴸ (id ∷ [])) ∷ groups else (other, ids) ∷ rest

unfoldable pub group_ids :
    List String
    → List String
    → List (String × List String)
    → Reply ProviderError (List (String × List String))
unfolding owner_of push_to
group_ids accounts [] groups = done groups
group_ids accounts (id ∷ ids) groups = elim (owner_of accounts id) [
  | none ↦ fail (ProviderError.other ("no provider owns message " ++ id))
  | some account_id ↦ group_ids accounts ids (push_to account_id id groups)
]

-- The providers in turn, until one fails. `apply` is `MailProvider::apply_action` of an account.
unfoldable pub apply_groups :
    {S : Type 0}
    → (String → MailAction → Step S ProviderError (Unit {0}))
    → MailAction
    → List (String × List String)
    → Step S ProviderError (Unit {0})
unfolding action_with_ids
apply_groups apply action [] = pure tt
apply_groups apply action ((account_id, ids) ∷ groups) = do
  apply account_id (action_with_ids action ids)
  apply_groups apply action groups

unfoldable pub apply_provider_action :
    {S : Type 0}
    → List String
    → (String → MailAction → Step S ProviderError (Unit {0}))
    → MailAction
    → Step S ProviderError (Unit {0})
unfolding group_ids apply_groups action_message_ids
apply_provider_action accounts apply action = do
  groups ← lift (group_ids accounts (action_message_ids action) [])
  apply_groups apply action groups
