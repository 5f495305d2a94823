-- ===== src/Tests/Integrity.antt =====
-- The integrity of the cache at concrete data.
use quick_mail.Prelude.{◌≤◌, pos, true, refl, List, [], ◌∷◌, string_eq, pair_eq}
use quick_mail.Storage.Database.Growth.{revision-serve}
use quick_mail.Storage.Integrity.{IsSound}
use quick_mail.Storage.Integrity.Calls.{serve-IsSound, empty-IsSound}
use quick_mail.Storage.Database.{
  Call, empty_repository, serve, upsert_account, upsert_messages_call, delete_task_call,
}
use quick_mail.Tests.Fixture.{Json, serde, stocked, account, message, null}

-- An account, a message of it, and a job that fails.
abbrev calls : List (Call Json)
calls =
    upsert_account (pos 1) (account "a") null
    ∷ upsert_messages_call (pos 2) (message "a:1" 1 ∷ []) true
    ∷ delete_task_call "t9"
    ∷ []

serve-IsSound_example : IsSound (serve serde calls empty_repository)
serve-IsSound_example = serve-IsSound serde calls empty_repository empty-IsSound

pub stocked-IsSound : IsSound stocked
unfolding quick_mail.Storage.Table.IsKeyed quick_mail.Storage.Table.has
    quick_mail.Models.Ids.is_normalized_message_id quick_mail.Storage.Agenda.task_conflict
    quick_mail.Storage.Agenda.event_conflict
stocked-IsSound = record {
  accounts_keyed = (refl, (refl, tt));
  mailboxes_keyed = (refl, tt);
  sync_keyed = (refl, tt);
  messages_keyed = (refl, (refl, tt));
  tasks_keyed = (refl, (refl, tt));
  events_keyed = (refl, tt);
  operations_keyed = (refl, (refl, tt));
  drafts_keyed = (refl, tt);
  mailboxes_owned = (refl, tt);
  sync_owned = (refl, tt);
  messages_owned = ((refl, refl), ((refl, refl), tt));
  drafts_owned = (refl, tt);
  tasks_external = (refl, (refl, tt));
  events_external = (refl, tt);
}

-- Among the calls, one that stores nothing.
revision-serve_example : 7 ≤ (serve serde calls stocked).revision
revision-serve_example = revision-serve serde calls stocked
