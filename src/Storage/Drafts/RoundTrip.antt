-- ===== src/Storage/Drafts/RoundTrip.antt =====
-- Drafts written by `save_draft` of crates/quickmaild/src/storage.rs, and read by `get_draft`.
use quick_mail.Prelude.{ℕ, ℤ, String, true, ◌≡◌, refl, Option, none, some, string_eq, beq_refl}
use quick_mail.Provider.{OutgoingMessage}
use quick_mail.Storage.Table.{find, has, upsert}
use quick_mail.Storage.Table.Laws.{find-upsert, find-key}
use quick_mail.Storage.Schema.{DraftRow, Repository, draft_key, account_key}
use quick_mail.Storage.Serde.{Serde}
use quick_mail.Storage.Revision.{bump_revision-Ensures}
use quick_mail.Storage.Result.{ok, sqlite, Ensures-bind, Ensures-guard, Ensures-elim, returns}
use quick_mail.Storage.Drafts.{
  DraftSaved, merge_draft, or_new, save_draft, draft_record_from_row, get_draft,
}

module _ {Json Text : Type 0} (serde : Serde Json Text) (now : ℤ) (message : OutgoingMessage)
    (valid : serde.valid_millis now ≡ true) where
  abbrev draft_row : String → DraftRow Text
  draft_row id = record {
    id = id;
    account_id = message.account_id;
    message_json = serde.outgoing.to_string message;
    updated_at = now;
  }

  read_row :
      (id : String)
      → draft_record_from_row serde (draft_row id)
        ≡ ok (record { draft_id = id; message = message; updated_at = now })
  unfolding draft_record_from_row
  read_row id = rw (draft_record_from_row, serde.outgoing.round_trip message, valid)

  get_draft-stored :
      (id : String) (r q : Repository Text)
      → q.drafts ≡ upsert draft_key merge_draft (draft_row id) r.drafts
      → get_draft serde id q ≡ ok (record { draft_id = id; message = message; updated_at = now })
  unfolding merge_draft get_draft
  get_draft-stored id r q same = go (find draft_key id r.drafts) refl (
      rw (beq_refl id) at
        (find-upsert draft_key merge_draft (λ old new. refl) id (draft_row id) r.drafts))
    where
      go :
          (before : Option (DraftRow Text))
          → find draft_key id r.drafts ≡ before
          → find draft_key id (upsert draft_key merge_draft (draft_row id) r.drafts)
            ≡ some (elim before [ none ↦ draft_row id | some old ↦ merge_draft old (draft_row id) ])
          → get_draft serde id q
            ≡ ok (record { draft_id = id; message = message; updated_at = now })
      go none e stored = rw (get_draft, same, stored, read_row id)
      go (some old) e stored =
          rw (get_draft, same, stored, find-key draft_key id r.drafts e, read_row id)

module _ {Json Text : Type 0} (serde : Serde Json Text) where
  -- A draft that `save_draft` has stored at a time that chrono can represent, under a new id or over
  -- an older draft, is returned by `get_draft` under the id that `save_draft` answered, with the
  -- message and the time of the save.
  pub get_draft-save_draft :
      (now : ℤ) (uuid : String) (draft_id : Option String) (message : OutgoingMessage)
      (r r' : Repository Text) (saved : DraftSaved) (n : ℕ)
      → serde.valid_millis now ≡ true
      → save_draft serde now uuid draft_id message r ≡ ok (r', saved, n)
      → get_draft serde saved.draft_id r'
        ≡ ok (record { draft_id = or_new draft_id uuid; message = message; updated_at = now })
  unfolding save_draft
  get_draft-save_draft now uuid draft_id message r r' saved n valid h =
      Ensures-elim
        {P = λ p.
          get_draft serde p.1.draft_id p.0
          ≡ ok (record { draft_id = or_new draft_id uuid; message = message; updated_at = now })}
        (save_draft serde now uuid draft_id message r)
        (Ensures-guard (has account_key message.account_id r.accounts) sqlite (λ _.
          Ensures-bind
            (bump_revision-Ensures
              (λ q.
                get_draft serde (or_new draft_id uuid) q
                ≡ ok (record {
                  draft_id = or_new draft_id uuid;
                  message = message;
                  updated_at = now;
                }))
              _ (get_draft-stored serde now message valid (or_new draft_id uuid) r _ refl))
            (λ p read. returns _ read)))
        h
