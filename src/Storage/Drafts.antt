-- ===== src/Storage/Drafts.antt =====
-- Drafts of crates/quickmaild/src/storage.rs. `uuid` is the text of `Uuid::new_v4()`.
pub mod RoundTrip
use quick_mail.Prelude.{
  ℕ, ℤ, String, Bool, true, false, ◌&&◌, Option, none, some, List, [], ◌∷◌, ◌==◌, string_eq, filter,
  ltb_ℤ, leb_ℤ, if◌then◌else◌,
}
use quick_mail.Provider.{OutgoingMessage}
use quick_mail.Storage.Table.{find, upsert, delete, has}
use quick_mail.Storage.Order.{order_by, text_ltb}
use quick_mail.Storage.Schema.{DraftRow, Repository, draft_key, account_key}
use quick_mail.Storage.Serde.{Serde}
use quick_mail.Storage.Revision.{bump_revision}
use quick_mail.Storage.Result.{Result, ok, err, sqlite, not_found, ◌>>=◌, ◌>>◌, guard}

pub record DraftSaved : Type 0 where
  pub draft_id : String
  pub updated_at : ℤ

pub record DraftRecord : Type 0 where
  pub draft_id : String
  pub message : OutgoingMessage
  pub updated_at : ℤ

module _ {Text : Type 0} where
  unfoldable pub merge_draft : DraftRow Text → DraftRow Text → DraftRow Text
  merge_draft old new = record new { id = old.id }

  -- `ORDER BY updated_at DESC, id DESC`.
  unfoldable pub draft_before : DraftRow Text → DraftRow Text → Bool
  draft_before a b =
      if ltb_ℤ b.updated_at a.updated_at
      then true
      else leb_ℤ b.updated_at a.updated_at && text_ltb b.id a.id

  unfoldable pub of_account : Option String → DraftRow Text → Bool
  of_account none d = true
  of_account (some account_id) d = d.account_id == account_id

  unfoldable pub delete_draft : String → Repository Text → Result (Repository Text × ℕ)
  delete_draft draft_id r = do
    guard (has draft_key draft_id r.drafts) not_found
    bump_revision (record r { drafts = delete (λ d. d.id == draft_id) r.drafts })

abbrev pub or_new : Option String → String → String
or_new none uuid = uuid
or_new (some id) uuid = id

module _ {Json Text : Type 0} (serde : Serde Json Text) where
  unfoldable pub save_draft :
      ℤ
      → String
      → Option String
      → OutgoingMessage
      → Repository Text
      → Result (Repository Text × DraftSaved × ℕ)
  save_draft now uuid draft_id message r = do
    let id = or_new draft_id uuid
    guard (has account_key message.account_id r.accounts) sqlite
    (r', revision) ← bump_revision (record r {
      drafts =
          upsert draft_key merge_draft
            (record {
              id = id;
              account_id = message.account_id;
              message_json = serde.outgoing.to_string message;
              updated_at = now;
            })
            r.drafts;
    })
    ok (r', record { draft_id = id; updated_at = now }, revision)

  unfoldable pub draft_record_from_row : DraftRow Text → Result DraftRecord
  draft_record_from_row row = elim (serde.outgoing.from_str row.message_json) [
    | none ↦ err sqlite
    | some message ↦
        if serde.valid_millis row.updated_at
        then ok (record { draft_id = row.id; message = message; updated_at = row.updated_at })
        else err sqlite
  ]

  unfoldable pub collect_drafts : List (DraftRow Text) → Result (List DraftRecord)
  unfolding draft_record_from_row
  collect_drafts [] = ok []
  collect_drafts (row ∷ rows) = do
    draft ← draft_record_from_row row
    drafts ← collect_drafts rows
    ok (draft ∷ drafts)

  unfoldable pub list_drafts : Option String → Repository Text → Result (List DraftRecord)
  list_drafts account_id r =
      collect_drafts (order_by draft_before (filter (of_account account_id) r.drafts))

  unfoldable pub get_draft : String → Repository Text → Result DraftRecord
  unfolding draft_record_from_row
  get_draft draft_id r = elim (find draft_key draft_id r.drafts) [
    | none ↦ err not_found
    | some row ↦ draft_record_from_row row
  ]
