-- ===== src/Storage/Actions/Effects.antt =====
-- What a mail action does to the messages of the cache: `apply_action_locally` of
-- crates/quickmaild/src/storage.rs.
use quick_mail.Prelude.{
  ℤ, String, Bool, true, false, not, ◌||◌, ◌≡◌, refl, ◌∙◌, ap, any, Option, none, some, List, [],
  ◌∷◌, ◌==◌, string_eq, arith, if◌then◌else◌,
}
use text.Mathlib.TextEquality.{eq_iff}
use quick_mail.Provider.{MailAction, mark_read, star, archive, trash, move, set_labels}
use quick_mail.Storage.Table.{find, update, delete, IsKeyed}
use quick_mail.Storage.Table.Laws.{find-update, find-delete, find-key, delete-IsKeyed}
use quick_mail.Storage.Schema.{MessageRow, Repository, message_key}
use quick_mail.Storage.Scope.{contains}
use quick_mail.Storage.Serde.{Serde}
use quick_mail.Storage.SyncPage.{is_empty}
use quick_mail.Storage.Result.{Ensures, Ensures-guard, returns}
use quick_mail.Storage.Actions.{message_ids, update_each, delete_each, apply_action_locally}

abbrev pub after {ℓ} : {A : Type ℓ} → (A → A) → Bool → Option A → Option A
after f test none = none
after f test (some a) = some (if test then f a else a)

after-after {ℓ} :
    {A : Type ℓ} (f : A → A) (s t : Bool) (o : Option A)
    → ((a : A) → f (f a) ≡ f a)
    → after f t (after f s o) ≡ after f (s || t) o
after-after f s t none once = refl
after-after f true true (some a) once = λ i. some (once a i)
after-after f true false (some a) once = refl
after-after f false t (some a) once = refl

after-false {ℓ} : {A : Type ℓ} (f : A → A) (o : Option A) → o ≡ after f false o
after-false f none = refl
after-false f (some a) = refl

module _ {Text : Type 0} where
  find-update_one :
      (f : MessageRow Text → MessageRow Text) (i id : String) (rows : List (MessageRow Text))
      → ((row : MessageRow Text) → (f row).id ≡ row.id)
      → find message_key id (update (λ row. row.id == i) f rows)
        ≡ after f (i == id) (find message_key id rows)
  find-update_one f i id rows keeps = go (find message_key id rows) refl
    where
      go :
          (found : Option (MessageRow Text))
          → find message_key id rows ≡ found
          → find message_key id (update (λ row. row.id == i) f rows) ≡ after f (i == id) found
      go none e = ground (arith, find-update message_key (λ row. row.id == i) f keeps id rows, e)
      go (some row) e = ground (
        arith,
        find-update message_key (λ row. row.id == i) f keeps id rows,
        e,
        find-key message_key id rows e,
        eq_iff row.id i,
        eq_iff i id,
      )

  -- Once is as good as twice, so an id that is named twice does no harm.
  find-update_each :
      (f : MessageRow Text → MessageRow Text) (ids : List String) (id : String)
      (rows : List (MessageRow Text))
      → ((row : MessageRow Text) → (f row).id ≡ row.id)
      → ((row : MessageRow Text) → f (f row) ≡ f row)
      → find message_key id (update_each f ids rows)
        ≡ after f (contains ids id) (find message_key id rows)
  unfolding update_each contains
  find-update_each f [] id rows keeps once = after-false f (find message_key id rows)
  find-update_each f (i ∷ ids) id rows keeps once =
      find-update_each f ids id (update (λ row. row.id == i) f rows) keeps once
      ∙ ap (after f (any (λ k. k == id) ids)) (find-update_one f i id rows keeps)
      ∙ after-after f (i == id) (any (λ k. k == id) ids) (find message_key id rows) once

  find-delete_each :
      (ids : List String) (id : String) (rows : List (MessageRow Text))
      → IsKeyed message_key rows
      → find message_key id (delete_each ids rows)
        ≡ (if contains ids id then none else find message_key id rows)
  unfolding delete_each contains
  find-delete_each [] id rows keyed = refl
  find-delete_each (i ∷ ids) id rows keyed =
      find-delete_each ids id (delete (λ row. row.id == i) rows)
        (delete-IsKeyed message_key (λ row. row.id == i) rows keyed)
      ∙ go (find message_key id rows) refl
    where
      go :
          (found : Option (MessageRow Text))
          → find message_key id rows ≡ found
          → (if any (λ k. k == id) ids
              then none
              else find message_key id (delete (λ row. row.id == i) rows))
            ≡ (if i == id || any (λ k. k == id) ids then none else found)
      go none e = ground (arith, find-delete message_key (λ row. row.id == i) id rows keyed, e)
      go (some row) e = ground (
        arith,
        find-delete message_key (λ row. row.id == i) id rows keyed,
        e,
        find-key message_key id rows e,
        eq_iff row.id i,
        eq_iff i id,
      )

module _ {Json Text : Type 0} (serde : Serde Json Text) where
  -- What a confirmed action makes of a message that it names: a changed row, or nothing.
  abbrev pub shown_after : ℤ → MailAction → MessageRow Text → Option (MessageRow Text)
  shown_after now (mark_read ids read) row = some (record row { is_read = read })
  shown_after now (star ids starred) row = some (record row { starred = starred })
  shown_after now (archive ids) row = none
  shown_after now (trash ids) row = none
  shown_after now (move ids mailbox_id) row =
      some (record row { mailbox_id = some mailbox_id; updated_at = now })
  shown_after now (set_labels ids labels) row =
      some (record row { labels_json = serde.labels.to_string labels; updated_at = now })

  -- What is shown under an id once the action is applied.
  abbrev pub Applied : ℤ → MailAction → Repository Text → String → Repository Text → Type 0
  Applied now action r id r' = find message_key id r'.messages ≡ (
      if contains (message_ids action) id
      then elim (find message_key id r.messages) [
        | none ↦ none
        | some row ↦ shown_after now action row
      ]
      else find message_key id r.messages)

  as_shown :
      (f : MessageRow Text → MessageRow Text) (test : Bool) (o : Option (MessageRow Text))
      → after f test o ≡ (if test then elim o [ none ↦ none | some row ↦ some (f row) ] else o)
  as_shown f true none = refl
  as_shown f false none = refl
  as_shown f true (some row) = refl
  as_shown f false (some row) = refl

  gone_shown :
      (test : Bool) (o : Option (MessageRow Text))
      → (if test then none else o) ≡ (if test then elim o [ none ↦ none | some row ↦ none ] else o)
  gone_shown true none = refl
  gone_shown true (some row) = refl
  gone_shown false o = refl

  pub apply_action_locally-Applied :
      (now : ℤ) (action : MailAction) (r : Repository Text) (id : String)
      → IsKeyed message_key r.messages
      → Ensures (Applied now action r id) (apply_action_locally serde now action r)
  unfolding apply_action_locally
  apply_action_locally-Applied now (mark_read ids read) r id keyed =
      Ensures-guard (not (is_empty ids)) _ (λ _. returns _ (
        find-update_each (λ row. record row { is_read = read }) ids id r.messages (λ row. refl)
          (λ row. refl)
        ∙ as_shown _ (contains ids id) (find message_key id r.messages)))
  apply_action_locally-Applied now (star ids starred) r id keyed =
      Ensures-guard (not (is_empty ids)) _ (λ _. returns _ (
        find-update_each (λ row. record row { starred = starred }) ids id r.messages (λ row. refl)
          (λ row. refl)
        ∙ as_shown _ (contains ids id) (find message_key id r.messages)))
  apply_action_locally-Applied now (archive ids) r id keyed = returns _ (
      find-delete_each ids id r.messages keyed
      ∙ gone_shown (contains ids id) (find message_key id r.messages))
  apply_action_locally-Applied now (trash ids) r id keyed = returns _ (
      find-delete_each ids id r.messages keyed
      ∙ gone_shown (contains ids id) (find message_key id r.messages))
  apply_action_locally-Applied now (move ids mailbox_id) r id keyed = returns _ (
      find-update_each (λ row. record row { mailbox_id = some mailbox_id; updated_at = now }) ids id
        r.messages (λ row. refl) (λ row. refl)
      ∙ as_shown _ (contains ids id) (find message_key id r.messages))
  apply_action_locally-Applied now (set_labels ids labels) r id keyed = returns _ (
      find-update_each
        (λ row. record row { labels_json = serde.labels.to_string labels; updated_at = now }) ids id
        r.messages (λ row. refl) (λ row. refl)
      ∙ as_shown _ (contains ids id) (find message_key id r.messages))
