-- ===== src/Storage/Listing/Walks.antt =====
-- All pages of `list_messages` of crates/quickmaild/src/storage.rs, asked for one after another.
use quick_mail.Prelude.{
  ℕ, ◌<◌, String, Bool, false, Option, none, ◌≡◌, refl, subst, List, [], ◌∷◌, All-filter, All-imp,
  length, filter, string_eq, ◌==◌,
}
use quick_mail.Models.{MessageSummary}
use quick_mail.Models.Ids.{normalized-nonempty}
use quick_mail.Provider.{MessageQuery}
use quick_mail.Storage.Schema.{MessageRow, Repository, message_key}
use quick_mail.Storage.Serde.{Serde}
use quick_mail.Storage.Order.{order_by}
use quick_mail.Storage.Order.Sorting.{order_by-All, order_by-IsOrdered}
use quick_mail.Storage.Order.Filtering.{order_by-IsKeyed, filter-IsKeyed}
use quick_mail.Storage.Messages.{message_summary_from_row, collect_summaries}
use quick_mail.Storage.Result.{ok, bind-eq-ok, ok_inj}
use quick_mail.Storage.Integrity.{IsSound, IsOwned}
use quick_mail.Storage.Listing.{
  newest_first, is_wanted, run_search, unless_blank, decode_query_cursor, is_past,
}
use quick_mail.Storage.Listing.Positions.{
  newest_first_trans, newest_first_irrefl, newest_first_neg_trans,
}
use quick_mail.Storage.Listing.Pages.{Reads}
use quick_mail.Storage.Listing.Paging.{walk, wanted_rows, walk_loop}

module _ {Json Text : Type 0} (serde : Serde Json Text) where
  collect-Reads :
      (rows : List (MessageRow Text)) (messages : List (MessageSummary Json))
      → collect_summaries serde rows ≡ ok messages
      → Reads serde rows messages
  unfolding collect_summaries
  collect-Reads [] [] h = tt
  collect-Reads [] (m ∷ messages) h = absurd cc
  collect-Reads (row ∷ rows) messages h =
      let (m, read, h') = bind-eq-ok (message_summary_from_row serde row) _ h in
      let (ms, reads, h'') = bind-eq-ok (collect_summaries serde rows) _ h' in
      subst (Reads serde (row ∷ rows)) (ok_inj h'') (read, collect-Reads rows ms reads)

  -- A client asks `list_messages` for a first page and follows `next_cursor` until a page has none.
  -- In a sound cache, where the search parses and the wanted messages can be read, the pages
  -- together are all wanted messages, each once, newest first, whatever the page size; the client
  -- needs no more than one question per message and one more.
  pub walk_complete :
      (r : Repository Text) (query : MessageQuery)
      (search : Option (String → String → String → String → Bool))
      (out : List (MessageSummary Json)) (fuel : ℕ)
      → IsSound r
      → run_search serde (unless_blank query.search) ≡ ok search
      → collect_summaries serde (order_by newest_first (filter (is_wanted query search) r.messages))
        ≡ ok out
      → length out < fuel
      → walk serde fuel (record query { cursor = none }) r ≡ ok out
  unfolding decode_query_cursor
  walk_complete r query search out fuel sound searched reads enough =
      let keyed =
        order_by-IsKeyed message_key newest_first (filter (is_wanted query search) r.messages) (
          filter-IsKeyed message_key newest_first (is_wanted query search) r.messages
            sound.messages_keyed) in
      let named =
        order_by-All newest_first (λ row. (row.id == "") ≡ false)
          (filter (is_wanted query search) r.messages)
          (All-filter (λ row. (row.id == "") ≡ false) (is_wanted query search) r.messages
            (All-imp (IsOwned r.accounts) (λ row. (row.id == "") ≡ false) r.messages
              (λ row h. normalized-nonempty row.account_id row.id h.1) sound.messages_owned)) in
      walk_loop serde r query search searched
        (order_by-IsOrdered newest_first newest_first_trans newest_first_irrefl
          newest_first_neg_trans (filter (is_wanted query search) r.messages))
        keyed named fuel none none [] (wanted_rows serde r query search searched) out refl
        (all_kept (wanted_rows serde r query search searched)) refl
        (collect-Reads (wanted_rows serde r query search searched) out reads) enough
    where
      all_kept : (rows : List (MessageRow Text)) → filter (is_past none) rows ≡ rows
      all_kept [] = refl
      all_kept (row ∷ rows) = λ i. row ∷ all_kept rows i
