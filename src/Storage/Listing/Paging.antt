-- ===== src/Storage/Listing/Paging.antt =====
-- A client that follows the cursors of `list_messages` sees every wanted message once, in order.
use quick_mail.Prelude.{
  ℕ, zero, suc, ◌+◌, ◌<◌, String, Bool, true, false, Option, none, some, ◌≡◌, sym, ◌∙◌, ap, arith,
  List, [], ◌∷◌, ◌++◌, All, length, take, drop, ltb, filter, Bool-cases, inl, inr, subst, ◌==◌,
  string_eq, take-append-drop, take_of_length-le,
}
use native.Mathlib.Numerals.{add-one}
use mathlib.Core.List.{append_assoc}
use quick_mail.Models.{MessageSummary}
use quick_mail.Provider.{MessageQuery}
use quick_mail.Storage.Table.{IsKeyed}
use quick_mail.Storage.Schema.{MessageRow, Repository, message_key}
use quick_mail.Storage.Serde.{Serde}
use quick_mail.Storage.Order.{order_by}
use quick_mail.Storage.Order.Sorting.{IsOrdered}
use quick_mail.Storage.Order.Filtering.{filter-filter, order_by-filter}
use quick_mail.Storage.Result.{Result, ok, ◌>>=◌}
use quick_mail.Storage.Listing.{
  Position, position, newest_first, is_wanted, is_past, message_list_query, list_messages, page_of,
  clamp_limit, encode_cursor, decode_cursor, decode_query_cursor, run_search, unless_blank,
  get_last?, below,
}
use quick_mail.Storage.Listing.Positions.{
  filter-below, newest_first_trans, newest_first_irrefl, newest_first_neg_trans,
}
use quick_mail.Storage.Listing.Pages.{
  split_page, All-middle, length-drop_lt, take-take-suc, length-take-suc, Reads, Reads-collect,
  Reads-take, Reads-drop, Reads-last, Reads-length, summary_position,
}

module _ {Json Text : Type 0} (serde : Serde Json Text) where
  -- Asks for pages until one has no cursor, with at most `fuel` questions.
  pub walk : ℕ → MessageQuery → Repository Text → Result (List (MessageSummary Json))
  walk zero query r = ok []
  walk (suc fuel) query r = list_messages serde query r >>= λ page. elim page.next_cursor [
    | none ↦ ok page.messages
    | some cursor ↦
        walk fuel (record query { cursor = some cursor }) r >>= λ rest. ok (page.messages ++ rest)
  ]

  -- A cursor is read back as the place of its message.
  decode-encode :
      (m : MessageSummary Json)
      → (m.id == "") ≡ false
      → decode_query_cursor serde (some (encode_cursor serde m)) ≡ ok (some (m.timestamp, m.id))
  unfolding decode_query_cursor encode_cursor decode_cursor
  decode-encode m h = ground (arith, serde.cursor.round_trip (m.timestamp, m.id))

  clamp_positive : (n : ℕ) → 0 < clamp_limit n
  unfolding clamp_limit
  clamp_positive n = ground arith

  last_page :
      (n : ℕ) (out : List (MessageSummary Json))
      → ltb n (length out) ≡ false
      → page_of serde n (take (n + 1) out) ≡ record { messages = out; next_cursor = none }
  unfolding page_of
  last_page n out h = rw (
    add-one n,
    take-take-suc n out,
    length-take-suc n out,
    h,
    take_of_length-le n out (ground arith),
  )

  full_page :
      (n : ℕ) (out : List (MessageSummary Json)) (m : MessageSummary Json)
      → ltb n (length out) ≡ true
      → get_last? (take n out) ≡ some m
      → page_of serde n (take (n + 1) out)
        ≡ record { messages = take n out; next_cursor = some (encode_cursor serde m) }
  unfolding page_of
  full_page n out m h last = rw (add-one n, take-take-suc n out, length-take-suc n out, h, last)

  module _ (r : Repository Text) (query : MessageQuery)
      (search : Option (String → String → String → String → Bool))
      (searched : run_search serde (unless_blank query.search) ≡ ok search) where
    -- The messages that the query asks for, newest first.
    abbrev pub wanted_rows : List (MessageRow Text)
    wanted_rows = order_by newest_first (filter (is_wanted query search) r.messages)

    abbrev limit : ℕ
    limit = clamp_limit query.limit

    selected :
        (cursor : Option Position) (text : Option String)
        → message_list_query (record query { cursor = text }) cursor search (limit + 1) r.messages
          ≡ take (limit + 1) (filter (is_past cursor) wanted_rows)
    unfolding message_list_query is_wanted
    selected cursor text = rw (
      filter-filter (is_wanted query search) (is_past cursor) r.messages,
      order_by-filter newest_first newest_first_trans newest_first_irrefl newest_first_neg_trans
          (is_past cursor) (filter (is_wanted query search) r.messages),
    )

    answer :
        (cursor : Option Position) (text : Option String) (rows : List (MessageRow Text))
        (out : List (MessageSummary Json))
        → decode_query_cursor serde text ≡ ok cursor
        → filter (is_past cursor) wanted_rows ≡ rows
        → Reads serde rows out
        → list_messages serde (record query { cursor = text }) r
          ≡ ok (page_of serde limit (take (limit + 1) out))
    unfolding list_messages
    answer cursor text rows out decoded rest reads = rw (
      decoded,
      searched,
      selected cursor text,
      rest,
      Reads-collect serde (take (limit + 1) rows) (take (limit + 1) out)
          (Reads-take serde (limit + 1) rows out reads),
    )

    module _ (ordered : IsOrdered newest_first wanted_rows)
        (keyed : IsKeyed message_key wanted_rows)
        (named : All (λ row. (row.id == "") ≡ false) wanted_rows) where
      regroup :
          (pre above : List (MessageRow Text)) (x : MessageRow Text) (rest : List (MessageRow Text))
          → pre ++ (above ++ x ∷ rest) ≡ (pre ++ (above ++ x ∷ [])) ++ rest
      regroup pre above x rest = simp append_assoc

      -- The cursor of a page selects what stands after the page.
      next_rows :
          (pre above : List (MessageRow Text)) (x : MessageRow Text) (rest : List (MessageRow Text))
          → wanted_rows ≡ pre ++ (above ++ x ∷ rest)
          → filter (λ q. below (position q) (position x)) wanted_rows ≡ rest
      next_rows pre above x rest whole =
          let joined : wanted_rows ≡ (pre ++ above) ++ x ∷ rest =
            whole ∙ sym (append_assoc pre above (x ∷ rest)) in
          rw joined (
            filter-below (pre ++ above) x rest (subst (IsOrdered newest_first) joined ordered)
              (subst (IsKeyed message_key) joined keyed))

      pub walk_loop :
          (fuel : ℕ) (cursor : Option Position) (text : Option String)
          (pre rows : List (MessageRow Text)) (out : List (MessageSummary Json))
          → decode_query_cursor serde text ≡ ok cursor
          → filter (is_past cursor) wanted_rows ≡ rows
          → wanted_rows ≡ pre ++ rows
          → Reads serde rows out
          → length out < fuel
          → walk fuel (record query { cursor = text }) r ≡ ok out
      unfolding walk
      walk_loop zero cursor text pre rows out decoded rest whole reads enough = absurd (omega arith)
      walk_loop (suc fuel) cursor text pre rows out decoded rest whole reads enough =
          rw (answer cursor text rows out decoded rest reads)
            (elim (Bool-cases (ltb limit (length out))) [
              | inr last ↦ rw (last_page limit out last)
              | inl more ↦
                  let same = Reads-length serde rows out reads in
                  let (above, x, taken, split) =
                    split_page limit rows (clamp_positive query.limit) (ground arith) in
                  let (m, is_last, read) = Reads-last serde above x (take limit out) (
                    subst (λ t. Reads serde t (take limit out)) taken
                      (Reads-take serde limit rows out reads)) in
                  let place = summary_position serde x m read in
                  let split' : wanted_rows ≡ pre ++ (above ++ x ∷ drop limit rows) =
                    whole ∙ ap (λ t. pre ++ t) split in
                  let id_named : (m.id == "") ≡ false = rw place.1 (
                    All-middle (λ row. (row.id == "") ≡ false) (pre ++ above) x (drop limit rows)
                      (subst (All (λ row. (row.id == "") ≡ false))
                        (split' ∙ sym (append_assoc pre above (x ∷ drop limit rows))) named)) in
                  let rest' : filter (is_past (some (m.timestamp, m.id))) wanted_rows
                      ≡ drop limit rows =
                    rw (place.0, place.1) (next_rows pre above x (drop limit rows) split') in
                  rw (
                    full_page limit out m more is_last,
                    walk_loop fuel (some (m.timestamp, m.id)) (some (encode_cursor serde m))
                        (pre ++ (above ++ x ∷ [])) (drop limit rows) (drop limit out)
                        (decode-encode m id_named) rest'
                        (split' ∙ regroup pre above x (drop limit rows))
                        (Reads-drop serde limit rows out reads)
                        (omega (
                          arith,
                          length-drop_lt limit out (clamp_positive query.limit) (ground arith),
                        )),
                    take-append-drop limit out,
                  )
            ])
