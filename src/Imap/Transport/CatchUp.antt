-- ===== src/Imap/Transport/CatchUp.antt =====
-- Repeated incremental searches reach every message of a mailbox.
use Prim.Native.Nat.{min}
use quick_mail.Prelude.{
  ℕ, zero, suc, ◌+◌, ◌-◌, ◌^◌, ◌≤◌, ◌<◌, String, Bool, true, ◌&&◌, ◌||◌, some, List, [], ◌∷◌, ◌++◌,
  ◌≡◌, refl, arith, inl, inr, Bool-cases, ltb, leb, lt→ltb, lt→leb-false, le→ltb-false,
  if◌then◌else◌,
}
use quick_mail.Imap.Cursor.{SelectedMailbox, max_u32}
use quick_mail.Imap.Error.{done, ImapError}
use quick_mail.Imap.Search.{
  IncrementalUidPage, uid_range, checked_add, search_span, incremental_uid_search_range,
  incremental_uid_page,
}
use quick_mail.Imap.Search.Page.{incremental_uid_page_complete, incremental_uid_page-advances}
use quick_mail.Imap.Search.Sets.{has_uid}
use quick_mail.Imap.Session.{Step, Lane, ◌>>=◌, pure}
use quick_mail.Imap.Session.Retries.{run_session_operation-done}
use quick_mail.Imap.Transport.{Server, select_mailbox, search_in, search_uids_since}

-- What the protocol promises of a mailbox that holds these UIDs and does not change: it can be
-- selected, and a search of a range `a:b` of UIDs, `1 ≤ a ≤ b`, finds those in the range.
pub record Serves {W : Type 0} (server : Server W) (mailbox : String) (w : W) (uids : List ℕ)
    : Type 0 where
  pub selected : SelectedMailbox
  pub select_answers : select_mailbox server mailbox w ≡ (done selected, w)
  pub found : ℕ → ℕ → List ℕ
  pub search_answers :
      (a b : ℕ)
      → 1 ≤ a
      → a ≤ b
      → b ≤ max_u32
      → server.uid_search (uid_range a b) w ≡ (done (found a b), w)
  pub search_finds :
      (a b u : ℕ)
      → 1 ≤ a
      → a ≤ b
      → b ≤ max_u32
      → has_uid u (found a b) ≡ (has_uid u uids && (leb a u && leb u b))

-- The interval that the search is for.
range_of :
    (after_uid through_uid : ℕ)
    → after_uid < through_uid
    → through_uid ≤ max_u32
    → incremental_uid_search_range after_uid through_uid
      ≡ done (some (after_uid + 1, min through_uid (after_uid + search_span)))
unfolding incremental_uid_search_range checked_add
range_of after_uid through_uid lt small =
    rw
      (
        incremental_uid_search_range,
        lt→leb-false through_uid after_uid lt,
        checked_add,
        lt→ltb (after_uid + 1) (2 ^ 64) (omega arith),
        lt→ltb (after_uid + search_span) (2 ^ 64) (omega arith),
        le→ltb-false max_u32 (after_uid + 1) (omega arith),
        le→ltb-false max_u32 (min through_uid (after_uid + search_span)) (omega arith),
      )
      refl

module _ {W : Type 0} (server : Server W) (mailbox : String) (w : W) (all_uids : List ℕ)
    (serves : Serves server mailbox w all_uids) where
  abbrev lane : Lane W
  lane = record { is_open = true; world = w }

  search_in_answers :
      (a b : ℕ)
      → 1 ≤ a
      → a ≤ b
      → b ≤ max_u32
      → search_in server mailbox (uid_range a b) w ≡ (done (serves.found a b), w)
  unfolding search_in
  search_in_answers a b one ab hb =
      rw (search_in, serves.select_answers, serves.search_answers a b one ab hb) refl

  abbrev page : ℕ → ℕ → ℕ → IncrementalUidPage
  page after_uid through_uid limit =
      let covered = min through_uid (after_uid + search_span) in
      incremental_uid_page (serves.found (after_uid + 1) covered) after_uid covered limit

  search_uids_since_answers :
      (after_uid through_uid limit : ℕ)
      → after_uid < through_uid
      → through_uid ≤ max_u32
      → search_uids_since server mailbox after_uid through_uid limit lane
        ≡ (done (page after_uid through_uid limit), lane)
  unfolding search_uids_since
  search_uids_since_answers after_uid through_uid limit lt small =
      let covered = min through_uid (after_uid + search_span) in
      rw
        (
          search_uids_since,
          range_of after_uid through_uid lt small,
          run_session_operation-done server.connect true
              (search_in server mailbox (uid_range (after_uid + 1) covered)) w
              (serves.found (after_uid + 1) covered) w
              (search_in_answers (after_uid + 1) covered (omega arith) (omega arith) (omega arith)),
        )
        refl

-- Searches again from where the last page ended, until a page reaches the end; so many times.
unfoldable pub catch_up :
    {W : Type 0} → Server W → ℕ → String → ℕ → ℕ → ℕ → Step (Lane W) ImapError (List ℕ)
catch_up server zero mailbox after_uid through_uid limit = pure []
catch_up server (suc rounds) mailbox after_uid through_uid limit =
    if leb through_uid after_uid then pure [] else do
      page ← search_uids_since server mailbox after_uid through_uid limit
      rest ← catch_up server rounds mailbox page.high_uid through_uid limit
      pure (page.uids ++ rest)

has_uid-append : (u : ℕ) (xs ys : List ℕ) → has_uid u (xs ++ ys) ≡ (has_uid u xs || has_uid u ys)
unfolding has_uid
has_uid-append u [] ys = refl
has_uid-append u (x ∷ xs) ys = ground (arith, has_uid-append u xs ys)

-- Where a page moves on to.
page_moves :
    (after_uid through_uid covered high : ℕ)
    → after_uid < through_uid
    → covered ≡ min through_uid (after_uid + search_span)
    → after_uid < high
    → high ≤ covered
    → (high ≤ through_uid) × (through_uid - high < through_uid - after_uid)
page_moves after_uid through_uid covered high h e lt le = (omega arith, omega arith)

-- The UIDs of a page and those behind it are the UIDs of the range.
pages_join :
    (present : Bool) (u after_uid covered high through_uid : ℕ)
    → after_uid < high
    → high ≤ covered
    → covered ≤ through_uid
    → ((present && (leb (after_uid + 1) u && leb u covered))
          && (ltb after_uid u && (leb u covered && leb u high))
        || (present && (ltb high u && leb u through_uid)))
      ≡ (present && (ltb after_uid u && leb u through_uid))
pages_join present u after_uid covered high through_uid h h' h'' = ground arith

module _ {W : Type 0} (server : Server W) (mailbox : String) (w : W) (all_uids : List ℕ)
    (serves : Serves server mailbox w all_uids) where
  -- No UID lies in an empty range.
  no_uid :
      {after_uid through_uid : ℕ} (u : ℕ)
      → through_uid ≤ after_uid
      → has_uid u [] ≡ (has_uid u all_uids && (ltb after_uid u && leb u through_uid))
  unfolding has_uid
  no_uid u h = ground arith

  catch_up_step :
      (rounds after_uid through_uid limit : ℕ) (rest : List ℕ)
      → after_uid < through_uid
      → through_uid ≤ max_u32
      → let p = page server mailbox w all_uids serves after_uid through_uid limit in
        catch_up server rounds mailbox p.high_uid through_uid limit
            (record { is_open = true; world = w })
          ≡ (done rest, record { is_open = true; world = w })
        → catch_up server
            (suc rounds)
            mailbox
            after_uid
            through_uid
            limit
            (record { is_open = true; world = w })
          ≡ (done (p.uids ++ rest), record { is_open = true; world = w })
  unfolding catch_up
  catch_up_step rounds after_uid through_uid limit rest lt small answered =
      rw
        (
          catch_up,
          lt→leb-false through_uid after_uid lt,
          search_uids_since_answers server mailbox w all_uids serves after_uid through_uid limit lt
              small,
          answered,
        )
        refl

  -- In a mailbox that does not change, searching again and again from where the last page ended
  -- reaches the end of the range within as many rounds as the range has UIDs, and finds exactly the
  -- messages of the range, whatever the limit of a page is.
  pub catch_up_complete :
      (rounds after_uid through_uid limit : ℕ)
      → through_uid ≤ max_u32
      → through_uid - after_uid ≤ rounds
      → (uids : List ℕ) × (catch_up server rounds mailbox after_uid through_uid limit
            (record { is_open = true; world = w })
          ≡ (done uids, record { is_open = true; world = w }))
        × ((u : ℕ)
            → has_uid u uids ≡ (has_uid u all_uids && (ltb after_uid u && leb u through_uid)))
  unfolding catch_up
  catch_up_complete zero after_uid through_uid limit small enough =
      ([], refl, (λ u. no_uid u (omega arith)))
  catch_up_complete (suc rounds) after_uid through_uid limit small enough =
      elim (Bool-cases (leb through_uid after_uid)) [
        | inl reached ↦ ([], (rw (reached) refl), (λ u. no_uid u (ground arith)))
        | inr more ↦
            let lt : after_uid < through_uid = ground arith in
            let p = page server mailbox w all_uids serves after_uid through_uid limit in
            let covered = min through_uid (after_uid + search_span) in
            let found = serves.found (after_uid + 1) covered in
            let (above, below) =
              incremental_uid_page-advances found after_uid covered limit (omega arith) in
            let (le, fewer) =
              page_moves after_uid through_uid covered p.high_uid lt refl above below in
            let (rest, answered, finds) =
              catch_up_complete rounds p.high_uid through_uid limit small (omega arith) in
            (
              p.uids ++ rest,
              catch_up_step rounds after_uid through_uid limit rest lt small answered,
              (λ u.
                  rw
                    (
                      has_uid-append u p.uids rest,
                      incremental_uid_page_complete u found after_uid covered limit,
                      serves.search_finds (after_uid + 1) covered u (omega arith) (omega arith)
                          (omega arith),
                      finds u,
                    )
                    (pages_join (has_uid u all_uids) u after_uid covered p.high_uid through_uid
                      above below (omega arith))),
            )
      ]
