-- ===== src/Tests/Servers.antt =====
-- The IMAP provider of crates/quickmaild/src/providers/imap_smtp.rs with a small server.
use Prim.Native.String.{◌++◌}
use quick_mail.Prelude.{
  ℕ, zero, suc, ◌+◌, ◌≤◌, String, true, false, ◌&&◌, Option, none, some, List, [], ◌∷◌, All, length,
  filter, ◌≡◌, refl, arith, ltb, leb,
}
use quick_mail.Codec.Decimal.{show_u64, parse_u64, parse_u64-show_u64, all_digits-show_u64}
use quick_mail.Codec.Split.{split_once_colon, split_once_colon-append, all_digits-no_colon}
use quick_mail.Imap.Cursor.{max_u32}
use quick_mail.Imap.Error.{done, fail, ImapError, connection}
use quick_mail.Imap.Search.{uid_range, recent_uid_search_windows, incremental_uid_page}
use quick_mail.Imap.Search.Page.{incremental_uid_page_complete}
use quick_mail.Imap.Search.Sets.{has_uid, has_uid-filter}
use quick_mail.Imap.Search.Windows.{IsWindow, is_covered, recent_uid_search_windows-covers}
use quick_mail.Imap.Session.{Step, Lane, session_loop, run_session_operation, lock_session}
use quick_mail.Imap.Session.Retries.{once, session_loop-ends, run_session_operation-once}
use quick_mail.Imap.StableId.RoundTrip.{strip_prefix-append}
use quick_mail.Imap.Transport.{Server, select_mailbox, is_prohibited}
use quick_mail.Imap.Transport.CatchUp.{Serves, catch_up, catch_up_complete}
use quick_mail.Models.Ids.{strip_prefix}

abbrev held : List ℕ
held = 2 ∷ 5 ∷ 9 ∷ 12 ∷ []

abbrev between : ℕ → ℕ → List ℕ
between a b = filter (λ u. leb a u && leb u b) held

abbrev of_numbers : Option ℕ → Option ℕ → List ℕ
of_numbers (some a) (some b) = between a b
of_numbers _ _ = []

abbrev of_bounds : Option (String × String) → List ℕ
of_bounds none = []
of_bounds (some (a, b)) = of_numbers (parse_u64 a) (parse_u64 b)

abbrev of_range : Option String → List ℕ
of_range none = []
of_range (some text) = of_bounds (split_once_colon text)

-- A server that holds four messages, reads the range of a search, and allows everything else.
abbrev server : Server (Unit {0})
server = record {
  connect = λ w. (done tt, w);
  select = λ name w.
      (done (record { uid_validity = some 7; uid_next = some 13; highest_modseq = none }), w);
  uid_search = λ query w. (done (of_range (strip_prefix "UID " query)), w);
  uid_store = λ uids flags w. (done tt, w);
  uid_copy = λ uids name w. (done tt, w);
  uid_expunge = λ uids w. (done tt, w);
  capabilities = λ w. (done (λ name. true), w);
  run_command = λ line w. (done tt, w);
}

server_searches :
    (a b : ℕ)
    → a ≤ max_u32
    → b ≤ max_u32
    → server.uid_search (uid_range a b) tt ≡ (done (between a b), tt)
unfolding uid_range
server_searches a b ha hb =
    rw
      (
        strip_prefix-append "UID " (show_u64 a ++ (":" ++ show_u64 b)),
        split_once_colon-append (show_u64 a) (show_u64 b)
            (all_digits-no_colon (show_u64 a) (all_digits-show_u64 a (omega arith))),
        parse_u64-show_u64 a (omega arith),
        parse_u64-show_u64 b (omega arith),
      )
      refl

server-Serves : Serves server "INBOX" tt held
unfolding select_mailbox is_prohibited
server-Serves = record {
  selected = record { uid_validity = 7; uid_next = 13; highest_mod_sequence = none };
  select_answers = refl;
  found = between;
  search_answers = λ a b one ab small. server_searches a b (omega arith) small;
  search_finds = λ a b u one ab small. has_uid-filter (λ u. leb a u && leb u b) u held;
}

abbrev open_lane : Lane (Unit {0})
open_lane = record { is_open = true; world = tt }

-- One message to a page.
catch_up_complete_example :
    (uids : List ℕ) × (catch_up server 12 "INBOX" 0 12 1 open_lane ≡ (done uids, open_lane))
    × ((u : ℕ) → has_uid u uids ≡ (has_uid u held && (ltb 0 u && leb u 12)))
catch_up_complete_example =
    catch_up_complete server "INBOX" tt held server-Serves 12 0 12 1 (omega arith) (omega arith)

-- A connection that is lost at the first use: the world counts the uses.
abbrev lossy : Step ℕ ImapError String
lossy zero = (fail (connection "lost"), 1)
lossy (suc n) = (done "answer", suc (suc n))

abbrev connects : Step ℕ ImapError (Unit {0})
connects n = (done tt, n)

session_loop-ends_example :
    session_loop connects 5 true lossy false (record { is_open = true; world = 0 })
    ≡ some (run_session_operation connects true lossy (record { is_open = true; world = 0 }))
session_loop-ends_example =
    session_loop-ends connects 3 true lossy (record { is_open = true; world = 0 })

run_session_operation-once_example :
    run_session_operation connects false lossy (record { is_open = true; world = 0 })
    ≡ once lossy (lock_session connects (record { is_open = true; world = 0 }))
run_session_operation-once_example =
    run_session_operation-once connects lossy (record { is_open = true; world = 0 })

incremental_uid_page_complete_example : has_uid 9 (incremental_uid_page held 2 20 2).uids ≡ (
    has_uid 9 held && (ltb 2 9 && (leb 9 20 && leb 9 (incremental_uid_page held 2 20 2).high_uid)))
incremental_uid_page_complete_example = incremental_uid_page_complete 9 held 2 20 2

recent_uid_search_windows-covers_example :
    (windows : List (ℕ × ℕ)) × (recent_uid_search_windows 100000 ≡ done windows)
    × (length windows ≤ 16)
    × All IsWindow windows
    × ((u : ℕ) → is_covered u windows ≡ (ltb 0 u && (leb u 100000 && ltb 100000 (u + 65536))))
recent_uid_search_windows-covers_example =
    recent_uid_search_windows-covers 100000 (omega arith) (omega arith)
