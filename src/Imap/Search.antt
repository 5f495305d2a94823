-- ===== src/Imap/Search.antt =====
-- Which UIDs a search of crates/quickmaild/src/providers/imap_smtp.rs asks for, and which of the
-- server's answer make a page.
pub mod Windows
pub mod Page
pub mod Sets
use Prim.Native.String.{◌++◌}
use Prim.Native.Nat.{max, min}
use quick_mail.Prelude.{
  ℕ, zero, suc, ◌+◌, ◌-◌, ◌^◌, String, Bool, true, false, not, ◌&&◌, ◌||◌, Option, none, some, List,
  [], ◌∷◌, ◌≡◌, refl, filter, take, any, length, ltb, leb, nat_beq, if◌then◌else◌,
}
use quick_mail.Codec.Decimal.{show_u64}
use quick_mail.Imap.Cursor.{max_u32}
use quick_mail.Imap.Error.{Reply, done, fail, ImapError, invalid_cursor, invalid_stable_id}
use quick_mail.Storage.Order.{insert_row, order_by}

pub record IncrementalUidPage : Type 0 where
  pub uids : List ℕ
  pub high_uid : ℕ

abbrev pub search_span : ℕ
search_span = 4096

abbrev pub max_search_windows : ℕ
max_search_windows = 16

-- `newest_uid_page`: the newest first.
unfoldable pub newest_uid_page : List ℕ → ℕ → ℕ → List ℕ
newest_uid_page uids before_uid limit = take limit (
    order_by (λ left right. ltb right left)
      (filter (λ uid. nat_beq before_uid 0 || ltb uid before_uid) uids))

-- The loop of `recent_uid_search_windows`, at most as many rounds as the fuel.
unfoldable pub windows_from : ℕ → ℕ → List (ℕ × ℕ)
windows_from zero last_uid = []
windows_from (suc rounds) last_uid =
    let first_uid = max (last_uid - (search_span - 1)) 1 in
    let more = windows_from rounds (first_uid - 1) in
    (first_uid, last_uid) ∷ (if nat_beq first_uid 1 then [] else more)

unfoldable pub recent_uid_search_windows : ℕ → Reply ImapError (List (ℕ × ℕ))
unfolding windows_from
recent_uid_search_windows through_uid =
    if nat_beq through_uid 0
    then done []
    else if ltb max_u32 through_uid
    then fail invalid_cursor
    else done (windows_from max_search_windows through_uid)

-- `format!("UID {first_uid}:{last_uid}")`.
unfoldable pub uid_range : ℕ → ℕ → String
unfolding show_u64
uid_range first_uid last_uid = "UID " ++ (show_u64 first_uid ++ (":" ++ show_u64 last_uid))

-- `checked_add` of u64.
unfoldable pub checked_add : ℕ → ℕ → Option ℕ
checked_add a b = if ltb (a + b) (2 ^ 64) then some (a + b) else none

-- The first UID and the last of the interval to search; nothing where there is none.
unfoldable pub incremental_uid_search_range : ℕ → ℕ → Reply ImapError (Option (ℕ × ℕ))
unfolding checked_add
incremental_uid_search_range after_uid through_uid =
    if leb through_uid after_uid then done none else elim (checked_add after_uid 1) [
      | none ↦ fail invalid_cursor
      | some first_uid ↦ elim (checked_add after_uid search_span) [
        | none ↦ fail invalid_cursor
        | some end ↦
            let covered = min through_uid end in
            if ltb max_u32 first_uid || ltb max_u32 covered
            then fail invalid_cursor
            else done (some (first_uid, covered))
      ]
    ]

-- `Vec::dedup`: of equal neighbours the first stays.
unfoldable pub dedup_after : ℕ → List ℕ → List ℕ
dedup_after x [] = []
dedup_after x (y ∷ ys) = let rest = dedup_after y ys in if nat_beq x y then rest else y ∷ rest

unfoldable pub dedup : List ℕ → List ℕ
unfolding dedup_after
dedup [] = []
dedup (x ∷ xs) = x ∷ dedup_after x xs

-- `last().copied().unwrap_or(default)`.
abbrev pub last_or : ℕ → List ℕ → ℕ
last_or default [] = default
last_or default (x ∷ xs) = last_or x xs

unfoldable pub incremental_uid_page : List ℕ → ℕ → ℕ → ℕ → IncrementalUidPage
unfolding dedup
incremental_uid_page uids after_uid through_uid limit =
    let found =
      dedup (order_by ltb (filter (λ uid. ltb after_uid uid && leb uid through_uid) uids)) in
    let page = take (max limit 1) found in
    let has_more = ltb (max limit 1) (length found) in
    record { uids = page; high_uid = if has_more then last_or after_uid page else through_uid }

-- A UID is a positive number of 32 bits.
unfoldable pub is_bad_uid : ℕ → Bool
is_bad_uid uid = nat_beq uid 0 || ltb max_u32 uid

-- `join(",")`.
unfoldable pub join_uids : List ℕ → String
unfolding show_u64
join_uids [] = ""
join_uids (uid ∷ []) = show_u64 uid
join_uids (uid ∷ other ∷ uids) = show_u64 uid ++ ("," ++ join_uids (other ∷ uids))

unfoldable pub uid_set : List ℕ → Reply ImapError String
unfolding is_bad_uid join_uids
uid_set uids = if any is_bad_uid uids then fail invalid_stable_id else done (join_uids uids)

example_page :
    incremental_uid_page (9 ∷ 4 ∷ 7 ∷ 4 ∷ 30 ∷ []) 3 20 2
    ≡ record { uids = 4 ∷ 7 ∷ []; high_uid = 7 }
unfolding incremental_uid_page order_by insert_row
example_page = refl
