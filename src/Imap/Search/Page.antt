-- ===== src/Imap/Search/Page.antt =====
-- What a page of an incremental synchronisation holds.
use Prim.Native.Nat.{max}
use quick_mail.Prelude.{
  ℕ, zero, suc, ◌-◌, ◌≤◌, ◌<◌, Bool, ◌&&◌, List, [], ◌∷◌, ◌≡◌, refl, arith, inl, inr, Bool-cases,
  All, filter, take, take_of_length-le, length, ltb, leb, le→ltb-false, nat_beq, if◌then◌else◌,
}
use quick_mail.Imap.Search.{IncrementalUidPage, dedup, dedup_after, last_or, incremental_uid_page}
use quick_mail.Imap.Search.Sets.{
  has_uid, IsAscending, has_uid-filter, has_uid-order_by, has_uid-dedup, order_by-IsSorted,
  dedup-IsAscending, has_uid-take,
}
use quick_mail.Storage.Order.{order_by}
use quick_mail.Storage.Order.Sorting.{order_by-All}

abbrev in_range : ℕ → ℕ → ℕ → Bool
in_range after_uid through_uid uid = ltb after_uid uid && leb uid through_uid

-- The UIDs of the answer that the page is cut from.
abbrev found : List ℕ → ℕ → ℕ → List ℕ
found uids after_uid through_uid =
    dedup (order_by ltb (filter (in_range after_uid through_uid) uids))

abbrev Within : ℕ → ℕ → ℕ → Type 0
Within after_uid through_uid uid = (after_uid < uid) × (uid ≤ through_uid)

has_uid-found :
    (u : ℕ) (uids : List ℕ) (after_uid through_uid : ℕ)
    → has_uid u (found uids after_uid through_uid)
      ≡ (has_uid u uids && in_range after_uid through_uid u)
has_uid-found u uids after_uid through_uid =
    let p = in_range after_uid through_uid in
    rw
      (
        has_uid-dedup u (order_by ltb (filter p uids)),
        has_uid-order_by ltb u (filter p uids),
        has_uid-filter p u uids,
      )
      refl

filter-Within :
    (uids : List ℕ) (after_uid through_uid : ℕ)
    → All (Within after_uid through_uid) (filter (in_range after_uid through_uid) uids)
filter-Within [] after_uid through_uid = tt
filter-Within (x ∷ uids) after_uid through_uid =
    elim (Bool-cases (in_range after_uid through_uid x)) [
      | inl h ↦
          let inside : Within after_uid through_uid x = ground arith in
          rw (h) (inside, filter-Within uids after_uid through_uid)
      | inr h ↦ rw (h) (filter-Within uids after_uid through_uid)
    ]

dedup_after-All : (P : ℕ → Type 0) (x : ℕ) (uids : List ℕ) → All P uids → All P (dedup_after x uids)
unfolding dedup_after
dedup_after-All P x [] h = tt
dedup_after-All P x (y ∷ uids) h = elim (Bool-cases (nat_beq x y)) [
  | inl e ↦ rw (e) (dedup_after-All P y uids h.1)
  | inr e ↦ rw (e) (h.0, dedup_after-All P y uids h.1)
]

dedup-All : (P : ℕ → Type 0) (uids : List ℕ) → All P uids → All P (dedup uids)
unfolding dedup
dedup-All P [] h = tt
dedup-All P (x ∷ uids) h = (h.0, dedup_after-All P x uids h.1)

found-Within :
    (uids : List ℕ) (after_uid through_uid : ℕ)
    → All (Within after_uid through_uid) (found uids after_uid through_uid)
found-Within uids after_uid through_uid =
    let P = Within after_uid through_uid in
    dedup-All P _ (order_by-All ltb P _ (filter-Within uids after_uid through_uid))

found-IsAscending :
    (uids : List ℕ) (after_uid through_uid : ℕ) → IsAscending (found uids after_uid through_uid)
found-IsAscending uids after_uid through_uid = dedup-IsAscending _ (order_by-IsSorted _)

last_or-All :
    (P : ℕ → Type 0) (n x : ℕ) (uids : List ℕ) → P x → All P uids → P (last_or x (take n uids))
last_or-All P zero x uids p h = p
last_or-All P (suc n) x [] p h = p
last_or-All P (suc n) x (y ∷ uids) p h = last_or-All P n y uids h.0 h.1

-- The page that `incremental_uid_page` cuts from an ascending list.
abbrev cut : ℕ → ℕ → ℕ → List ℕ → IncrementalUidPage
cut size after_uid through_uid uids = record {
  uids = take size uids;
  high_uid = if ltb size (length uids) then last_or after_uid (take size uids) else through_uid;
}

bounded :
    (u after_uid through_uid : ℕ) (uids : List ℕ)
    → All (Within after_uid through_uid) uids
    → (has_uid u uids && leb u through_uid) ≡ has_uid u uids
unfolding has_uid
bounded u after_uid through_uid [] within = refl
bounded u after_uid through_uid (x ∷ uids) within =
    let le = within.0.1 in ground (arith, bounded u after_uid through_uid uids within.1)

-- Where nothing is cut off.
cut_nothing :
    (u n after_uid through_uid : ℕ) (uids : List ℕ)
    → All (Within after_uid through_uid) uids
    → length uids ≤ suc n
    → has_uid u (take (suc n) uids) ≡ (has_uid u uids && leb u through_uid)
cut_nothing u n after_uid through_uid uids within short =
    rw (take_of_length-le (suc n) uids short, bounded u after_uid through_uid uids within) refl

cut_complete :
    (u n after_uid through_uid : ℕ) (uids : List ℕ)
    → IsAscending uids
    → All (Within after_uid through_uid) uids
    → has_uid u (take (suc n) uids)
      ≡ (has_uid u uids && leb u (cut (suc n) after_uid through_uid uids).high_uid)
cut_complete u n after_uid through_uid [] h within =
    rw (le→ltb-false (suc n) 0 (omega arith))
      (cut_nothing u n after_uid through_uid [] tt (omega arith))
cut_complete u n after_uid through_uid (x ∷ uids) h within =
    elim (Bool-cases (ltb (suc n) (length (x ∷ uids)))) [
      | inl more ↦ rw (more) (has_uid-take u n x uids h)
      | inr all_here ↦
          rw (all_here) (cut_nothing u n after_uid through_uid (x ∷ uids) within (ground arith))
    ]

cut-advances :
    (n after_uid through_uid : ℕ) (uids : List ℕ)
    → after_uid < through_uid
    → All (Within after_uid through_uid) uids
    → Within after_uid through_uid (cut (suc n) after_uid through_uid uids).high_uid
cut-advances n after_uid through_uid [] lt within =
    rw (le→ltb-false (suc n) 0 (omega arith)) (lt, omega arith)
cut-advances n after_uid through_uid (x ∷ uids) lt within =
    elim (Bool-cases (ltb (suc n) (length (x ∷ uids)))) [
      | inl more ↦ rw (more) (last_or-All (Within after_uid through_uid) n x uids within.0 within.1)
      | inr all_here ↦ rw (all_here) (lt, omega arith)
    ]

max_one : (limit : ℕ) → (n : ℕ) × (max limit 1 ≡ suc n)
max_one limit = (max limit 1 - 1, omega arith)

-- A page holds exactly those UIDs of the server's answer that lie behind the cursor and are not
-- larger than the page's new position, so none is skipped, whatever the limit is.
pub incremental_uid_page_complete :
    (u : ℕ) (uids : List ℕ) (after_uid through_uid limit : ℕ)
    → let page = incremental_uid_page uids after_uid through_uid limit in
      has_uid u page.uids
      ≡ (has_uid u uids && (ltb after_uid u && (leb u through_uid && leb u page.high_uid)))
unfolding incremental_uid_page
incremental_uid_page_complete u uids after_uid through_uid limit =
    let (n, size) = max_one limit in
    let exact =
      cut_complete u n after_uid through_uid (found uids after_uid through_uid)
        (found-IsAscending uids after_uid through_uid) (found-Within uids after_uid through_uid) in
    rw (size, exact, has_uid-found u uids after_uid through_uid) (ground arith)

-- A page over a range that is not empty moves the position forward, and never past the range.
pub incremental_uid_page-advances :
    (uids : List ℕ) (after_uid through_uid limit : ℕ)
    → after_uid < through_uid
    → let page = incremental_uid_page uids after_uid through_uid limit in
      (after_uid < page.high_uid) × (page.high_uid ≤ through_uid)
unfolding incremental_uid_page
incremental_uid_page-advances uids after_uid through_uid limit lt =
    let (n, size) = max_one limit in
    rw (size) (
      cut-advances n after_uid through_uid (found uids after_uid through_uid) lt
        (found-Within uids after_uid through_uid))
