-- ===== src/Imap/Search/Sets.antt =====
-- Ascending lists of numbers: sorting, removing duplicates and truncating keep what they should.
use quick_mail.Prelude.{
  ℕ, zero, suc, ◌≤◌, ◌<◌, Bool, true, false, ◌&&◌, ◌||◌, List, [], ◌∷◌, ◌≡◌, refl, ap, arith, inl,
  inr, Bool-cases, nat_beq_iff, any, All, All-imp, filter, take, ltb, leb, nat_beq,
}
use quick_mail.Imap.Search.{dedup, dedup_after, last_or}
use quick_mail.Storage.Order.{insert_row, order_by}
use quick_mail.Storage.Order.Sorting.{insert_row-All}

-- Whether the number is in the list.
unfoldable pub has_uid : ℕ → List ℕ → Bool
has_uid u uids = any (nat_beq u) uids

-- Each number is larger than the one before it.
abbrev pub IsAscending : List ℕ → Type 0
IsAscending [] = Unit
IsAscending (x ∷ xs) = All (λ y. x < y) xs × IsAscending xs

-- Each number is at least the one before it.
abbrev pub IsSorted : List ℕ → Type 0
IsSorted [] = Unit
IsSorted (x ∷ xs) = All (λ y. x ≤ y) xs × IsSorted xs

respects : (p : ℕ → Bool) (u x : ℕ) → nat_beq u x ≡ true → p u ≡ p x
respects p u x e = ap p ((nat_beq_iff u x).0 e)

pub has_uid-filter :
    (p : ℕ → Bool) (u : ℕ) (uids : List ℕ) → has_uid u (filter p uids) ≡ (has_uid u uids && p u)
unfolding has_uid
has_uid-filter p u [] = refl
has_uid-filter p u (x ∷ uids) = elim (Bool-cases (nat_beq u x)) [
  | inl same ↦ rw (respects p u x same) (ground (arith, has_uid-filter p u uids))
  | inr other ↦ ground (arith, has_uid-filter p u uids)
]

has_uid-insert_row :
    (before : ℕ → ℕ → Bool) (u x : ℕ) (uids : List ℕ)
    → has_uid u (insert_row before x uids) ≡ (nat_beq u x || has_uid u uids)
unfolding has_uid insert_row
has_uid-insert_row before u x [] = refl
has_uid-insert_row before u x (y ∷ uids) = ground (arith, has_uid-insert_row before u x uids)

pub has_uid-order_by :
    (before : ℕ → ℕ → Bool) (u : ℕ) (uids : List ℕ)
    → has_uid u (order_by before uids) ≡ has_uid u uids
unfolding has_uid order_by
has_uid-order_by before u [] = refl
has_uid-order_by before u (x ∷ uids) =
    rw (has_uid-insert_row before u x (order_by before uids), has_uid-order_by before u uids) refl

has_uid-dedup_after :
    (u x : ℕ) (uids : List ℕ)
    → (nat_beq u x || has_uid u (dedup_after x uids)) ≡ (nat_beq u x || has_uid u uids)
unfolding has_uid dedup_after
has_uid-dedup_after u x [] = refl
has_uid-dedup_after u x (y ∷ uids) = ground (arith, has_uid-dedup_after u y uids)

pub has_uid-dedup : (u : ℕ) (uids : List ℕ) → has_uid u (dedup uids) ≡ has_uid u uids
unfolding has_uid dedup
has_uid-dedup u [] = refl
has_uid-dedup u (x ∷ uids) = has_uid-dedup_after u x uids

insert_row-IsSorted : (x : ℕ) (uids : List ℕ) → IsSorted uids → IsSorted (insert_row ltb x uids)
unfolding insert_row
insert_row-IsSorted x [] h = (tt, tt)
insert_row-IsSorted x (y ∷ uids) h = elim (Bool-cases (ltb y x)) [
  | inl later ↦
      rw (later)
        (insert_row-All ltb (λ z. y ≤ z) x uids (ground arith) h.0, insert_row-IsSorted x uids h.1)
  | inr here ↦
      let first : x ≤ y = ground arith in
      rw (here) ((first, All-imp (λ z. y ≤ z) (λ z. x ≤ z) uids (λ z above. omega arith) h.0), h)
]

pub order_by-IsSorted : (uids : List ℕ) → IsSorted (order_by ltb uids)
unfolding order_by
order_by-IsSorted [] = tt
order_by-IsSorted (x ∷ uids) = insert_row-IsSorted x (order_by ltb uids) (order_by-IsSorted uids)

dedup_after-IsAscending :
    (x : ℕ) (uids : List ℕ)
    → All (λ y. x ≤ y) uids
    → IsSorted uids
    → All (λ y. x < y) (dedup_after x uids) × IsAscending (dedup_after x uids)
unfolding dedup_after
dedup_after-IsAscending x [] above h = (tt, tt)
dedup_after-IsAscending x (y ∷ uids) above h =
    let (larger, ascending) = dedup_after-IsAscending y uids h.0 h.1 in
    let rest = dedup_after y uids in
    let le = above.0 in
    let beyond : All (λ z. x < z) rest =
      All-imp (λ z. y < z) (λ z. x < z) rest (λ z lt. omega arith) larger in
    elim (Bool-cases (nat_beq x y)) [
      | inl same ↦ rw (same) (beyond, ascending)
      | inr other ↦ let lt : x < y = ground arith in rw (other) ((lt, beyond), (larger, ascending))
    ]

pub dedup-IsAscending : (uids : List ℕ) → IsSorted uids → IsAscending (dedup uids)
unfolding dedup
dedup-IsAscending [] h = tt
dedup-IsAscending (x ∷ uids) h = dedup_after-IsAscending x uids h.0 h.1

absent_below : (u x : ℕ) (uids : List ℕ) → All (λ y. x < y) uids → u ≤ x → has_uid u uids ≡ false
unfolding has_uid
absent_below u x [] above h = refl
absent_below u x (y ∷ uids) above h =
    let lt = above.0 in ground (arith, absent_below u x uids above.1 h)

le-last_or : (n x : ℕ) (uids : List ℕ) → IsAscending (x ∷ uids) → x ≤ last_or x (take n uids)
le-last_or zero x uids h = omega arith
le-last_or (suc n) x [] h = omega arith
le-last_or (suc n) x (y ∷ uids) h = let lt = h.0.0 in omega (arith, le-last_or n y uids h.1)

-- The first numbers of an ascending list are those up to the last of them.
pub has_uid-take :
    (u n x : ℕ) (uids : List ℕ)
    → IsAscending (x ∷ uids)
    → has_uid u (take (suc n) (x ∷ uids))
      ≡ (has_uid u (x ∷ uids) && leb u (last_or x (take n uids)))
unfolding has_uid
has_uid-take u zero x uids h = ground (arith, absent_below u x uids h.0)
has_uid-take u (suc n) x [] h = ground arith
has_uid-take u (suc n) x (y ∷ uids) h =
    let lt = h.0.0 in ground (arith, has_uid-take u n y uids h.1, le-last_or n y uids h.1)
