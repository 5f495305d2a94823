-- ===== src/Storage/Table/Laws.antt =====
-- Laws of the table statements: lookups after a change, uniqueness of the key, and properties
-- that hold of every row.
use quick_mail.Prelude.{
  Bool, true, false, ◌||◌, none, some, List, [], ◌∷◌, HasEq, ◌==◌, All, All-filter, if◌then◌else◌,
  ◌≡◌, refl, arith, Bool-cases, inl, inr, some_inj, subst,
}
use quick_mail.Storage.Table.{find, has, upsert, IsKeyed, update, delete}

module _ {ℓ} {K R : Type ℓ} ⦃e : HasEq K⦄ (key : R → K) where
  -- What a lookup finds is a row with the key.
  pub find-has : (k : K) (rows : List R) {r : R} → find key k rows ≡ some r → has key k rows ≡ true
  unfolding find has
  find-has k [] h = cc
  find-has k (q ∷ rows) {r} h = ground (arith, find-has k rows {r = r})

  pub find-none : (k : K) (rows : List R) → has key k rows ≡ false → find key k rows ≡ none
  unfolding find has
  find-none k [] h = refl
  find-none k (q ∷ rows) h = ground (arith, find-none k rows)

  pub find-key : (k : K) (rows : List R) {r : R} → find key k rows ≡ some r → key r ≡ k
  unfolding find
  find-key k [] h = cc
  find-key k (q ∷ rows) {r} h = ground (arith, find-key k rows {r = r}, e.beq_iff (key q) k)

  -- A row that is found has each property of all rows.
  pub find-All {κ} :
      (P : R → Type κ) (k : K) (rows : List R) {r : R} → All P rows → find key k rows ≡ some r → P r
  unfolding find
  find-All P k [] all h = cc
  find-All P k (q ∷ rows) {r} all h = elim (Bool-cases (key q == k)) [
    | inl here ↦ subst P (some_inj (rw here at h)) all.0
    | inr later ↦ find-All P k rows all.1 (rw later at h)
  ]

  module _ (merge : R → R → R) (keeps : (old new : R) → key (merge old new) ≡ key old) where
    pub has-upsert :
        (k : K) (new : R) (rows : List R)
        → has key k (upsert key merge new rows) ≡ (key new == k || has key k rows)
    unfolding has upsert
    has-upsert k new [] = refl
    has-upsert k new (r ∷ rows) = ground (
      arith,
      has-upsert k new rows,
      keeps r new,
      e.beq_iff (key r) (key new),
      e.beq_iff (key r) k,
      e.beq_iff (key new) k,
    )

    -- After the statement the key shows the new row, merged with the old one if there was one;
    -- every other key shows what it showed.
    pub find-upsert :
        (k : K) (new : R) (rows : List R)
        → find key k (upsert key merge new rows) ≡ (
            if key new == k
            then some (elim (find key (key new) rows) [ none ↦ new | some old ↦ merge old new ])
            else find key k rows)
    unfolding find upsert
    find-upsert k new [] = refl
    find-upsert k new (r ∷ rows) = ground (
      arith,
      find-upsert k new rows,
      keeps r new,
      e.beq_iff (key r) (key new),
      e.beq_iff (key r) k,
      e.beq_iff (key new) k,
    )

    pub upsert-IsKeyed :
        (new : R) (rows : List R) → IsKeyed key rows → IsKeyed key (upsert key merge new rows)
    unfolding IsKeyed upsert has
    upsert-IsKeyed new [] h = (refl, tt)
    upsert-IsKeyed new (r ∷ rows) h = elim (Bool-cases (key r == key new)) [
      | inl same ↦ rw same (rw (keeps r new) h.0, h.1)
      | inr other ↦ rw other (
        ground (
          arith,
          has-upsert (key r) new rows,
          e.beq_iff (key r) (key new),
          e.beq_iff (key new) (key r),
        ),
        upsert-IsKeyed new rows h.1,
      )
    ]

    pub upsert-All {κ} :
        (P : R → Type κ) (new : R) (rows : List R)
        → P new
        → ((old : R) → P old → key old ≡ key new → P (merge old new))
        → All P rows
        → All P (upsert key merge new rows)
    unfolding upsert
    upsert-All P new [] pn pm h = (pn, tt)
    upsert-All P new (r ∷ rows) pn pm h = elim (Bool-cases (key r == key new)) [
      | inl same ↦ rw same (pm r h.0 ((e.beq_iff _ _).0 same), h.1)
      | inr other ↦ rw other (h.0, upsert-All P new rows pn pm h.1)
    ]

  module _ (test : R → Bool) (f : R → R) (keeps : (r : R) → key (f r) ≡ key r) where
    pub has-update : (k : K) (rows : List R) → has key k (update test f rows) ≡ has key k rows
    unfolding has update
    has-update k [] = refl
    has-update k (r ∷ rows) = ground (arith, has-update k rows, keeps r)

    pub update-IsKeyed : (rows : List R) → IsKeyed key rows → IsKeyed key (update test f rows)
    unfolding IsKeyed update
    update-IsKeyed [] h = tt
    update-IsKeyed (r ∷ rows) h =
        (ground (arith, has-update (key r) rows, keeps r), update-IsKeyed rows h.1)

    -- A lookup after an update shows the updated row.
    pub find-update :
        (k : K) (rows : List R)
        → find key k (update test f rows)
          ≡ elim (find key k rows) [ none ↦ none | some r ↦ some (if test r then f r else r) ]
    unfolding find update
    find-update k [] = refl
    find-update k (r ∷ rows) = ground (arith, find-update k rows, keeps r)

  module _ (test : R → Bool) where
    pub has-delete :
        (k : K) (rows : List R) → has key k (delete test rows) ≡ true → has key k rows ≡ true
    unfolding has delete
    has-delete k [] h = h
    has-delete k (r ∷ rows) h = ground (arith, has-delete k rows)

    pub delete-IsKeyed : (rows : List R) → IsKeyed key rows → IsKeyed key (delete test rows)
    unfolding IsKeyed delete
    delete-IsKeyed [] h = tt
    delete-IsKeyed (r ∷ rows) h = elim (Bool-cases (test r)) [
      | inl gone ↦ rw gone (delete-IsKeyed rows h.1)
      | inr kept ↦ rw kept (ground (arith, has-delete (key r) rows, h.0), delete-IsKeyed rows h.1)
    ]

    -- With a unique key, a lookup after a deletion misses the rows that the test names, and
    -- shows the others unchanged.
    pub find-delete :
        (k : K) (rows : List R)
        → IsKeyed key rows
        → find key k (delete test rows)
          ≡ elim (find key k rows) [ none ↦ none | some r ↦ if test r then none else some r ]
    unfolding find delete IsKeyed
    find-delete k [] h = refl
    find-delete k (r ∷ rows) h = ground (
      arith,
      find-delete k rows h.1,
      find-none k rows,
      find-none k (delete test rows),
      has-delete k rows,
      e.beq_iff (key r) k,
    )

    -- A row that the test does not name keeps its key in the table.
    pub has-delete_keep :
        (k : K) (rows : List R)
        → ((r : R) → key r ≡ k → test r ≡ false)
        → has key k (delete test rows) ≡ has key k rows
    unfolding has delete
    has-delete_keep k [] h = refl
    has-delete_keep k (r ∷ rows) h =
        ground (arith, has-delete_keep k rows h, h r, e.beq_iff (key r) k)

module _ {ℓ κ} {R : Type ℓ} (P : R → Type κ) where
  pub delete-All : (test : R → Bool) (rows : List R) → All P rows → All P (delete test rows)
  unfolding delete
  delete-All test rows h = All-filter P _ rows h

  pub update-All :
      (test : R → Bool) (f : R → R) (rows : List R)
      → ((r : R) → P r → P (f r))
      → All P rows
      → All P (update test f rows)
  unfolding update
  update-All test f [] g h = tt
  update-All test f (r ∷ rows) g h = elim (Bool-cases (test r)) [
    | inl hit ↦ rw hit (g r h.0, update-All test f rows g h.1)
    | inr miss ↦ rw miss (h.0, update-All test f rows g h.1)
  ]

module _ {ℓ κ κ'} {R : Type ℓ} (P : R → Type κ) (Q : R → Type κ') where
  -- The rows that stay did not pass the test.
  pub delete-All_kept :
      (test : R → Bool) (rows : List R)
      → ((r : R) → P r → test r ≡ false → Q r)
      → All P rows
      → All Q (delete test rows)
  unfolding delete
  delete-All_kept test [] f h = tt
  delete-All_kept test (r ∷ rows) f h = elim (Bool-cases (test r)) [
    | inl gone ↦ rw gone (delete-All_kept test rows f h.1)
    | inr kept ↦ rw kept (f r h.0 kept, delete-All_kept test rows f h.1)
  ]
