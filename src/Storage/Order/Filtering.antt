-- ===== src/Storage/Order/Filtering.antt =====
-- Sorting and filtering commute, and sorting keeps a unique key unique.
use quick_mail.Prelude.{
  Bool, true, false, ◌||◌, ◌&&◌, List, [], ◌∷◌, ◌≡◌, refl, arith, Bool-cases, inl, inr, All,
  All-imp, All-filter, filter, length, ◌∙◌, HasEq, ◌==◌, if◌then◌else◌,
}
use quick_mail.Storage.Order.{insert_row, order_by}
use quick_mail.Storage.Order.Sorting.{IsOrdered, order_by-IsOrdered}
use quick_mail.Storage.Table.{has, IsKeyed}

pub filter-filter {ℓ} :
    {R : Type ℓ} (p q : R → Bool) (rows : List R)
    → filter (λ r. p r && q r) rows ≡ filter q (filter p rows)
filter-filter p q [] = refl
filter-filter p q (r ∷ rows) = ground (arith, filter-filter p q rows)

pub filter-All {ℓ} :
    {R : Type ℓ} (p : R → Bool) (rows : List R) → All (λ r. p r ≡ true) rows → filter p rows ≡ rows
filter-All p [] h = refl
filter-All p (r ∷ rows) h = rw (h.0, filter-All p rows h.1)

pub filter_none {ℓ} :
    {R : Type ℓ} (p : R → Bool) (rows : List R) → All (λ r. p r ≡ false) rows → filter p rows ≡ []
filter_none p [] h = refl
filter_none p (r ∷ rows) h = rw (h.0, filter_none p rows h.1)

module _ {ℓ} {R : Type ℓ} (before : R → R → Bool)
    (trans : (p q r : R) → before p q ≡ true → before q r ≡ true → before p r ≡ true)
    (irrefl : (r : R) → before r r ≡ false)
    (neg_trans : (p q r : R) → before p q ≡ false → before q r ≡ false → before p r ≡ false) where
  -- A row that nothing comes before stands first.
  insert_first :
      (r : R) (rows : List R)
      → All (λ q. before q r ≡ false) rows
      → insert_row before r rows ≡ r ∷ rows
  unfolding insert_row
  insert_first r [] h = refl
  insert_first r (q ∷ rows) h = rw h.0

  filter-insert_row :
      (p : R → Bool) (r : R) (rows : List R)
      → IsOrdered before rows
      → filter p (insert_row before r rows)
        ≡ (if p r then insert_row before r (filter p rows) else filter p rows)
  unfolding insert_row
  filter-insert_row p r [] h = refl
  filter-insert_row p r (q ∷ rows) h = elim (Bool-cases (before q r)) [
    | inl later ↦ elim (Bool-cases (p q)) [
      | inl hit ↦ ground (arith, filter-insert_row p r rows h.1)
      | inr miss ↦ ground (arith, filter-insert_row p r rows h.1)
    ]
    | inr here ↦ elim (Bool-cases (p q)) [
      | inl hit ↦ ground arith
      | inr miss ↦
          rw
            (
              here,
              miss,
              insert_first r (filter p rows) (
                  All-filter (λ s. before s r ≡ false) p rows
                    (All-imp (λ s. before s q ≡ false) _ rows (λ s low. neg_trans s q r low here)
                      h.0)),
            )
            refl
    ]
  ]

  pub order_by-filter :
      (p : R → Bool) (rows : List R)
      → order_by before (filter p rows) ≡ filter p (order_by before rows)
  unfolding order_by
  order_by-filter p [] = refl
  order_by-filter p (r ∷ rows) = ground (
    arith,
    order_by-filter p rows,
    filter-insert_row p r (order_by before rows)
        (order_by-IsOrdered before trans irrefl neg_trans rows),
  )

module _ {ℓ} {K R : Type ℓ} ⦃e : HasEq K⦄ (key : R → K) (before : R → R → Bool) where
  has-insert_row :
      (k : K) (r : R) (rows : List R)
      → has key k (insert_row before r rows) ≡ (key r == k || has key k rows)
  unfolding has insert_row
  has-insert_row k r [] = refl
  has-insert_row k r (q ∷ rows) = ground (arith, has-insert_row k r rows)

  pub has-order_by : (k : K) (rows : List R) → has key k (order_by before rows) ≡ has key k rows
  unfolding has order_by
  has-order_by k [] = refl
  has-order_by k (r ∷ rows) =
      ground (arith, has-insert_row k r (order_by before rows), has-order_by k rows)

  insert_row-IsKeyed :
      (r : R) (rows : List R)
      → has key (key r) rows ≡ false
      → IsKeyed key rows
      → IsKeyed key (insert_row before r rows)
  unfolding IsKeyed insert_row has
  insert_row-IsKeyed r [] fresh h = (refl, tt)
  insert_row-IsKeyed r (q ∷ rows) fresh h = elim (Bool-cases (before q r)) [
    | inl later ↦ rw later (
      ground (
        arith,
        has-insert_row (key q) r rows,
        e.beq_iff (key r) (key q),
        e.beq_iff (key q) (key r),
      ),
      insert_row-IsKeyed r rows (ground arith) h.1,
    )
    | inr here ↦ rw here (fresh, h)
  ]

  pub order_by-IsKeyed : (rows : List R) → IsKeyed key rows → IsKeyed key (order_by before rows)
  unfolding IsKeyed order_by
  order_by-IsKeyed [] h = tt
  order_by-IsKeyed (r ∷ rows) h =
      insert_row-IsKeyed r (order_by before rows) (rw (has-order_by (key r) rows) h.0)
        (order_by-IsKeyed rows h.1)

  has-filter :
      (k : K) (p : R → Bool) (rows : List R)
      → has key k rows ≡ false
      → has key k (filter p rows) ≡ false
  unfolding has
  has-filter k p [] h = refl
  has-filter k p (r ∷ rows) h = ground (arith, has-filter k p rows)

  -- A selection of a table has the keys of the table once each.
  pub filter-IsKeyed :
      (p : R → Bool) (rows : List R) → IsKeyed key rows → IsKeyed key (filter p rows)
  unfolding IsKeyed
  filter-IsKeyed p [] h = tt
  filter-IsKeyed p (r ∷ rows) h = elim (Bool-cases (p r)) [
    | inl kept ↦ rw kept (has-filter (key r) p rows h.0, filter-IsKeyed p rows h.1)
    | inr gone ↦ rw gone (filter-IsKeyed p rows h.1)
  ]

module _ {ℓ} {R : Type ℓ} (before : R → R → Bool) (p : R → Bool) where
  length-filter-insert_row :
      (r : R) (rows : List R)
      → length (filter p (insert_row before r rows)) ≡ length (filter p (r ∷ rows))
  unfolding insert_row
  length-filter-insert_row r [] = refl
  length-filter-insert_row r (q ∷ rows) = elim (Bool-cases (before q r)) [
    | inl later ↦ rw later (ground (arith, length-filter-insert_row r rows))
    | inr here ↦ rw here refl
  ]

  -- Sorting neither loses nor repeats a row: as many rows pass a test as before.
  pub length-filter-order_by :
      (rows : List R) → length (filter p (order_by before rows)) ≡ length (filter p rows)
  unfolding order_by
  length-filter-order_by [] = refl
  length-filter-order_by (r ∷ rows) =
      length-filter-insert_row r (order_by before rows)
      ∙ ground (arith, length-filter-order_by rows)
