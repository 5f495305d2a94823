-- ===== src/Storage/Order/Sorting.antt =====
-- Sorting keeps the rows, and puts them in order.
use quick_mail.Prelude.{
  suc, Bool, true, false, List, [], ◌∷◌, ◌≡◌, refl, arith, Bool-cases, inl, inr, All, All-imp,
  length,
}
use quick_mail.Storage.Order.{insert_row, order_by}

module _ {ℓ} {R : Type ℓ} (before : R → R → Bool) where
  -- No row comes before one that stands above it.
  abbrev pub IsOrdered : List R → Type ℓ
  IsOrdered [] = Unit
  IsOrdered (r ∷ rows) = All (λ q. before q r ≡ false) rows × IsOrdered rows

  pub insert_row-All {κ} :
      (P : R → Type κ) (r : R) (rows : List R) → P r → All P rows → All P (insert_row before r rows)
  unfolding insert_row
  insert_row-All P r [] p h = (p, tt)
  insert_row-All P r (q ∷ rows) p h = elim (Bool-cases (before q r)) [
    | inl later ↦ rw later (h.0, insert_row-All P r rows p h.1)
    | inr here ↦ rw here (p, h)
  ]

  pub order_by-All {κ} :
      (P : R → Type κ) (rows : List R) → All P rows → All P (order_by before rows)
  unfolding order_by
  order_by-All P [] h = tt
  order_by-All P (r ∷ rows) h =
      insert_row-All P r (order_by before rows) h.0 (order_by-All P rows h.1)

  length-insert_row :
      (r : R) (rows : List R) → length (insert_row before r rows) ≡ suc (length rows)
  unfolding insert_row
  length-insert_row r [] = refl
  length-insert_row r (q ∷ rows) = ground (arith, length-insert_row r rows)

  pub length-order_by : (rows : List R) → length (order_by before rows) ≡ length rows
  unfolding order_by
  length-order_by [] = refl
  length-order_by (r ∷ rows) =
      omega (arith, length-order_by rows, length-insert_row r (order_by before rows))

  module _ (trans : (p q r : R) → before p q ≡ true → before q r ≡ true → before p r ≡ true)
      (irrefl : (r : R) → before r r ≡ false)
      (neg_trans : (p q r : R) → before p q ≡ false → before q r ≡ false → before p r ≡ false) where
    asym : (p q : R) → before p q ≡ true → before q p ≡ false
    asym p q h = ground (arith, trans p q p, irrefl p)

    insert_row-IsOrdered :
        (r : R) (rows : List R) → IsOrdered rows → IsOrdered (insert_row before r rows)
    unfolding insert_row
    insert_row-IsOrdered r [] h = (tt, tt)
    insert_row-IsOrdered r (q ∷ rows) h = elim (Bool-cases (before q r)) [
      | inl later ↦ rw later (
        insert_row-All (λ p. before p q ≡ false) r rows (asym q r later) h.0,
        insert_row-IsOrdered r rows h.1,
      )
      | inr here ↦ rw here (
        (
          here,
          All-imp (λ p. before p q ≡ false) (λ p. before p r ≡ false) rows
              (λ p not_before. neg_trans p q r not_before here) h.0,
        ),
        h,
      )
    ]

    pub order_by-IsOrdered : (rows : List R) → IsOrdered (order_by before rows)
    unfolding order_by
    order_by-IsOrdered [] = tt
    order_by-IsOrdered (r ∷ rows) =
        insert_row-IsOrdered r (order_by before rows) (order_by-IsOrdered rows)
