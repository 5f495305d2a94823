-- ===== src/Storage/Table/Index.antt =====
-- Unique indexes: no two rows of a table are in conflict.
use quick_mail.Prelude.{
  Bool, false, ◌≡◌, refl, sym, ◌∙◌, List, [], ◌∷◌, All, All-imp, any, HasEq, Bool-cases, inl, inr,
  arith,
}
use quick_mail.Storage.Table.{upsert, update, delete}
use quick_mail.Storage.Table.Laws.{upsert-All, delete-All}

abbrev pub IsIndex {ℓ} : {R : Type ℓ} → (R → R → Bool) → List R → Type 0
IsIndex conflict rows = All (λ r. any (conflict r) rows ≡ false) rows

module _ {ℓ} {R : Type ℓ} where
  any-delete :
      (p test : R → Bool) (rows : List R) → any p rows ≡ false → any p (delete test rows) ≡ false
  unfolding delete
  any-delete p test [] h = refl
  any-delete p test (r ∷ rows) h = ground (arith, any-delete p test rows)

  pub any-All : (p : R → Bool) (rows : List R) → any p rows ≡ false → All (λ r. p r ≡ false) rows
  any-All p [] h = tt
  any-All p (r ∷ rows) h = (ground arith, any-All p rows (ground arith))

  -- Rows that are deleted leave no new conflict.
  pub delete-IsIndex :
      (conflict : R → R → Bool) (test : R → Bool) (rows : List R)
      → IsIndex conflict rows
      → IsIndex conflict (delete test rows)
  delete-IsIndex conflict test rows h = delete-All _ test rows (
      All-imp (λ r. any (conflict r) rows ≡ false) _ rows
        (λ r free. any-delete (conflict r) test rows free) h)

  All-zip : (P Q : R → Type 0) (rows : List R) → All P rows → All Q rows → All (λ r. P r × Q r) rows
  All-zip P Q [] h k = tt
  All-zip P Q (r ∷ rows) h k = ((h.0, k.0), All-zip P Q rows h.1 k.1)

  module _ (conflict : R → R → Bool) (test : R → Bool) (f : R → R)
      (same : (a b : R)
        → (conflict (f a) b ≡ conflict a b) × (conflict a (f b) ≡ conflict a b)) where
    any-update :
        (r : R) (rows : List R) → any (conflict r) (update test f rows) ≡ any (conflict r) rows
    unfolding update
    any-update r [] = refl
    any-update r (q ∷ rows) = elim (Bool-cases (test q)) [
      | inl hit ↦ rw (hit, (same r q).1, any-update r rows)
      | inr miss ↦ rw (miss, any-update r rows)
    ]

    any_same : (r : R) (rows : List R) → any (conflict (f r)) rows ≡ any (conflict r) rows
    any_same r [] = refl
    any_same r (q ∷ rows) = rw ((same r q).0, any_same r rows)

    update-free :
        (all_rows rows : List R)
        → All (λ r. any (conflict r) all_rows ≡ false) rows
        → All (λ r. any (conflict r) (update test f all_rows) ≡ false) (update test f rows)
    unfolding update
    update-free all_rows [] h = tt
    update-free all_rows (r ∷ rows) h = (
      elim (Bool-cases (test r)) [
        | inl hit ↦ rw (hit, any_same r (update test f all_rows), any-update r all_rows) h.0
        | inr miss ↦ rw (miss, any-update r all_rows) h.0
      ],
      update-free all_rows rows h.1,
    )

    -- An update of other columns leaves the index as it was.
    pub update-IsIndex :
        (rows : List R) → IsIndex conflict rows → IsIndex conflict (update test f rows)
    update-IsIndex rows h = update-free rows rows h

module _ {ℓ} {K R : Type ℓ} ⦃e : HasEq K⦄ (key : R → K) (merge : R → R → R)
    (conflict : R → R → Bool) (keeps : (old new : R) → key (merge old new) ≡ key old)
    (c_sym : (a b : R) → conflict a b ≡ false → conflict b a ≡ false)
    (c_self : (a b : R) → key a ≡ key b → conflict a b ≡ false)
    (c_merge : (old new x : R)
      → key old ≡ key new
      → conflict (merge old new) x ≡ conflict new x) where
  any-upsert :
      (p : R → Bool) (new : R) (rows : List R)
      → p new ≡ false
      → ((old : R) → key old ≡ key new → p (merge old new) ≡ false)
      → any p rows ≡ false
      → any p (upsert key merge new rows) ≡ false
  unfolding upsert
  any-upsert p new [] pn pm h = ground arith
  any-upsert p new (r ∷ rows) pn pm h =
      ground (arith, any-upsert p new rows pn pm, pm r, e.beq_iff (key r) (key new))

  any_merge :
      (old new : R) (rows : List R)
      → key old ≡ key new
      → any (conflict (merge old new)) rows ≡ any (conflict new) rows
  any_merge old new [] h = refl
  any_merge old new (r ∷ rows) h = rw (c_merge old new r h, any_merge old new rows h)

  -- A row that is in conflict with no other may be put into the table.
  pub upsert-IsIndex :
      (new : R) (rows : List R)
      → any (conflict new) rows ≡ false
      → IsIndex conflict rows
      → IsIndex conflict (upsert key merge new rows)
  upsert-IsIndex new rows free h =
      let table = upsert key merge new rows in
      let fresh : any (conflict new) table ≡ false =
        any-upsert (conflict new) new rows (c_self new new refl)
          (λ old same. c_self new (merge old new) (sym (keeps old new ∙ same))) free in
      upsert-All key merge keeps (λ r. any (conflict r) table ≡ false) new rows fresh
        (λ old _ same. any_merge old new table same ∙ fresh)
        (All-imp _ _ rows
          (λ r both.
            any-upsert (conflict r) new rows (c_sym new r both.1)
              (λ old same. c_sym (merge old new) r (c_merge old new r same ∙ both.1)) both.0)
          (All-zip (λ r. any (conflict r) rows ≡ false) (λ r. conflict new r ≡ false) rows h
            (any-All (conflict new) rows free)))
