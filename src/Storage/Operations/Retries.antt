-- ===== src/Storage/Operations/Retries.antt =====
-- Agenda operations of crates/quickmaild/src/storage.rs that a provider could not take yet.
use quick_mail.Prelude.{
  ℤ, String, true, not, ◌≡◌, refl, ap, ◌&&◌, ◌||◌, ◌==◌, beq_refl, filter, Bool, Option, some, List,
  [], ◌∷◌, any, string_eq, arith, Bool-cases, inl, inr,
}
use quick_mail.Storage.Scope.{option_eq}
use quick_mail.Storage.Table.{update}
use quick_mail.Storage.Schema.{OperationRow, Repository}
use quick_mail.Storage.Result.{ok, Ensures-guard, Ensures-elim, returns}
use quick_mail.Storage.Operations.{is_deferrable, like_agenda, defer_operation}

true_or : (a b : Bool) → a ≡ true → (a || b) ≡ true
true_or a b h = ground (arith, h)

or_true : (a b : Bool) → b ≡ true → (a || b) ≡ true
or_true a b h = ground (arith, h)

module _ {Text : Type 0} where
  abbrev postponed : ℤ → String → OperationRow Text → OperationRow Text
  postponed now error o = record o {
    state = "pending";
    attempted_at = some now;
    last_error = some error;
  }

  still_deferrable :
      (now : ℤ) (id error : String) (o : OperationRow Text)
      → is_deferrable id o ≡ true
      → is_deferrable id (postponed now error o) ≡ true
  unfolding is_deferrable
  still_deferrable now id error o h = ground (arith, h)

  others_kept :
      (now : ℤ) (id error : String) (rows : List (OperationRow Text))
      → filter
          (λ o. not (is_deferrable id o))
          (update (is_deferrable id) (postponed now error) rows)
        ≡ filter (λ o. not (is_deferrable id o)) rows
  unfolding update
  others_kept now id error [] = refl
  others_kept now id error (o ∷ rows) = elim (Bool-cases (is_deferrable id o)) [
    | inl put_off ↦
        rw (put_off, still_deferrable now id error o put_off) (others_kept now id error rows)
    | inr other ↦ rw (other, other) (ap (λ l. o ∷ l) (others_kept now id error rows))
  ]

  -- The operation of the id, in the state and of a kind that is deferred, and its last error.
  abbrev pub waits_with : String → Option String → OperationRow Text → Bool
  waits_with id error o =
      o.id == id && (o.state == "pending" && (like_agenda o.kind && option_eq o.last_error error))

  postponed_waits :
      (now : ℤ) (id error : String) (o : OperationRow Text)
      → is_deferrable id o ≡ true
      → waits_with id (some error) (postponed now error o) ≡ true
  unfolding is_deferrable
  postponed_waits now id error o h = ground (arith, h, beq_refl error)

  found_again :
      (now : ℤ) (id error : String) (rows : List (OperationRow Text))
      → any (is_deferrable id) rows ≡ true
      → any (waits_with id (some error)) (update (is_deferrable id) (postponed now error) rows)
        ≡ true
  unfolding update
  found_again now id error [] h = ground (arith, h)
  found_again now id error (o ∷ rows) h = elim (Bool-cases (is_deferrable id o)) [
    | inl put_off ↦ rw put_off (true_or _ _ (postponed_waits now id error o put_off))
    | inr other ↦ rw other (or_true _ _ (found_again now id error rows (rw (other) at h)))
  ]

  -- `defer_operation` succeeds only for a pending agenda operation. That operation is pending
  -- afterwards too, with the error noted, so that it can be tried and put off again. Every other
  -- operation and every other table is as it was.
  pub defer_operation-waits :
      (now : ℤ) (operation_id error : String) (r r' : Repository Text)
      → defer_operation now operation_id error r ≡ ok r'
      → (any
            (λ o. o.id == operation_id && (o.state == "pending" && like_agenda o.kind))
            r.operations
          ≡ true)
        × (any (waits_with operation_id (some error)) r'.operations ≡ true)
        × (filter (λ o. not (is_deferrable operation_id o)) r'.operations
            ≡ filter (λ o. not (is_deferrable operation_id o)) r.operations)
        × (r' ≡ record r { operations = r'.operations })
  unfolding defer_operation is_deferrable
  defer_operation-waits now operation_id error r r' h =
      Ensures-elim
        {P = λ q.
          (any (λ o. o.id == operation_id && (o.state == "pending" && like_agenda o.kind))
              r.operations
            ≡ true)
          × (any (waits_with operation_id (some error)) q.operations ≡ true)
          × (filter (λ o. not (is_deferrable operation_id o)) q.operations
              ≡ filter (λ o. not (is_deferrable operation_id o)) r.operations)
          × (q ≡ record r { operations = q.operations })}
        (defer_operation now operation_id error r)
        (Ensures-guard (any (is_deferrable operation_id) r.operations) _ (λ there. returns _ (
          there,
          found_again now operation_id error r.operations there,
          others_kept now operation_id error r.operations,
          refl,
        )))
        h
