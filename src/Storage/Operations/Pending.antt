-- ===== src/Storage/Operations/Pending.antt =====
-- The list that `list_pending_agenda_operations` of crates/quickmaild/src/storage.rs returns.
use quick_mail.Prelude.{
  ℕ, zero, suc, ◌≤◌, String, Bool, true, false, ◌&&◌, ◌≡◌, Option, none, some, List, [], ◌∷◌, All,
  All-imp, any, length, string_eq, ◌==◌, beq_refl, arith, if◌then◌else◌, Bool-cases, inl, inr,
}
use quick_mail.Storage.Schema.{OperationRow, Repository}
use quick_mail.Storage.Serde.{Serde}
use quick_mail.Storage.Result.{
  ok, err, serialization, ◌>>=◌, Ensures, Ensures-bind, Ensures-imp, Ensures-elim, Ensures-Unit,
  returns, fails,
}
use quick_mail.Storage.Operations.{
  PendingAgendaOperation, is_expected, extracts_account, operation_account, select_pending,
  read_pending, list_pending_agenda_operations, like_agenda,
}

module _ {Json Text : Type 0} (serde : Serde Json Text) where
  -- A row of the table that waits for its provider, under the id of the answer.
  abbrev pub waits : List (OperationRow Text) → String → Bool
  waits operations id =
      any (λ o. o.id == id && (o.state == "pending" && like_agenda o.kind)) operations

  abbrev Selected : ℕ → List (OperationRow Text) → List (OperationRow Text) → Type 0
  Selected limit operations out = (length out ≤ limit) × All (λ o. waits operations o.id ≡ true) out

  weaken :
      (limit : ℕ) (o : OperationRow Text) (operations out : List (OperationRow Text))
      → Selected limit operations out
      → Selected limit (o ∷ operations) out
  weaken limit o operations out h = (
    h.0,
    All-imp (λ q. waits operations q.id ≡ true) (λ q. waits (o ∷ operations) q.id ≡ true) out
        (λ q there. ground (arith, there)) h.1,
  )

  select_pending-Selected :
      (limit : ℕ) (account_id : Option String) (operations : List (OperationRow Text))
      → Ensures (Selected limit operations) (select_pending serde limit account_id operations)
  unfolding select_pending
  select_pending-Selected limit account_id [] = returns [] (omega arith, tt)
  select_pending-Selected zero account_id (o ∷ operations) = returns [] (omega arith, tt)
  select_pending-Selected (suc limit) account_id (o ∷ operations) =
      elim (Bool-cases (o.state == "pending" && like_agenda o.kind)) [
        | inr other ↦
            rw (select_pending, other)
              (Ensures-imp (weaken (suc limit) o operations)
                (select_pending-Selected (suc limit) account_id operations))
        | inl here ↦
            rw (select_pending, here)
              (Ensures-bind {Q = λ _. Unit}
                (Ensures-Unit (extracts_account serde account_id o.payload_json))
                (λ b _.
                  elim b
                    as (λ b. Ensures (Selected (suc limit) (o ∷ operations)) (elim b [
                      | false ↦ select_pending serde (suc limit) account_id operations
                      | true ↦
                          select_pending serde limit account_id operations >>= λ rest. ok (o ∷ rest)
                    ])) [
                      | false ↦
                          Ensures-imp (weaken (suc limit) o operations)
                            (select_pending-Selected (suc limit) account_id operations)
                      | true ↦
                          Ensures-bind (select_pending-Selected limit account_id operations)
                            (λ out h. returns (o ∷ out) (
                              omega (arith, h.0),
                              (
                                ground (arith, beq_refl o.id, here),
                                (weaken limit o operations out h).1,
                              ),
                            ))
                    ]))
      ]

  abbrev Read :
      Option String
      → List (OperationRow Text)
      → List (OperationRow Text)
      → List (PendingAgendaOperation Json)
      → Type 0
  Read account_id operations selected out =
      (length out ≤ length selected)
      × All (λ p. waits operations p.id ≡ true) out
      × All (λ p. is_expected serde account_id p.account_id ≡ true) out

  read_pending-Read :
      (account_id : Option String) (operations selected : List (OperationRow Text))
      → All (λ o. waits operations o.id ≡ true) selected
      → Ensures (Read account_id operations selected) (read_pending serde account_id selected)
  unfolding read_pending
  read_pending-Read account_id operations [] h = returns [] (omega arith, tt, tt)
  read_pending-Read account_id operations (o ∷ selected) h =
      elim (serde.value.from_str o.payload_json)
        as (λ parsed. Ensures (Read account_id operations (o ∷ selected)) (elim parsed [
          | none ↦ err serialization
          | some payload ↦ operation_account serde payload >>= λ operation_account_id.
              read_pending serde account_id selected >>= λ rest. ok (
                if is_expected serde account_id operation_account_id
                then record {
                  id = o.id;
                  kind = o.kind;
                  account_id = operation_account_id;
                  payload = payload;
                  attempted_at = o.attempted_at;
                }
                  ∷ rest
                else rest)
        ])) [
          | none ↦ fails _
          | some payload ↦
              Ensures-bind {Q = λ _. Unit} (Ensures-Unit (operation_account serde payload))
                (λ owner _.
                  Ensures-bind (read_pending-Read account_id operations selected h.1) (λ rest r.
                    elim (Bool-cases (is_expected serde account_id owner)) [
                      | inl mine ↦ rw mine (returns _ (omega (arith, r.0), (h.0, r.1), (mine, r.2)))
                      | inr other ↦ rw other (returns rest (omega (arith, r.0), r.1, r.2))
                    ]))
        ]

  -- `list_pending_agenda_operations` returns at most 128 operations. Each of them stands in the
  -- table as a pending agenda operation, and belongs to the account that was asked for, if one was.
  pub list_pending_agenda_operations-pending :
      (account_id : Option String) (r : Repository Text) (out : List (PendingAgendaOperation Json))
      → list_pending_agenda_operations serde account_id r ≡ ok out
      → (length out ≤ 128)
        × All (λ p. waits r.operations p.id ≡ true) out
        × All (λ p. is_expected serde account_id p.account_id ≡ true) out
  unfolding list_pending_agenda_operations
  list_pending_agenda_operations-pending account_id r out h =
      Ensures-elim
        {P = λ out.
          (length out ≤ 128)
          × All (λ p. waits r.operations p.id ≡ true) out
          × All (λ p. is_expected serde account_id p.account_id ≡ true) out}
        (list_pending_agenda_operations serde account_id r)
        (Ensures-bind (select_pending-Selected 128 account_id r.operations) (λ selected s.
          Ensures-imp (λ res read. (omega (arith, read.0, s.0), read.1, read.2))
            (read_pending-Read account_id r.operations selected s.1)))
        h
