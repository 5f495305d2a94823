-- ===== src/Daemon/Dispatch/Groups.antt =====
-- Each message of an action goes to the provider of its own account.
use quick_mail.Prelude.{
  Option, none, true, String, Bool, some, List, [], ◌∷◌, ◌++◌, ◌≡◌, ap, sym, ◌∙◌, arith, inl, inr,
  Bool-cases, Option-cases, ◌==◌, string_eq, filter, map, subst, All, eq_of_beq, if◌then◌else◌,
}
use mathlib.Core.List.{append-nil, append_assoc}
use text.Mathlib.TextEquality.{eq_iff}
use quick_mail.Daemon.Dispatch.{
  owner_of, push_to, group_ids, apply_groups, apply_provider_action, action_with_ids,
  action_message_ids,
}
use quick_mail.Daemon.Dispatch.Owners.{is_longest, owner_of-longest}
use quick_mail.Imap.Session.{Step}
use quick_mail.Provider.{ProviderError, MailAction}
use quick_mail.Imap.Error.{Reply, done}
use quick_mail.Storage.Scope.{option_eq}

-- The messages that go to an account.
unfoldable pub ids_of : String → List (String × List String) → List String
ids_of account_id [] = []
ids_of account_id ((other, ids) ∷ groups) =
    let rest = ids_of account_id groups in if other == account_id then ids else rest

abbrev pub is_owner : List String → String → String → Bool
is_owner accounts account_id id = option_eq (owner_of accounts id) (some account_id)

ids_of-push_to :
    (account_id owner id : String) (groups : List (String × List String))
    → ids_of account_id (push_to owner id groups) ≡ (
        if owner == account_id
        then ids_of account_id groups ++ (id ∷ [])
        else ids_of account_id groups)
unfolding ids_of push_to
ids_of-push_to account_id owner id [] = ground arith
ids_of-push_to account_id owner id ((other, ids) ∷ groups) = ground (
  arith,
  eq_iff other owner,
  eq_iff other account_id,
  eq_iff owner account_id,
  ids_of-push_to account_id owner id groups,
)

done_inj : {E A : Type 0} {a b : A} → ◌≡◌ {A = Reply E A} (done a) (done b) → a ≡ b
done_inj h = cc

grouped :
    (accounts ids : List String) (before : List (String × List String)) (account_id : String)
    {groups : List (String × List String)}
    → group_ids accounts ids before ≡ done groups
    → ids_of account_id groups
      ≡ ids_of account_id before ++ filter (is_owner accounts account_id) ids
unfolding group_ids
grouped accounts [] before account_id {groups} h =
    ap (ids_of account_id) (sym (done_inj h)) ∙ sym (append-nil (ids_of account_id before))
grouped accounts (id ∷ ids) before account_id h = elim (Option-cases (owner_of accounts id)) [
  | inl e ↦ let h' = rw (group_ids, e) at h in cc
  | inr (owner, e) ↦
      let later =
        grouped accounts ids (push_to owner id before) account_id (rw (group_ids, e) at h)
        ∙ ap (λ l. l ++ filter (is_owner accounts account_id) ids)
            (ids_of-push_to account_id owner id before) in
      elim (Bool-cases (owner == account_id)) [
        | inl same ↦
            rw (e, same)
              ((rw (same) at later)
                ∙ append_assoc (ids_of account_id before) (id ∷ [])
                    (filter (is_owner accounts account_id) ids))
        | inr other ↦ rw (e, other) (rw (other) at later)
      ]
]

group_ids_exact :
    (accounts ids : List String) (groups : List (String × List String)) (account_id : String)
    → group_ids accounts ids [] ≡ done groups
    → ids_of account_id groups ≡ filter (is_owner accounts account_id) ids
unfolding ids_of
group_ids_exact accounts ids groups account_id h = grouped accounts ids [] account_id h

option_eq-some : (o : Option String) (a : String) → option_eq o (some a) ≡ true → o ≡ some a
option_eq-some none a h = cc
option_eq-some (some b) a h = ap some (eq_of_beq b a h)

owned_longest :
    (accounts ids : List String) (account_id : String)
    → All
        (λ id. is_longest accounts account_id id ≡ true)
        (filter (is_owner accounts account_id) ids)
owned_longest accounts [] account_id = tt
owned_longest accounts (id ∷ ids) account_id = elim (Bool-cases (is_owner accounts account_id id)) [
  | inl owns ↦ rw owns (
    owner_of-longest accounts id account_id (option_eq-some (owner_of accounts id) account_id owns),
    owned_longest accounts ids account_id,
  )
  | inr other ↦ rw other (owned_longest accounts ids account_id)
]

-- What the providers are told, in turn.
abbrev pub Log : Type 0
Log = List (String × MailAction)

-- A provider that notes what it is told.
abbrev pub noted : String → MailAction → Step Log ProviderError (Unit {0})
noted account_id action log = (done tt, log ++ ((account_id, action) ∷ []))

abbrev pub told : MailAction → List (String × List String) → Log
told action groups = map (λ g. (g.0, action_with_ids action g.1)) groups

apply_groups-noted :
    (action : MailAction) (groups : List (String × List String)) (log : Log)
    → apply_groups noted action groups log ≡ (done tt, log ++ told action groups)
unfolding apply_groups
apply_groups-noted action [] log = ap (λ l. (done tt, l)) (sym (append-nil log))
apply_groups-noted action ((account_id, ids) ∷ groups) log =
    apply_groups-noted action groups (log ++ ((account_id, action_with_ids action ids) ∷ []))
    ∙ ap (λ l. (done tt, l))
        (append_assoc log ((account_id, action_with_ids action ids) ∷ []) (told action groups))

-- Where every message of an action has an owner, and no provider fails (those of the statement note
-- what they are told), each provider is told the action once for the messages of its group. The group of an account has exactly the messages of the action whose owner
-- the account is, in their order, so none is lost; and each of them has an id that starts with the
-- account's id and with that of no connected account with a longer id.
pub apply_provider_action_exact :
    (accounts : List String) (action : MailAction) (groups : List (String × List String))
    (account_id : String)
    → group_ids accounts (action_message_ids action) [] ≡ done groups
    → (apply_provider_action accounts noted action [] ≡ (done tt, told action groups))
      × (ids_of account_id groups
          ≡ filter (is_owner accounts account_id) (action_message_ids action))
      × All (λ id. is_longest accounts account_id id ≡ true) (ids_of account_id groups)
unfolding apply_provider_action
apply_provider_action_exact accounts action groups account_id h =
    let exact = group_ids_exact accounts (action_message_ids action) groups account_id h in
    (
      (rw (apply_provider_action, h) (apply_groups-noted action groups [])),
      exact,
      subst (All (λ id. is_longest accounts account_id id ≡ true)) (sym exact)
          (owned_longest accounts (action_message_ids action) account_id),
    )
