-- ===== src/Daemon/Dispatch/Owners.antt =====
-- Which account owns a message, apart from how the daemon looks for it.
use Prim.Native.String.{len}
use quick_mail.Prelude.{
  ℕ, String, Bool, true, false, not, ◌&&◌, ◌||◌, none, some, List, [], ◌∷◌, ◌≡◌, refl, subst, arith,
  inl, inr, Bool-cases, Option-cases, all, any, ◌==◌, string_eq, beq_refl, leb, ltb, some_inj,
}
use quick_mail.Daemon.Dispatch.{owner_of}
use quick_mail.Models.Ids.{is_normalized_message_id}

-- An account whose id the message's id starts with, and no such account has a longer id.
abbrev pub is_longest : List String → String → String → Bool
is_longest accounts account_id id =
    any (λ other. other == account_id) accounts
    && (is_normalized_message_id account_id id
        && all
            (λ other. not (is_normalized_message_id other id) || leb (len other) (len account_id))
            accounts)

owner_of-none :
    (accounts : List String) (id : String) (n : ℕ)
    → owner_of accounts id ≡ none
    → all (λ other. not (is_normalized_message_id other id) || leb (len other) n) accounts ≡ true
unfolding owner_of
owner_of-none [] id n h = refl
owner_of-none (account_id ∷ accounts) id n h =
    elim (Bool-cases (is_normalized_message_id account_id id)) [
      | inr other ↦
          let rest = owner_of-none accounts id n (rw (owner_of, other) at h) in
          ground (arith, rest, other)
      | inl starts ↦ elim (Option-cases (owner_of accounts id)) [
        | inl e ↦ let h' = rw (owner_of, starts, e) at h in cc
        | inr (later, e) ↦ elim (Bool-cases (ltb (len later) (len account_id))) [
          | inl longer ↦ let h' = rw (owner_of, starts, e, longer) at h in cc
          | inr shorter ↦ let h' = rw (owner_of, starts, e, shorter) at h in cc
        ]
      ]
    ]

weaken :
    (accounts : List String) (id : String) (m n : ℕ)
    → leb m n ≡ true
    → all (λ other. not (is_normalized_message_id other id) || leb (len other) m) accounts ≡ true
    → all (λ other. not (is_normalized_message_id other id) || leb (len other) n) accounts ≡ true
weaken [] id m n le h = refl
weaken (other ∷ accounts) id m n le h = ground (arith, le, h, weaken accounts id m n le)

first_longest :
    (first : String) (accounts : List String) (id : String)
    → is_normalized_message_id first id ≡ true
    → all (λ other. not (is_normalized_message_id other id) || leb (len other) (len first)) accounts
      ≡ true
    → is_longest (first ∷ accounts) first id ≡ true
first_longest first accounts id h k = ground (arith, h, k, beq_refl first)

later_longest :
    (first later : String) (accounts : List String) (id : String)
    → leb (len first) (len later) ≡ true
    → is_longest accounts later id ≡ true
    → is_longest (first ∷ accounts) later id ≡ true
later_longest first later accounts id h k = ground (arith, h, k)

longest_bounds :
    (later : String) (accounts : List String) (id : String)
    → is_longest accounts later id ≡ true
    → all (λ other. not (is_normalized_message_id other id) || leb (len other) (len later)) accounts
      ≡ true
longest_bounds later accounts id h = ground (arith, h)

below : (m n : ℕ) → ltb m n ≡ true → leb m n ≡ true
below m n h = ground (arith, h)

above : (m n : ℕ) → ltb m n ≡ false → leb n m ≡ true
above m n h = ground (arith, h)

not_first :
    (first account_id : String) (accounts : List String) (id : String)
    → is_normalized_message_id first id ≡ false
    → is_longest accounts account_id id ≡ true
    → is_longest (first ∷ accounts) account_id id ≡ true
not_first first account_id accounts id h k = ground (arith, h, k)

pub owner_of-longest :
    (accounts : List String) (id account_id : String)
    → owner_of accounts id ≡ some account_id
    → is_longest accounts account_id id ≡ true
unfolding owner_of
owner_of-longest [] id account_id h = cc
owner_of-longest (first ∷ accounts) id account_id h =
    elim (Bool-cases (is_normalized_message_id first id)) [
      | inr other ↦
          let rest = owner_of-longest accounts id account_id (rw (owner_of, other) at h) in
          not_first first account_id accounts id other rest
      | inl starts ↦ elim (Option-cases (owner_of accounts id)) [
        | inl e ↦
            let same = some_inj (rw (owner_of, starts, e) at h) in
            subst (λ a. is_longest (first ∷ accounts) a id ≡ true) same
              (first_longest first accounts id starts (owner_of-none accounts id (len first) e))
        | inr (later, e) ↦
            let rest = owner_of-longest accounts id later e in
            elim (Bool-cases (ltb (len later) (len first))) [
              | inl longer ↦
                  let same = some_inj (rw (owner_of, starts, e, longer) at h) in
                  let bounds =
                    weaken accounts id (len later) (len first) (below _ _ longer)
                      (longest_bounds later accounts id rest) in
                  subst (λ a. is_longest (first ∷ accounts) a id ≡ true) same
                    (first_longest first accounts id starts bounds)
              | inr shorter ↦
                  let same = some_inj (rw (owner_of, starts, e, shorter) at h) in
                  subst (λ a. is_longest (first ∷ accounts) a id ≡ true) same
                    (later_longest first later accounts id (above _ _ shorter) rest)
            ]
      ]
    ]
