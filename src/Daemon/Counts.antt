-- ===== src/Daemon/Counts.antt =====
-- The numbers beside an account: `account_counts_from_mailboxes` of
-- crates/quickmaild/src/daemon.rs.
use quick_mail.Prelude.{
  ℕ, ◌≤◌, Bool, true, false, Option, none, some, List, [], ◌∷◌, ◌≡◌, refl, arith, subst, inl, inr,
  Bool-cases, Option-cases, All, ◌==◌, string_eq, ltb, if◌then◌else◌,
}
use quick_mail.Imap.Threads.{or_else, to_ascii_lowercase}
use quick_mail.Models.{Mailbox, inbox, drafts, sent, archive, trash, spam, other}

abbrev is_inbox : Mailbox → Bool
is_inbox mailbox = elim mailbox.role [
  | none ↦ false
  | some role ↦ elim role [
    | inbox ↦ true
    | drafts ↦ false
    | sent ↦ false
    | archive ↦ false
    | trash ↦ false
    | spam ↦ false
    | other ↦ false
  ]
]

abbrev is_named_inbox : Mailbox → Bool
is_named_inbox mailbox = to_ascii_lowercase mailbox.name == "inbox"

-- `iter().find(p)`.
unfoldable first_mailbox : (Mailbox → Bool) → List Mailbox → Option Mailbox
first_mailbox p [] = none
first_mailbox p (mailbox ∷ mailboxes) =
    let rest = first_mailbox p mailboxes in if p mailbox then some mailbox else rest

abbrev larger : Mailbox → Option Mailbox → Option Mailbox
larger mailbox none = some mailbox
larger mailbox (some later) = if ltb later.total mailbox.total then some mailbox else some later

-- `max_by_key(total)`: the last of the largest.
unfoldable largest_mailbox : List Mailbox → Option Mailbox
largest_mailbox [] = none
largest_mailbox (mailbox ∷ mailboxes) = larger mailbox (largest_mailbox mailboxes)

abbrev mailbox_counts : Option Mailbox → ℕ × ℕ
mailbox_counts none = (0, 0)
mailbox_counts (some mailbox) = (mailbox.unread, mailbox.total)

unfoldable account_counts_from_mailboxes : List Mailbox → ℕ × ℕ
unfolding first_mailbox largest_mailbox to_ascii_lowercase
account_counts_from_mailboxes mailboxes = mailbox_counts (
    or_else (first_mailbox is_inbox mailboxes)
      (or_else (first_mailbox is_named_inbox mailboxes) (largest_mailbox mailboxes)))

-- Overlapping folders are not added up.
badges :
    account_counts_from_mailboxes (
      record {
        id = "archive";
        account_id = "account";
        name = "All Mail";
        role = some archive;
        unread = 80;
        total = 50000;
      }
      ∷ record {
        id = "inbox";
        account_id = "account";
        name = "Inbox";
        role = some inbox;
        unread = 7;
        total = 320;
      }
      ∷ [])
    ≡ (7, 320)
unfolding account_counts_from_mailboxes
badges = refl

-- A mailbox that is found is one that was looked for.
first_mailbox_passes :
    (p : Mailbox → Bool) (mailboxes : List Mailbox) {found : Mailbox}
    → first_mailbox p mailboxes ≡ some found
    → p found ≡ true
unfolding first_mailbox
first_mailbox_passes p [] {found} h = ground arith
first_mailbox_passes p (mailbox ∷ mailboxes) {found} h =
    ground (arith, first_mailbox_passes p mailboxes {found = found})

some_inj : {a b : Mailbox} → ◌≡◌ {A = Option Mailbox} (some a) (some b) → a ≡ b
some_inj h = cc

weaken :
    (m n : ℕ) (mailboxes : List Mailbox)
    → m ≤ n
    → All (λ mailbox. mailbox.total ≤ m) mailboxes
    → All (λ mailbox. mailbox.total ≤ n) mailboxes
weaken m n [] h all = tt
weaken m n (mailbox ∷ mailboxes) h (here, later) = (omega arith, weaken m n mailboxes h later)

largest_mailbox-none :
    (mailboxes : List Mailbox) → largest_mailbox mailboxes ≡ none → mailboxes ≡ []
unfolding largest_mailbox
largest_mailbox-none [] h = refl
largest_mailbox-none (mailbox ∷ mailboxes) h = elim (Option-cases (largest_mailbox mailboxes)) [
  | inl e ↦ let h' = rw (largest_mailbox, e) at h in cc
  | inr (later, e) ↦ elim (Bool-cases (ltb later.total mailbox.total)) [
    | inl t ↦ let h' = rw (largest_mailbox, e, t) at h in cc
    | inr t ↦ let h' = rw (largest_mailbox, e, t) at h in cc
  ]
]

-- No mailbox has more messages than the largest.
largest_mailbox_bounds :
    (mailboxes : List Mailbox) {largest : Mailbox}
    → largest_mailbox mailboxes ≡ some largest
    → All (λ mailbox. mailbox.total ≤ largest.total) mailboxes
unfolding largest_mailbox
largest_mailbox_bounds [] h = tt
largest_mailbox_bounds (mailbox ∷ mailboxes) {largest} h =
    elim (Option-cases (largest_mailbox mailboxes)) [
      | inl e ↦
          let same = some_inj (rw (largest_mailbox, e) at h) in
          subst (λ m. (mailbox.total ≤ m.total) × All (λ b. b.total ≤ m.total) mailboxes) same
            (rw (largest_mailbox-none mailboxes e) (omega arith, tt))
      | inr (later, e) ↦
          let all = largest_mailbox_bounds mailboxes e in
          elim (Bool-cases (ltb later.total mailbox.total)) [
            | inl t ↦
                let same = some_inj (rw (largest_mailbox, e, t) at h) in
                let above = weaken later.total mailbox.total mailboxes (ground arith) all in
                subst (λ m. (mailbox.total ≤ m.total) × All (λ b. b.total ≤ m.total) mailboxes) same
                  (omega arith, above)
            | inr t ↦
                let same = some_inj (rw (largest_mailbox, e, t) at h) in
                subst (λ m. (mailbox.total ≤ m.total) × All (λ b. b.total ≤ m.total) mailboxes) same
                  (ground arith, all)
          ]
    ]
