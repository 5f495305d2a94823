-- ===== src/Storage/Listing/Positions.antt =====
-- The order of pages is a strict total order on the places of messages.
use text.Mathlib.TextEquality.{eq_iff}
use quick_mail.Prelude.{
  true, false, ◌≡◌, arith, List, [], ◌∷◌, ◌++◌, All, filter, Bool-cases, inl, inr, string_eq, subst,
}
use quick_mail.Storage.Table.{has, IsKeyed}
use quick_mail.Storage.Schema.{MessageRow, message_key}
use quick_mail.Storage.Order.Texts.{text_ltb_irrefl, text_ltb_trans, text_ltb_total}
use quick_mail.Storage.Order.Sorting.{IsOrdered}
use quick_mail.Storage.Order.Filtering.{filter-All}
use quick_mail.Storage.Listing.{Position, below, position, newest_first}

pub below_irrefl : (p : Position) → below p p ≡ false
unfolding below
below_irrefl p = ground (arith, text_ltb_irrefl p.1)

pub below_trans : (p q r : Position) → below p q ≡ true → below q r ≡ true → below p r ≡ true
unfolding below
below_trans p q r h k = ground (arith, text_ltb_trans p.1 q.1 r.1)

pub below_total : (p q : Position) → below p q ≡ false → below q p ≡ false → p.1 ≡ q.1
unfolding below
below_total p q h k = ground (arith, text_ltb_total p.1 q.1)

below_times : (p q : Position) → below p q ≡ false → below q p ≡ false → p.0 ≡ q.0
unfolding below
below_times p q h k = ground (arith, text_ltb_total p.1 q.1)

pub below_same : (p q : Position) → below p q ≡ false → below q p ≡ false → p ≡ q
below_same p q h k = λ i. (below_times p q h k i, below_total p q h k i)

pub below_neg_trans : (p q r : Position) → below p q ≡ false → below q r ≡ false → below p r ≡ false
below_neg_trans p q r h k = elim (Bool-cases (below r q)) [
  | inl higher ↦ ground (arith, below_trans p r q)
  | inr equal ↦ subst (λ s. below p s ≡ false) (below_same q r k equal) h
]

module _ {Text : Type 0} where
  pub newest_first_irrefl : (a : MessageRow Text) → newest_first a a ≡ false
  unfolding newest_first
  newest_first_irrefl a = below_irrefl (position a)

  pub newest_first_trans :
      (a b c : MessageRow Text)
      → newest_first a b ≡ true
      → newest_first b c ≡ true
      → newest_first a c ≡ true
  unfolding newest_first
  newest_first_trans a b c h k = below_trans (position c) (position b) (position a) k h

  pub newest_first_neg_trans :
      (a b c : MessageRow Text)
      → newest_first a b ≡ false
      → newest_first b c ≡ false
      → newest_first a c ≡ false
  unfolding newest_first
  newest_first_neg_trans a b c h k = below_neg_trans (position c) (position b) (position a) k h

  -- In a sorted table with unique ids, what stands after a row is strictly below it.
  later-below :
      (x : MessageRow Text) (rows : List (MessageRow Text))
      → has message_key x.id rows ≡ false
      → All (λ q. newest_first q x ≡ false) rows
      → All (λ q. below (position q) (position x) ≡ true) rows
  unfolding newest_first has
  later-below x [] fresh h = tt
  later-below x (q ∷ rows) fresh h = (
    elim (Bool-cases (below (position q) (position x))) [
      | inl low ↦ low
      | inr high ↦
          absurd (ground (arith, below_total (position q) (position x) high h.0, eq_iff q.id x.id))
    ],
    later-below x rows (ground arith) h.1,
  )

  -- The rows below one of them are those that stand after it.
  pub filter-below :
      (above : List (MessageRow Text)) (x : MessageRow Text) (rest : List (MessageRow Text))
      → IsOrdered newest_first (above ++ x ∷ rest)
      → IsKeyed message_key (above ++ x ∷ rest)
      → filter (λ q. below (position q) (position x)) (above ++ x ∷ rest) ≡ rest
  unfolding newest_first IsKeyed
  filter-below [] x rest ordered keyed =
      rw (below_irrefl (position x)) (filter-All _ rest (later-below x rest keyed.0 ordered.0))
  filter-below (a ∷ above) x rest ordered keyed =
      rw (first-not-below above ordered.0) (filter-below above x rest ordered.1 keyed.1)
    where
      first-not-below :
          (above : List (MessageRow Text))
          → All (λ q. newest_first q a ≡ false) (above ++ x ∷ rest)
          → below (position a) (position x) ≡ false
      first-not-below [] h = h.0
      first-not-below (b ∷ above) h = first-not-below above h.1
