-- ===== src/Storage/Listing/Pages.antt =====
-- One page of `list_messages`: where it ends, and what its cursor selects next.
use quick_mail.Prelude.{
  ℕ, zero, suc, ◌≤◌, ◌<◌, some, ◌≡◌, refl, arith, List, [], ◌∷◌, ◌++◌, All, length, take, drop, ltb,
}
use quick_mail.Models.{MessageSummary}
use quick_mail.Storage.Schema.{MessageRow}
use quick_mail.Storage.Serde.{Serde}
use quick_mail.Storage.Messages.{message_summary_from_row, collect_summaries}
use quick_mail.Storage.Result.{ok}
use quick_mail.Storage.Listing.{get_last?}

-- A list that is longer than `k` has a row at `k`.
split_at {ℓ} :
    {R : Type ℓ} (k : ℕ) (rows : List R)
    → k < length rows
    → (above : List R) × (x : R) × (take (suc k) rows ≡ above ++ x ∷ [])
      × (rows ≡ above ++ x ∷ drop (suc k) rows)
split_at k [] h = absurd (omega arith)
split_at zero (r ∷ rows) h = ([], r, refl, refl)
split_at (suc k) (r ∷ rows) h =
    let (above, x, taken, whole) = split_at k rows (omega arith) in
    (r ∷ above, x, rw taken, λ i. r ∷ whole i)

-- A page that the rows fill ends with one of them.
pub split_page {ℓ} :
    {R : Type ℓ} (n : ℕ) (rows : List R)
    → 0 < n
    → n ≤ length rows
    → (above : List R) × (x : R) × (take n rows ≡ above ++ x ∷ [])
      × (rows ≡ above ++ x ∷ drop n rows)
split_page zero rows p h = absurd (omega arith)
split_page (suc k) rows p h = split_at k rows h

pub All-middle {ℓ κ} :
    {R : Type ℓ} (P : R → Type κ) (above : List R) (x : R) (rest : List R)
    → All P (above ++ x ∷ rest)
    → P x
All-middle P [] x rest h = h.0
All-middle P (a ∷ above) x rest h = All-middle P above x rest h.1

pub length-drop_lt {ℓ} :
    {R : Type ℓ} (n : ℕ) (rows : List R)
    → 0 < n
    → n < length rows
    → length (drop n rows) < length rows
length-drop_lt zero rows p h = absurd (omega arith)
length-drop_lt (suc n) [] p h = absurd (omega arith)
length-drop_lt (suc zero) (r ∷ rows) p h = omega arith
length-drop_lt (suc (suc n)) (r ∷ rows) p h = omega (arith, length-drop_lt (suc n) rows)

pub take-take-suc {ℓ} :
    {R : Type ℓ} (n : ℕ) (rows : List R) → take n (take (suc n) rows) ≡ take n rows
take-take-suc zero rows = refl
take-take-suc (suc n) [] = refl
take-take-suc (suc n) (r ∷ rows) = rw (take-take-suc n rows)

pub length-take-suc {ℓ} :
    {R : Type ℓ} (n : ℕ) (rows : List R) → ltb n (length (take (suc n) rows)) ≡ ltb n (length rows)
length-take-suc zero [] = refl
length-take-suc zero (r ∷ rows) = ground arith
length-take-suc (suc n) [] = refl
length-take-suc (suc n) (r ∷ rows) = ground (arith, length-take-suc n rows)

module _ {Json Text : Type 0} (serde : Serde Json Text) where
  -- The rows, one by one, as summaries.
  abbrev pub Reads : List (MessageRow Text) → List (MessageSummary Json) → Type 0
  Reads [] [] = Unit
  Reads [] (m ∷ messages) = ⊥
  Reads (row ∷ rows) [] = ⊥
  Reads (row ∷ rows) (m ∷ messages) =
      (message_summary_from_row serde row ≡ ok m) × Reads rows messages

  pub Reads-collect :
      (rows : List (MessageRow Text)) (messages : List (MessageSummary Json))
      → Reads rows messages
      → collect_summaries serde rows ≡ ok messages
  unfolding collect_summaries
  Reads-collect [] [] h = refl
  Reads-collect [] (m ∷ messages) h = absurd h
  Reads-collect (row ∷ rows) [] h = absurd h
  Reads-collect (row ∷ rows) (m ∷ messages) h = rw (h.0, Reads-collect rows messages h.1)

  pub Reads-take :
      (n : ℕ) (rows : List (MessageRow Text)) (messages : List (MessageSummary Json))
      → Reads rows messages
      → Reads (take n rows) (take n messages)
  Reads-take zero rows messages h = tt
  Reads-take (suc n) [] [] h = tt
  Reads-take (suc n) [] (m ∷ messages) h = absurd h
  Reads-take (suc n) (row ∷ rows) [] h = absurd h
  Reads-take (suc n) (row ∷ rows) (m ∷ messages) h = (h.0, Reads-take n rows messages h.1)

  pub Reads-drop :
      (n : ℕ) (rows : List (MessageRow Text)) (messages : List (MessageSummary Json))
      → Reads rows messages
      → Reads (drop n rows) (drop n messages)
  Reads-drop zero rows messages h = h
  Reads-drop (suc n) [] [] h = tt
  Reads-drop (suc n) [] (m ∷ messages) h = absurd h
  Reads-drop (suc n) (row ∷ rows) [] h = absurd h
  Reads-drop (suc n) (row ∷ rows) (m ∷ messages) h = Reads-drop n rows messages h.1

  pub Reads-length :
      (rows : List (MessageRow Text)) (messages : List (MessageSummary Json))
      → Reads rows messages
      → length rows ≡ length messages
  Reads-length [] [] h = refl
  Reads-length [] (m ∷ messages) h = absurd h
  Reads-length (row ∷ rows) [] h = absurd h
  Reads-length (row ∷ rows) (m ∷ messages) h = omega (arith, Reads-length rows messages h.1)

  -- A summary has the place of its row.
  pub summary_position :
      (row : MessageRow Text) (m : MessageSummary Json)
      → message_summary_from_row serde row ≡ ok m
      → (m.timestamp ≡ row.timestamp_ms) × (m.id ≡ row.id)
  unfolding message_summary_from_row
  summary_position row m h = (ground arith, ground arith)

  pub Reads-last :
      (above : List (MessageRow Text)) (x : MessageRow Text) (messages : List (MessageSummary Json))
      → Reads (above ++ x ∷ []) messages
      → (m : MessageSummary Json) × (get_last? messages ≡ some m)
        × (message_summary_from_row serde x ≡ ok m)
  Reads-last [] x [] h = absurd h
  Reads-last [] x (m ∷ []) h = (m, refl, h.0)
  Reads-last [] x (m ∷ m' ∷ messages) h = absurd h.1
  Reads-last (a ∷ above) x [] h = absurd h
  Reads-last (a ∷ above) x (m ∷ messages) h =
      let (last, is_last, reads) = Reads-last above x messages h.1 in
      (last, skip messages is_last, reads)
    where
      skip :
          (messages : List (MessageSummary Json)) {last : MessageSummary Json}
          → get_last? messages ≡ some last
          → get_last? (m ∷ messages) ≡ some last
      skip [] e = cc
      skip (m' ∷ messages) e = e
