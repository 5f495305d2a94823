-- ===== src/Storage/Table.antt =====
-- What the SQL statements of crates/quickmaild/src/storage.rs do to one table: a list of rows in
-- the order of their row numbers, each row with the key of the table's primary key.
pub mod Laws
pub mod Index
use quick_mail.Prelude.{
  String, Bool, true, false, not, ◌||◌, Option, none, some, List, [], ◌∷◌, map, HasEq, ◌==◌, any,
  filter, if◌then◌else◌, ◌≡◌,
}

module _ {ℓ} {K R : Type ℓ} ⦃e : HasEq K⦄ (key : R → K) where
  -- `SELECT … WHERE key = ?`.
  unfoldable pub find : K → List R → Option R
  find k [] = none
  find k (r ∷ rows) = if key r == k then some r else find k rows

  -- Whether the key is present.
  unfoldable pub has : K → List R → Bool
  has k [] = false
  has k (r ∷ rows) = key r == k || has k rows

  -- `INSERT … ON CONFLICT(key) DO UPDATE`: `merge old excluded` is the row after the update.
  unfoldable pub upsert : (R → R → R) → R → List R → List R
  upsert merge new [] = new ∷ []
  upsert merge new (r ∷ rows) =
      if key r == key new then merge r new ∷ rows else r ∷ upsert merge new rows

  -- The primary key is unique.
  unfoldable pub IsKeyed : List R → Type ℓ
  IsKeyed [] = Unit
  IsKeyed (r ∷ rows) = (has (key r) rows ≡ false) × IsKeyed rows

module _ {ℓ} {R : Type ℓ} where
  -- `UPDATE … WHERE`.
  unfoldable pub update : (R → Bool) → (R → R) → List R → List R
  update test f [] = []
  update test f (r ∷ rows) = (if test r then f r else r) ∷ update test f rows

  -- `DELETE … WHERE`.
  unfoldable pub delete : (R → Bool) → List R → List R
  delete test = filter (λ r. not (test r))
