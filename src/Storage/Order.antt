-- ===== src/Storage/Order.antt =====
-- `ORDER BY`: texts in the order of their code points (SQLite's BINARY, and Rust's `Ord`) or with
-- ASCII letters of one case (NOCASE), and sorting by a test. SQLite leaves the order of equal rows
-- open; here they stay in the order of the table.
pub mod Texts
pub mod Sorting
pub mod Filtering
use Prim.Native.Char.{code}
use Prim.Native.String.{String}
use quick_mail.Prelude.{
  ℕ, ◌+◌, Bool, true, false, not, List, [], ◌∷◌, map, ltb, leb, nat_beq, ◌&&◌, if◌then◌else◌,
}

abbrev pub codes : String → List ℕ
codes String.[] = []
codes (String.◌∷◌ c s) = code c ∷ codes s

unfoldable pub codes_ltb : List ℕ → List ℕ → Bool
codes_ltb xs [] = false
codes_ltb [] (y ∷ ys) = true
codes_ltb (x ∷ xs) (y ∷ ys) =
    let rest = codes_ltb xs ys in if ltb x y then true else if nat_beq x y then rest else false

unfoldable pub text_ltb : String → String → Bool
text_ltb s t = codes_ltb (codes s) (codes t)

unfoldable pub fold_case : ℕ → ℕ
fold_case c = if leb b'A' c && leb c b'Z' then c + 32 else c

-- `COLLATE NOCASE`.
unfoldable pub nocase_ltb : String → String → Bool
nocase_ltb s t = codes_ltb (map fold_case (codes s)) (map fold_case (codes t))

module _ {ℓ} {R : Type ℓ} (before : R → R → Bool) where
  -- Puts the row behind those that do not come after it.
  unfoldable pub insert_row : R → List R → List R
  insert_row r [] = r ∷ []
  insert_row r (q ∷ rows) = if before q r then q ∷ insert_row r rows else r ∷ q ∷ rows

  -- `ORDER BY`, by a strict order.
  unfoldable pub order_by : List R → List R
  order_by [] = []
  order_by (r ∷ rows) = insert_row r (order_by rows)
