-- ===== src/Storage/Revision.antt =====
-- `read_revision` and `bump_revision` of crates/quickmaild/src/storage.rs.
use quick_mail.Prelude.{ℕ, ◌+◌, ltb, if◌then◌else◌}
use quick_mail.Storage.Schema.{Repository, fits_i64}
use quick_mail.Storage.Result.{
  Result, ok, err, invalid_data, ◌>>=◌, Ensures, Ensures-if, Ensures-bind, Ensures-Unit, returns,
  fails,
}

module _ {Text : Type 0} where
  -- The text parses as a `u64` if the number is below 2^64.
  unfoldable pub read_revision : Repository Text → Result ℕ
  read_revision r =
      if ltb r.revision 18446744073709551616
      then ok r.revision
      else err (invalid_data "metadata revision is not an integer")

  -- `CAST(value AS INTEGER)+1` is an integer below 2^63; past that SQLite goes over to a floating
  -- number, whose text does not parse.
  unfoldable pub bump_revision : Repository Text → Result (Repository Text × ℕ)
  bump_revision r =
      if fits_i64 (r.revision + 1)
      then ok (record r { revision = r.revision + 1 }, r.revision + 1)
      else err (invalid_data "metadata revision is not an integer")

  -- A change that is committed with `bump_revision` differs from the change in the number only.
  pub bump_revision-Ensures :
      (P : Repository Text → Type 0) (r : Repository Text)
      → P (record r { revision = r.revision + 1 })
      → Ensures (λ p. P p.0) (bump_revision r)
  unfolding bump_revision
  bump_revision-Ensures P r h =
      Ensures-if (fits_i64 (r.revision + 1)) (λ _. returns _ h) (λ _. fails _)

  pub read_revision-Ensures :
      (P : Repository Text → Type 0) (r : Repository Text)
      → P r
      → Ensures {A = Repository Text × ℕ} (λ p. P p.0) (read_revision r >>= λ n. ok (r, n))
  read_revision-Ensures P r h =
      Ensures-bind (Ensures-Unit (read_revision r)) (λ n _. returns (r, n) h)
