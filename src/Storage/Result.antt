-- ===== src/Storage/Result.antt =====
-- `StorageError` of crates/quickmaild/src/storage.rs, and fallible operations. An operation on the
-- database returns the repository after its commit. An error drops the transaction, so the
-- repository of the caller stays as it was.
use quick_mail.Prelude.{String, Bool, true, false, ◌≡◌, refl, subst, if◌then◌else◌}

pub data StorageError : Type 0 where
  sqlite : StorageError
  invalid_data : String → StorageError
  invalid_cursor : StorageError
  not_found : StorageError
  serialization : StorageError
  worker_stopped : StorageError

pub data Result {ℓ} (A : Type ℓ) : Type ℓ where
  err : StorageError → Result A
  ok : A → Result A

-- Goes on where the test holds, and fails with the error where it does not.
abbrev pub guard : Bool → StorageError → Result (Unit {0})
guard false error = err error
guard true error = ok tt

infixl 5 ◌>>=◌
-- The `?` of Rust: an error ends the method.
abbrev pub ◌>>=◌ {ℓ κ} : {A : Type ℓ} {B : Type κ} → Result A → (A → Result B) → Result B
err error >>= next = err error
ok value >>= next = next value

infixl 5 ◌>>◌
abbrev pub ◌>>◌ {ℓ} : {B : Type ℓ} → Result (Unit {0}) → Result B → Result B
check >> next = check >>= λ done. next

-- What a step that succeeds has passed through.
pub bind-eq-ok {ℓ κ} :
    {A : Type ℓ} {B : Type κ} (step : Result A) (next : A → Result B) {out : B}
    → (step >>= next) ≡ ok out
    → (value : A) × (step ≡ ok value) × (next value ≡ ok out)
bind-eq-ok (err error) next returned = cc
bind-eq-ok (ok value) next returned = (value, refl, returned)

pub ok_inj {ℓ} : {A : Type ℓ} {a b : A} → ok a ≡ ok b → a ≡ b
ok_inj h = cc

pub guard-eq-ok {ℓ} :
    {B : Type ℓ} (t : Bool) (e : StorageError) (k : Result B) {b : B}
    → (guard t e >> k) ≡ ok b
    → (t ≡ true) × (k ≡ ok b)
guard-eq-ok true e k h = (refl, h)
guard-eq-ok false e k h = cc

-- A successful result has the property; an error leaves the repository alone.
pub data Ensures {A : Type 0} (P : A → Type 0) : Result A → Type 0 where
  returns : (a : A) → P a → Ensures P (ok a)
  fails : (e : StorageError) → Ensures P (err e)

module _ {A B : Type 0} where
  pub Ensures-bind :
      {Q : A → Type 0} {P : B → Type 0} {m : Result A} {f : A → Result B}
      → Ensures Q m
      → ((a : A) → Q a → Ensures P (f a))
      → Ensures P (m >>= f)
  Ensures-bind (returns a q) k = k a q
  Ensures-bind (fails e) k = fails e

module _ {A : Type 0} where
  pub Ensures-guard :
      {P : A → Type 0} (t : Bool) (e : StorageError) {k : Result A}
      → (t ≡ true → Ensures P k)
      → Ensures P (guard t e >> k)
  Ensures-guard true e h = h refl
  Ensures-guard false e h = fails e

  pub Ensures-if :
      {P : A → Type 0} (t : Bool) {k l : Result A}
      → (t ≡ true → Ensures P k)
      → (t ≡ false → Ensures P l)
      → Ensures P (if t then k else l)
  Ensures-if true h g = h refl
  Ensures-if false h g = g refl

  returns_inv : {P : A → Type 0} {m : Result A} {a : A} → Ensures P m → m ≡ ok a → P a
  returns_inv {P} (returns b p) e = subst P (ok_inj e) p
  returns_inv (fails error) e = cc

  -- What an operation ensures holds of what it returns.
  pub Ensures-elim : {P : A → Type 0} (m : Result A) {a : A} → Ensures P m → m ≡ ok a → P a
  Ensures-elim m h e = returns_inv h e

  pub Ensures-Unit : (m : Result A) → Ensures (λ _. Unit {0}) m
  Ensures-Unit (ok a) = returns a tt
  Ensures-Unit (err e) = fails e

  -- A weaker property is ensured too.
  pub Ensures-imp :
      {P Q : A → Type 0} {m : Result A} → ((a : A) → P a → Q a) → Ensures P m → Ensures Q m
  Ensures-imp f (returns a p) = returns a (f a p)
  Ensures-imp f (fails e) = fails e
