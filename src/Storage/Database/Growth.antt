-- ===== src/Storage/Database/Growth.antt =====
-- The revision of the database of crates/quickmaild/src/storage.rs over a history of calls.
use quick_mail.Prelude.{ℕ, ◌≤◌, true, List, [], ◌∷◌, ◌≡◌, refl, all, arith}
use quick_mail.Storage.Schema.{Repository}
use quick_mail.Storage.Serde.{Serde}
use quick_mail.Storage.Database.{Call, apply_action, queue_mail, queue_agenda, serve}
use quick_mail.Storage.Database.Keeping.{Kept}
use quick_mail.Storage.Database.Histories.{draws, serve-keeps}

at_least-Kept : {Text : Type 0} (n : ℕ) → Kept {Text = Text} (λ uuid. true) (λ m rows. n ≤ m)
at_least-Kept n = record {
  bumps = λ m rows h. omega arith;
  inserts = λ o m rows fresh h. h;
  settles = λ now id outcome m rows h. h;
  puts_off = λ now id error m rows h. h;
  deletes = λ test m rows h. h;
}

draws_any : {Json : Type 0} (c : Call Json) → draws (λ uuid. true) c ≡ true
draws_any (apply_action now uuid action) = refl
draws_any (queue_mail now uuid message) = refl
draws_any (queue_agenda now uuid kind id payload) = refl
draws_any _ = refl

all_draw : {Json : Type 0} (calls : List (Call Json)) → all (draws (λ uuid. true)) calls ≡ true
all_draw [] = refl
all_draw (c ∷ calls) = ground (arith, draws_any c, all_draw calls)

module _ {Json Text : Type 0} (serde : Serde Json Text) where
  -- The revision never goes back, whatever list of calls the database serves, failed calls included:
  -- a client that has seen a revision never meets an older one.
  pub revision-serve :
      (calls : List (Call Json)) (r : Repository Text) → r.revision ≤ (serve serde calls r).revision
  revision-serve calls r =
      serve-keeps serde (at_least-Kept r.revision) calls r (all_draw calls) (omega arith)
