-- ===== src/Storage/Order/Texts.antt =====
-- The order of texts is a strict total order.
use Prim.Native.Char.{code}
use Prim.Native.String.{String}
use text.Mathlib.TextEquality.{Char-path}
use quick_mail.Prelude.{ℕ, true, false, List, [], ◌∷◌, ◌≡◌, refl, arith}
use quick_mail.Storage.Order.{codes, codes_ltb, text_ltb}

pub codes_ltb_irrefl : (xs : List ℕ) → codes_ltb xs xs ≡ false
unfolding codes_ltb
codes_ltb_irrefl [] = refl
codes_ltb_irrefl (x ∷ xs) = ground (arith, codes_ltb_irrefl xs)

pub codes_ltb_trans :
    (xs ys zs : List ℕ) → codes_ltb xs ys ≡ true → codes_ltb ys zs ≡ true → codes_ltb xs zs ≡ true
unfolding codes_ltb
codes_ltb_trans [] [] zs h k = cc
codes_ltb_trans [] (y ∷ ys) [] h k = cc
codes_ltb_trans [] (y ∷ ys) (z ∷ zs) h k = refl
codes_ltb_trans (x ∷ xs) [] zs h k = cc
codes_ltb_trans (x ∷ xs) (y ∷ ys) [] h k = cc
codes_ltb_trans (x ∷ xs) (y ∷ ys) (z ∷ zs) h k = ground (arith, codes_ltb_trans xs ys zs)

pub codes_ltb_total : (xs ys : List ℕ) → codes_ltb xs ys ≡ false → codes_ltb ys xs ≡ false → xs ≡ ys
unfolding codes_ltb
codes_ltb_total [] [] h k = refl
codes_ltb_total [] (y ∷ ys) h k = cc
codes_ltb_total (x ∷ xs) [] h k = cc
codes_ltb_total (x ∷ xs) (y ∷ ys) h k = ground (arith, codes_ltb_total xs ys)

cons_inj : (c d : _) (s t : String) → code c ≡ code d → s ≡ t → String.◌∷◌ c s ≡ String.◌∷◌ d t
cons_inj c d s t h k = cc (Char-path c d h)

pub codes_inj : (s t : String) → codes s ≡ codes t → s ≡ t
codes_inj String.[] String.[] h = refl
codes_inj String.[] (String.◌∷◌ d t) h = cc
codes_inj (String.◌∷◌ c s) String.[] h = cc
codes_inj (String.◌∷◌ c s) (String.◌∷◌ d t) h =
    cons_inj c d s t (ground arith) (codes_inj s t (ground arith))

pub text_ltb_irrefl : (s : String) → text_ltb s s ≡ false
unfolding text_ltb
text_ltb_irrefl s = codes_ltb_irrefl (codes s)

pub text_ltb_trans :
    (s t u : String) → text_ltb s t ≡ true → text_ltb t u ≡ true → text_ltb s u ≡ true
unfolding text_ltb
text_ltb_trans s t u h k = codes_ltb_trans (codes s) (codes t) (codes u) h k

pub text_ltb_total : (s t : String) → text_ltb s t ≡ false → text_ltb t s ≡ false → s ≡ t
unfolding text_ltb
text_ltb_total s t h k = codes_inj s t (codes_ltb_total (codes s) (codes t) h k)
