-- ===== src/Common/Order.antt =====
-- The order of texts is a total order.
use Prim.Native.Nat.{Ordering}
use Prim.Native.Char.{Char, code}
use Prim.Native.String.{String, compare as compare_text, then}
use Prim.Native.String.compare
use Prim.Native.Nat.{compare as compare_ℕ}
use text.Mathlib.TextEquality.{Char-path}
use mathlib.Core.Path.{◌≡◌, refl, sym, ap, ◌∙◌}
use mathlib.Core.Bool.{Bool, true, false, ◌&&◌, ◌||◌, false≢true}
use native.Mathlib.Omega.{arith}
use wizteros.Common.Tests.{ltb, nat_eq}
use wizteros.Common.Text.{str_le}

abbrev is_le : Ordering → Bool
is_le Ordering.gt = false
is_le _ = true

str_le_lem : (a b : String) → str_le a b ≡ is_le (compare_text a b)
str_le_lem a b = ground arith

str_le-nil : (b : String) → str_le "" b ≡ true
str_le-nil String.[] = str_le_lem "" "" ∙ ap is_le compare.nil-nil
str_le-nil (String.◌∷◌ d t) = str_le_lem "" (String.◌∷◌ d t) ∙ ap is_le (compare.nil-cons d t)

str_le-cons_nil : (c : Char) (s : String) → str_le (String.◌∷◌ c s) "" ≡ false
str_le-cons_nil c s = str_le_lem (String.◌∷◌ c s) "" ∙ ap is_le (compare.cons-nil c s)

then_lem :
    (c d : Char) (o : Ordering)
    → is_le (then (compare_ℕ (code c) (code d)) o)
      ≡ (ltb (code c) (code d) || (nat_eq (code c) (code d) && is_le o))
then_lem c d o = ground arith

str_le-cons :
    (c d : Char) (s t : String)
    → str_le (String.◌∷◌ c s) (String.◌∷◌ d t)
      ≡ (ltb (code c) (code d) || (nat_eq (code c) (code d) && str_le s t))
str_le-cons c d s t =
    str_le_lem (String.◌∷◌ c s) (String.◌∷◌ d t)
    ∙ ap is_le (compare.cons-cons c d s t)
    ∙ then_lem c d (compare_text s t)
    ∙ ap (λ x. ltb (code c) (code d) || (nat_eq (code c) (code d) && x)) (sym (str_le_lem s t))

pub str_le_trans : (a b c : String) → str_le a b ≡ true → str_le b c ≡ true → str_le a c ≡ true
str_le_trans String.[] b c h k = str_le-nil c
str_le_trans (String.◌∷◌ x a) String.[] c h k = absurd (false≢true (sym (str_le-cons_nil x a) ∙ h))
str_le_trans (String.◌∷◌ x a) (String.◌∷◌ y b) String.[] h k =
    absurd (false≢true (sym (str_le-cons_nil y b) ∙ k))
str_le_trans (String.◌∷◌ x a) (String.◌∷◌ y b) (String.◌∷◌ z c) h k =
    ground
      (arith, str_le_trans a b c, str_le-cons x y a b, str_le-cons y z b c, str_le-cons x z a c)

pub str_le_total : (a b : String) → str_le a b ≡ false → str_le b a ≡ true
str_le_total String.[] b h = absurd (false≢true (sym h ∙ str_le-nil b))
str_le_total (String.◌∷◌ x a) String.[] h = str_le-nil (String.◌∷◌ x a)
str_le_total (String.◌∷◌ x a) (String.◌∷◌ y b) h =
    ground (arith, str_le_total a b, str_le-cons x y a b, str_le-cons y x b a)

pub str_le_antisym : (a b : String) → str_le a b ≡ true → str_le b a ≡ true → a ≡ b
str_le_antisym String.[] String.[] h k = refl
str_le_antisym String.[] (String.◌∷◌ y b) h k = absurd (false≢true (sym (str_le-cons_nil y b) ∙ k))
str_le_antisym (String.◌∷◌ x a) String.[] h k = absurd (false≢true (sym (str_le-cons_nil x a) ∙ h))
str_le_antisym (String.◌∷◌ x a) (String.◌∷◌ y b) h k =
    let first = str_le-cons x y a b in
    let second = str_le-cons y x b a in
    let same : x ≡ y = Char-path x y (ground arith) in
    let rest : a ≡ b = str_le_antisym a b (ground arith) (ground arith) in cc (same, rest)
