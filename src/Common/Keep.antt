-- ===== src/Common/Keep.antt =====
-- The laws of `filter`.
use mathlib.Core.Path.{◌≡◌, refl, subst}
use mathlib.Core.Option.{some}
use mathlib.Core.Logic.{inl, inr}
use mathlib.Core.Bool.{Bool, true}
use mathlib.Core.List.{List, [], ◌∷◌, ◌++◌}
use native.Mathlib.Omega.{arith}
use wizteros.Common.Tests.{Bool-cases}
use wizteros.Common.Lists.{keep, last, All}

module _ {ℓ} {A : Type ℓ} where
  pub keep-append : (p : A → Bool) (xs ys : List A) → keep p (xs ++ ys) ≡ keep p xs ++ keep p ys
  keep-append p [] ys = refl
  keep-append p (x ∷ xs) ys = ground (arith, keep-append p xs ys)

  pub keep_comm : (p q : A → Bool) (xs : List A) → keep p (keep q xs) ≡ keep q (keep p xs)
  keep_comm p q [] = refl
  keep_comm p q (x ∷ xs) = ground (arith, keep_comm p q xs)

  pub keep-All : (p : A → Bool) (xs : List A) → All (λ x. p x ≡ true) xs → keep p xs ≡ xs
  keep-All p [] h = refl
  keep-All p (x ∷ xs) (e, h) = rw (e, keep-All p xs h) refl

  pub All-keep_self : (p : A → Bool) (xs : List A) → All (λ x. p x ≡ true) (keep p xs)
  All-keep_self p [] = tt
  All-keep_self p (x ∷ xs) = ground (arith, All-keep_self p xs)

module _ {ℓ κ} {A : Type ℓ} where
  -- What holds of every item holds of every item kept.
  pub All-keep : (P : A → Type κ) (p : A → Bool) (xs : List A) → All P xs → All P (keep p xs)
  All-keep P p [] h = tt
  All-keep P p (x ∷ xs) (h, hs) = elim (Bool-cases (p x)) [
    | inl e ↦ rw e (h, All-keep P p xs hs)
    | inr e ↦ rw e (All-keep P p xs hs)
  ]

  pub All-last : (P : A → Type κ) (xs : List A) (a : A) → All P xs → last xs ≡ some a → P a
  All-last P [] a h e = absurd (cc e)
  All-last P (x ∷ []) a (h, _) e = let same : x ≡ a = cc e in subst P same h
  All-last P (x ∷ y ∷ xs) a (_, h) e = All-last P (y ∷ xs) a h e

module _ {ℓ} {A : Type ℓ} where
  pub last-concat : (xs : List A) (a : A) → last (xs ++ a ∷ []) ≡ some a
  last-concat [] a = refl
  last-concat (x ∷ []) a = refl
  last-concat (x ∷ y ∷ xs) a = last-concat (y ∷ xs) a
