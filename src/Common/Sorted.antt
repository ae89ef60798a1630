-- ===== src/Common/Sorted.antt =====
-- What a stable sort leaves alone: a filter before it is a filter after it.
use wizteros.Common.Sort.{insert_by, sort_by}
use wizteros.Common.Lists.{keep, All}
use wizteros.Common.Keep.{All-keep}
use wizteros.Common.Tests.{if◌then◌else◌, Bool-cases}
use mathlib.Core.Path.{◌≡◌, refl, ◌∙◌}
use mathlib.Core.Bool.{Bool, true, false}
use mathlib.Core.Logic.{inl, inr}
use mathlib.Core.List.{List, [], ◌∷◌}
use native.Mathlib.Omega.{arith}

module _ {A : Type 0} (before : A → A → Bool) where
  abbrev IsFirst : A → List A → Type 0
  IsFirst x = All (λ z. before z x ≡ false)

  abbrev IsOrdered : List A → Type 0
  IsOrdered [] = Unit
  IsOrdered (y ∷ ys) = IsFirst y ys × IsOrdered ys

  pub All-insert_by :
      (P : A → Type 0) (x : A) (ys : List A) → P x → All P ys → All P (insert_by before x ys)
  unfolding insert_by
  All-insert_by P x [] h hs = (h, tt)
  All-insert_by P x (y ∷ ys) h (k, hs) = elim (Bool-cases (before y x)) [
    | inl e ↦ rw e (k, All-insert_by P x ys h hs)
    | inr e ↦ rw e (h, (k, hs))
  ]

  pub All-sort_by : (P : A → Type 0) (xs : List A) → All P xs → All P (sort_by before xs)
  unfolding sort_by
  All-sort_by P [] h = tt
  All-sort_by P (x ∷ xs) (h, hs) = All-insert_by P x (sort_by before xs) h (All-sort_by P xs hs)

  insert_by-IsFirst : (x : A) (ys : List A) → IsFirst x ys → insert_by before x ys ≡ x ∷ ys
  unfolding insert_by
  insert_by-IsFirst x [] h = refl
  insert_by-IsFirst x (y ∷ ys) (h, hs) = rw h refl

  module _ (asymmetric : (a b : A) → before a b ≡ true → before b a ≡ false)
      (steady : (a b c : A) → before b a ≡ false → before c b ≡ false → before c a ≡ false) where
    IsFirst-below : (x y : A) (ys : List A) → before y x ≡ false → IsFirst y ys → IsFirst x ys
    IsFirst-below x y [] e h = tt
    IsFirst-below x y (z ∷ ys) e (h, hs) = (steady x y z e h, IsFirst-below x y ys e hs)

    insert_by-IsOrdered : (x : A) (ys : List A) → IsOrdered ys → IsOrdered (insert_by before x ys)
    unfolding insert_by
    insert_by-IsOrdered x [] h = (tt, tt)
    insert_by-IsOrdered x (y ∷ ys) (h, hs) = elim (Bool-cases (before y x)) [
      | inl e ↦ rw e (
        All-insert_by (λ z. before z y ≡ false) x ys (asymmetric y x e) h,
        insert_by-IsOrdered x ys hs,
      )
      | inr e ↦ rw e ((e, IsFirst-below x y ys e h), (h, hs))
    ]

    sort_by-IsOrdered : (xs : List A) → IsOrdered (sort_by before xs)
    unfolding sort_by
    sort_by-IsOrdered [] = tt
    sort_by-IsOrdered (x ∷ xs) = insert_by-IsOrdered x (sort_by before xs) (sort_by-IsOrdered xs)

    keep-insert_by :
        (p : A → Bool) (x : A) (ys : List A)
        → IsOrdered ys
        → keep p (insert_by before x ys)
          ≡ (if p x then insert_by before x (keep p ys) else keep p ys)
    unfolding insert_by
    keep-insert_by p x [] h = ground arith
    keep-insert_by p x (y ∷ ys) (h, hs) = elim (Bool-cases (before y x)) [
      | inl e ↦ rw e (ground (arith, keep-insert_by p x ys hs))
      | inr e ↦
          let first =
            insert_by-IsFirst x (keep p (y ∷ ys))
              (All-keep (λ z. before z x ≡ false) p (y ∷ ys) (e, IsFirst-below x y ys e h)) in
          rw e (ground arith)
    ]

    -- Sorting and then filtering is filtering and then sorting.
    pub keep-sort_by :
        (p : A → Bool) (xs : List A) → keep p (sort_by before xs) ≡ sort_by before (keep p xs)
    unfolding sort_by
    keep-sort_by p [] = refl
    keep-sort_by p (x ∷ xs) =
        keep-insert_by p x (sort_by before xs) (sort_by-IsOrdered xs)
        ∙ ground (arith, keep-sort_by p xs)
