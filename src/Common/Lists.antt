-- ===== src/Common/Lists.antt =====
-- Lists as the source's arrays and sets.
use Prim.Native.Nat.{ℕ, suc}
use Prim.Native.String.{String}
use mathlib.Core.Path.{◌≡◌}
use mathlib.Core.Bool.{Bool, true, false, ◌&&◌, ◌||◌}
use mathlib.Core.Option.{Option, none, some}
use mathlib.Core.List.{List, [], ◌∷◌, ◌++◌, map}
use mathlib.Core.Path.{◌≡◌, refl, subst}
use mathlib.Core.Logic.{◌⊎◌, inl, inr}
use text.Mathlib.Text.{◌==◌}
use text.Mathlib.TextEquality.{eq_iff}
use native.Mathlib.Omega.{arith}
use wizteros.Common.Tests.{nat_eq, if◌then◌else◌, Bool-cases}

module _ {ℓ} {A : Type ℓ} where
  abbrev pub length : List A → ℕ
  length [] = 0
  length (x ∷ xs) = suc (length xs)

  abbrev pub is_empty : List A → Bool
  is_empty [] = true
  is_empty (x ∷ xs) = false

  -- `xs.filter(p)`
  abbrev pub keep : (A → Bool) → List A → List A
  keep p [] = []
  keep p (x ∷ xs) = if p x then x ∷ keep p xs else keep p xs

  -- `xs.every(p)`
  abbrev pub all : (A → Bool) → List A → Bool
  all p [] = true
  all p (x ∷ xs) = p x && all p xs

  -- `xs.some(p)`
  abbrev pub any : (A → Bool) → List A → Bool
  any p [] = false
  any p (x ∷ xs) = p x || any p xs

  -- `xs.find(p)`
  abbrev pub find : (A → Bool) → List A → Option A
  find p [] = none
  find p (x ∷ xs) = if p x then some x else find p xs

  -- `xs.at(-1)`
  abbrev pub last : List A → Option A
  last [] = none
  last (x ∷ []) = some x
  last (x ∷ y ∷ xs) = last (y ∷ xs)

module _ {ℓ κ} {A : Type ℓ} {B : Type κ} where
  -- `xs.flatMap(f)`
  abbrev pub flat_map : (A → List B) → List A → List B
  flat_map f [] = []
  flat_map f (x ∷ xs) = f x ++ flat_map f xs

  -- `xs.reduce(f, b)`
  abbrev pub reduce : (B → A → B) → B → List A → B
  reduce f b [] = b
  reduce f b (x ∷ xs) = reduce f (f b x) xs

module _ {ℓ κ} {A : Type ℓ} (P : A → Type κ) where
  abbrev pub All : List A → Type κ
  All [] = Unit
  All (x ∷ xs) = P x × All xs

module _ {ℓ κ} {A : Type ℓ} {B : Type κ} where
  pub any-map : (p : B → Bool) (f : A → B) (xs : List A) → any p (map f xs) ≡ any (λ a. p (f a)) xs
  any-map p f [] = refl
  any-map p f (x ∷ xs) = rw (any-map p f xs)

module _ {ℓ} {A : Type ℓ} (P : A → Type 0) where
  abbrev pub Any : List A → Type 0
  Any [] = ⊥
  Any (x ∷ xs) = P x ⊎ Any xs

module _ {ℓ κ} {A : Type ℓ} (P : A → Type κ) where
  pub All-append : (xs ys : List A) → All P xs → All P ys → All P (xs ++ ys)
  All-append [] ys h k = k
  All-append (x ∷ xs) ys (p, h) k = (p, All-append xs ys h k)

  pub All-append_left : (xs ys : List A) → All P (xs ++ ys) → All P xs
  All-append_left [] ys h = tt
  All-append_left (x ∷ xs) ys (p, h) = (p, All-append_left xs ys h)

  pub All-append_right : (xs ys : List A) → All P (xs ++ ys) → All P ys
  All-append_right [] ys h = h
  All-append_right (x ∷ xs) ys (p, h) = All-append_right xs ys h

  pub All-everywhere : ((a : A) → P a) → (xs : List A) → All P xs
  All-everywhere f [] = tt
  All-everywhere f (x ∷ xs) = (f x, All-everywhere f xs)

-- Membership of a text, by recursion.
abbrev pub Member : {A : Type 0} → A → List A → Type 0
Member a = Any (λ b. b ≡ a)

-- `set.has(s)`, `xs.includes(s)`
abbrev pub contains : List String → String → Bool
contains xs s = any (λ x. x == s) xs

abbrev pub contains_id : List ℕ → ℕ → Bool
contains_id xs n = any (λ x. nat_eq x n) xs

-- `[...new Set(xs)]`: each text once, where it stands first. The second argument is what was seen.
unfoldable pub distinct_from : List String → List String → List String
distinct_from seen [] = []
distinct_from seen (x ∷ xs) =
    let rest = distinct_from (x ∷ seen) xs in
    let same = distinct_from seen xs in if contains seen x then same else x ∷ rest

unfoldable pub distinct : List String → List String
unfolding distinct_from
distinct xs = distinct_from [] xs

pub contains_of_eq :
    (seen : List String) (x s : String)
    → (x == s) ≡ true
    → contains seen x ≡ true
    → contains seen s ≡ true
contains_of_eq seen x s e h = rw (← (eq_iff x s).0 e) h

contains-distinct_from :
    (seen xs : List String) (s : String)
    → (contains (distinct_from seen xs) s || contains seen s) ≡ (contains xs s || contains seen s)
unfolding distinct_from
contains-distinct_from seen [] s = refl
contains-distinct_from seen (x ∷ xs) s = ground (
  arith,
  contains-distinct_from seen xs s,
  contains-distinct_from (x ∷ seen) xs s,
  contains_of_eq seen x s,
)

-- `distinct` holds the same texts.
pub contains-distinct : (xs : List String) (s : String) → contains (distinct xs) s ≡ contains xs s
unfolding distinct
contains-distinct xs s = ground (arith, contains-distinct_from [] xs s)

module _ {A : Type 0} where
  pub Member-keep :
      (p : A → Bool) (a : A) (xs : List A) → Member a (keep p xs) → Member a xs × (p a ≡ true)
  Member-keep p a [] h = absurd h
  Member-keep p a (x ∷ xs) h = elim (Bool-cases (p x)) [
    | inl yes_x ↦ elim (rw yes_x at h) as (λ _. Member a (x ∷ xs) × (p a ≡ true)) [
      | inl e ↦ (inl e, rw (← e) yes_x)
      | inr m ↦ (inr (Member-keep p a xs m).0, (Member-keep p a xs m).1)
    ]
    | inr no_x ↦ let (m, e) = Member-keep p a xs (rw no_x at h) in (inr m, e)
  ]

  pub keep-Member :
      (p : A → Bool) (a : A) (xs : List A) → Member a xs → p a ≡ true → Member a (keep p xs)
  keep-Member p a [] h e = absurd h
  keep-Member p a (x ∷ xs) (inl same) e = rw (same, e) (inl refl)
  keep-Member p a (x ∷ xs) (inr m) e = elim (Bool-cases (p x)) [
    | inl yes_x ↦ rw yes_x (inr (keep-Member p a xs m e))
    | inr no_x ↦ rw no_x (keep-Member p a xs m e)
  ]

  pub All-Member : (P : A → Type 0) (a : A) (xs : List A) → All P xs → Member a xs → P a
  All-Member P a [] h m = absurd m
  All-Member P a (x ∷ xs) (p, h) (inl e) = subst P e p
  All-Member P a (x ∷ xs) (p, h) (inr m) = All-Member P a xs h m

  pub All-of_Member : (P : A → Type 0) (xs : List A) → ((a : A) → Member a xs → P a) → All P xs
  All-of_Member P [] f = tt
  All-of_Member P (x ∷ xs) f = (f x (inl refl), All-of_Member P xs (λ a m. f a (inr m)))

pub contains-append :
    (xs ys : List String) (s : String) → contains (xs ++ ys) s ≡ (contains xs s || contains ys s)
contains-append [] ys s = refl
contains-append (x ∷ xs) ys s = ground (arith, contains-append xs ys s)

pub contains-keep :
    (p : String → Bool) (xs : List String) (x : String)
    → contains (keep p xs) x ≡ (contains xs x && p x)
contains-keep p [] x = ground arith
contains-keep p (y ∷ xs) x = ground (arith, contains-keep p xs x, eq_iff y x)

-- What the image of a listed item holds, the whole `flatMap` holds.
pub contains-flat_map :
    {A : Type 0} (f : A → List String) (a : A) (xs : List A) (s : String)
    → Member a xs
    → contains (f a) s ≡ true
    → contains (flat_map f xs) s ≡ true
contains-flat_map f a [] s m h = absurd m
contains-flat_map f a (x ∷ xs) s (inl e) h = rw (contains-append (f x) (flat_map f xs) s, e, h) refl
contains-flat_map f a (x ∷ xs) s (inr m) h =
    rw (contains-append (f x) (flat_map f xs) s, contains-flat_map f a xs s m h) (ground arith)

-- `every`, decided: all pass, or some item fails.
pub all_or_Any :
    {A : Type 0} (p : A → Bool) (xs : List A)
    → ((all p xs ≡ true) × All (λ x. p x ≡ true) xs)
      ⊎ ((all p xs ≡ false) × Any (λ x. p x ≡ false) xs)
all_or_Any p [] = inl (refl, tt)
all_or_Any p (x ∷ xs) = elim (Bool-cases (p x)) [
  | inr fails ↦ inr (rw fails refl, inl fails)
  | inl passes ↦ elim (all_or_Any p xs) [
    | inl (e, h) ↦ inl (rw (passes, e) refl, (passes, h))
    | inr (e, h) ↦ inr (rw (passes, e) refl, inr h)
  ]
]
