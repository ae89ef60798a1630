-- ===== src/Common/Dict.antt =====
-- A JavaScript `Map` with text keys: entries in insertion order; `set` overwrites in place.
use Prim.Native.String.{String}
use mathlib.Core.Path.{◌≡◌, refl, ap}
use mathlib.Core.Logic.{◌≢◌, inl, inr}
use mathlib.Core.Bool.{Bool, true}
use mathlib.Core.Option.{Option, none, some}
use mathlib.Core.List.{List, [], ◌∷◌}
use native.Mathlib.Omega.{arith}
use text.Mathlib.Text.{◌==◌}
use text.Mathlib.TextEquality.{eq_iff}
use wizteros.Common.Lists.{keep, All}
use wizteros.Common.Tests.{if◌then◌else◌, first_some, Bool-cases}

module _ {ℓ} {V : Type ℓ} where
  -- `entries.delete(key)`
  unfoldable pub erase : (key : String) → List (String × V) → List (String × V)
  erase key [] = []
  erase key (entry ∷ entries) =
      if entry.0 == key then erase key entries else entry ∷ erase key entries

  -- `entries.get(key)`
  unfoldable pub lookup : (key : String) → (entries : List (String × V)) → Option V
  lookup key [] = none
  lookup key (entry ∷ entries) = if entry.0 == key then some entry.1 else lookup key entries

  -- After `erase`, no entry of the key is left and every other key answers as before.
  pub lookup-erase :
      (gone key : String) (entries : List (String × V))
      → lookup key (erase gone entries) ≡ (if gone == key then none else lookup key entries)
  unfolding lookup erase
  lookup-erase gone key [] = ground arith
  lookup-erase gone key (entry ∷ entries) = ground (
    arith,
    lookup-erase gone key entries,
    eq_iff gone key,
    eq_iff entry.0 gone,
    eq_iff entry.0 key,
  )

  -- `entries.set(key, value)`
  unfoldable pub insert : (key : String) → (value : V) → List (String × V) → List (String × V)
  insert key value [] = (key, value) ∷ []
  insert key value (entry ∷ entries) =
      if entry.0 == key then (entry.0, value) ∷ entries else entry ∷ insert key value entries

  pub lookup-insert :
      (set key : String) (value : V) (entries : List (String × V))
      → lookup key (insert set value entries)
        ≡ (if set == key then some value else lookup key entries)
  unfolding lookup insert
  lookup-insert set key value [] = refl
  lookup-insert set key value (entry ∷ entries) = ground (
    arith,
    lookup-insert set key value entries,
    eq_iff set key,
    eq_iff entry.0 set,
    eq_iff entry.0 key,
  )

  -- `new Map(entries)`, from a map that holds `m` already
  unfoldable pub insert_all : List (String × V) → List (String × V) → List (String × V)
  insert_all m [] = m
  insert_all m ((k, v) ∷ es) = insert_all (insert k v m) es

  unfoldable pub from_entries : List (String × V) → List (String × V)
  unfolding insert_all
  from_entries es = insert_all [] es

  -- The value of the last entry with the key.
  unfoldable pub last_of : String → List (String × V) → Option V
  last_of k [] = none
  last_of k ((j, v) ∷ es) = first_some (last_of k es) (if j == k then some v else none)

  pub lookup-insert_all :
      (k : String) (m es : List (String × V))
      → lookup k (insert_all m es) ≡ first_some (last_of k es) (lookup k m)
  unfolding insert_all last_of
  lookup-insert_all k m [] = refl
  lookup-insert_all k m ((j, v) ∷ es) =
      ground (arith, lookup-insert_all k (insert j v m) es, lookup-insert j k v m)

  -- A repeated key keeps its last value.
  pub lookup-from_entries :
      (k : String) (es : List (String × V)) → lookup k (from_entries es) ≡ last_of k es
  unfolding from_entries lookup
  lookup-from_entries k es = ground (arith, lookup-insert_all k [] es)

module _ {ℓ} {V : Type ℓ} where
  abbrev pub IsUnusedKey : String → List (String × V) → Type 0
  IsUnusedKey k m = All (λ e. e.0 ≢ k) m

  -- What a `Map` is: no key stands twice.
  abbrev pub HasUniqueKeys : List (String × V) → Type 0
  HasUniqueKeys [] = Unit
  HasUniqueKeys ((k, v) ∷ m) = IsUnusedKey k m × HasUniqueKeys m

  last_of_unused :
      (k : String) (p : String × V → Bool) (m : List (String × V))
      → IsUnusedKey k m
      → last_of k (keep p m) ≡ none
  unfolding last_of
  last_of_unused k p [] h = refl
  last_of_unused k p ((j, v) ∷ m) (n, h) = ground (arith, last_of_unused k p m h, eq_iff j k)

  -- In a map, an entry that is kept is what is found last under its key.
  pub last_of-keep :
      (k : String) (v : V) (p : String × V → Bool) (m : List (String × V))
      → HasUniqueKeys m
      → lookup k m ≡ some v
      → p (k, v) ≡ true
      → last_of k (keep p m) ≡ some v
  unfolding last_of lookup
  last_of-keep k v p [] u e h = cc e
  last_of-keep k v p ((j, w) ∷ m) (n, u) e h = elim (Bool-cases (j == k)) [
    | inl same ↦
        let key : j ≡ k = (eq_iff j k).0 same in
        let value : w ≡ v = cc (rw same at e) in
        let used : p (j, w) ≡ true = rw (key, value) h in
        rw used (rw (last_of_unused k p m (rw key at n), same) (ap some value))
    | inr other ↦
        let rest = last_of-keep k v p m u (rw other at e) h in
        elim (Bool-cases (p (j, w))) [ inl used ↦ rw used (rw rest refl) | inr left ↦ rw left rest ]
  ]
