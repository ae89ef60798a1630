-- ===== src/Identity/Addresses.antt =====
-- Which addresses belong to one person.
use mathlib.Core.Path.{fun_ext}
use wizteros.Common.{
  Bool-cases, contains, distinct, contains_of_eq, contains-distinct, contains-append, lookup,
  String, ◌≡◌, refl, inl, inr, true, ◌||◌, none, some, List, [], ◌∷◌, ◌++◌, map, arith, ◌==◌,
  eq_iff, eq_refl,
}
use wizteros.Identity.Resolve.{owner_in, payers_of, linked_to}

-- The set holds the seeds, the accounts they pay for, and whoever pays for one of those.
pub contains-linked_to :
    (links : List (String × String)) (seeds : List String) (a : String)
    → contains (linked_to links seeds) a ≡ (
        contains seeds a
        || (contains (map (owner_in links) seeds) a
            || contains (payers_of links (map (owner_in links) seeds)) a))
unfolding linked_to
contains-linked_to links seeds a =
    let owners = map (owner_in links) seeds in
    let same_owners : (λ (l : String × String). contains (distinct owners) l.1)
        ≡ (λ l. contains owners l.1) =
      fun_ext (λ l. contains-distinct owners l.1) in
    rw (contains-distinct (seeds ++ (distinct owners ++ payers_of links (distinct owners))) a) (
      rw (contains-append seeds (distinct owners ++ payers_of links (distinct owners)) a) (
        rw (contains-append (distinct owners) (payers_of links (distinct owners)) a)
          (rw (contains-distinct owners a, same_owners) refl)))

-- The account that a seed pays for is in the set of owners.
pub owner_listed :
    (links : List (String × String)) (seeds : List String) (a l : String)
    → contains seeds a ≡ true
    → lookup a links ≡ some l
    → contains (map (owner_in links) seeds) l ≡ true
owner_listed links [] a l h e = absurd (cc h)
owner_listed links (s ∷ seeds) a l h e = elim (Bool-cases (s == a)) [
  | inl same ↦ rw ((eq_iff s a).0 same, e) (rw (eq_refl l) refl)
  | inr other ↦ rw (owner_listed links seeds a l (rw other at h) e) (ground arith)
]

payer_listed :
    (links : List (String × String)) (payer plex : String)
    → lookup payer links ≡ some plex
    → contains (payers_of links (plex ∷ [])) payer ≡ true
unfolding lookup
payer_listed [] payer plex e = cc e
payer_listed ((j, v) ∷ links) payer plex e =
    ground (arith, eq_iff plex v, eq_refl v, payer_listed links payer plex)

-- With links that do not chain, a payer and the account they pay for are one person: the same
-- addresses, whichever of the two is asked about.
pub linked_to_symmetric :
    (links : List (String × String)) (payer plex a : String)
    → lookup payer links ≡ some plex
    → lookup plex links ≡ none
    → contains (linked_to links (payer ∷ [])) a ≡ contains (linked_to links (plex ∷ [])) a
linked_to_symmetric links payer plex a e n =
    let owns : owner_in links payer ≡ plex = rw e refl in
    let self : owner_in links plex ≡ plex = rw n refl in
    rw (contains-linked_to links (payer ∷ []) a, contains-linked_to links (plex ∷ []) a)
      (rw (owns, self)
        (ground (
          arith,
          payer_listed links payer plex e,
          contains_of_eq (payers_of links (plex ∷ [])) payer a,
        )))
