-- ===== src/Portal/Shares.antt =====
-- How the states of a server's libraries stand to its count of shared ones.
use wizteros.Common.{
  or_else, is_some, Bool-cases, length, keep, all, All, Member, contains, distinct_from, distinct,
  All-of_Member, contains-append, lookup, sort_by, All-sort_by, String, ◌≡◌, refl, sym, ◌∙◌, inl,
  inr, Bool, true, false, ◌||◌, Option, none, some, List, [], ◌∷◌, ◌++◌, map, arith, eq_iff,
}
use wizteros.Portal.Access.{
  PlexServerAccess, shared, not_entitled, unknown, LibraryAccess, resolve_state, Resolved,
  shared_names, shares_everything, is_shared_in, resolved_libraries, server_access,
}

abbrev pub counts_as_shared : LibraryAccess → Bool
counts_as_shared l = elim l.state [ shared ↦ true | not_entitled ↦ true | _ ↦ false ]

abbrev pub is_unknown : LibraryAccess → Bool
is_unknown l = elim l.state [ unknown ↦ true | _ ↦ false ]

contains-Member : (x : String) (xs : List String) → Member x xs → contains xs x ≡ true
contains-Member x [] m = absurd m
contains-Member x (y ∷ xs) (inl e) = ground (arith, eq_iff y x)
contains-Member x (y ∷ xs) (inr m) = ground (arith, contains-Member x xs m)

All-distinct_from :
    (P : String → Type 0) (seen xs : List String) → All P xs → All P (distinct_from seen xs)
unfolding distinct_from
All-distinct_from P seen [] h = tt
All-distinct_from P seen (x ∷ xs) (h, hs) = elim (Bool-cases (contains seen x)) [
  | inl e ↦ rw e (All-distinct_from P seen xs hs)
  | inr e ↦ rw e (h, All-distinct_from P (x ∷ seen) xs hs)
]

listed :
    (before : String → String → Bool) (names others : List String)
    → All
        (λ x. (contains names x || contains others x) ≡ true)
        (sort_by before (distinct (names ++ others)))
unfolding distinct
listed before names others = All-sort_by before _ (distinct (names ++ others)) (
    All-distinct_from _ [] (names ++ others) (
      All-of_Member _ (names ++ others)
        (λ x m. sym (contains-append names others x) ∙ contains-Member x (names ++ others) m)))

abbrev resolved_as : (names : List String) → (String → Option Bool) → String → Resolved
resolved_as names told library = record {
  library = library;
  is_shared = told library;
  state = resolve_state (contains names library) (told library);
}

abbrev shown : Resolved → LibraryAccess
shown r = record { library = r.library; state = r.state }

count_told :
    (names others : List String) (whole : Bool) (xs : List String)
    → All (λ x. (contains names x || contains others x) ≡ true) xs
    → let rows = map (resolved_as names (λ x. some (whole || contains others x))) xs in
      length (keep (λ r. or_else r.is_shared false) rows)
      ≡ length (keep counts_as_shared (map shown rows))
unfolding resolve_state
count_told names others whole [] h = refl
count_told names others whole (x ∷ xs) (h, hs) = ground (arith, count_told names others whole xs hs)

untold :
    (names xs : List String)
    → let rows = map (resolved_as names (λ x. none)) xs in
      (length (keep (λ r. or_else r.is_shared false) rows)
        ≡ length (keep counts_as_shared (map shown rows)))
      × (all is_unknown (map shown rows) ≡ true)
unfolding resolve_state
untold names [] = (refl, refl)
untold names (x ∷ xs) = untold names xs

-- The count is of the libraries that stand as shared and of those that Plex shares beside the tier:
-- a library that is no part of the tier is on the list only for being shared. Where Plex could not be
-- read, nothing is counted as shared and every library stands as unknown.
pub server_access-shared_count :
    (before : String → String → Bool) (entitled : List (String × List String))
    (sharing : Option (List (String × PlexServerAccess))) (server : String)
    → let a = server_access before entitled sharing server in
      (a.shared_count ≡ length (keep counts_as_shared a.libraries))
      × ((is_some sharing || all is_unknown a.libraries) ≡ true)
unfolding server_access resolved_libraries is_shared_in
server_access-shared_count before entitled none server =
    let names = or_else (lookup server entitled) [] in
    let (counted, unknowns) =
      untold names (sort_by before (distinct (names ++ shared_names none server))) in
    (counted, unknowns)
server_access-shared_count before entitled (some sharing) server =
    let names = or_else (lookup server entitled) [] in
    let others = shared_names (some sharing) server in
    (
      count_told names others (shares_everything (some sharing) server)
          (sort_by before (distinct (names ++ others))) (listed before names others),
      refl,
    )
