-- ===== src/Tiers/Scope.antt =====
-- An invite's scope for a tier, and the tiers whose scope is broken: lines 152 to 252 of tiers.ts.
use wizteros.Common.{
  ltb, nat_eq, if◌then◌else◌, or_else, to_list, is_empty, keep, flat_map, contains, distinct,
  truthy, text_or_empty, sorted, ℕ, String, Bool, false, not, Option, none, some, List, [], ◌∷◌,
  map, ◌==◌,
}
use wizteros.Tiers.Rules.{
  Tier, tiers, WizarrLibrary, library_title, tier_rule, tier_downloads, is_on_share_server,
  tier_wants, shareable_libraries,
}

-- `TierScope` of types.ts
pub record TierScope : Type 0 where
  pub library_ids : List ℕ
  pub server_ids : List ℕ
  pub server_names : List String
  pub allow_downloads : Bool

-- The names of the servers of rows, each as often as it stands; an empty name is left out.
abbrev pub server_names_of : List WizarrLibrary → List String
server_names_of libraries = flat_map (λ l. to_list (truthy l.server_name)) libraries

-- `allShareServers`
unfoldable pub all_share_servers : List WizarrLibrary → List String
unfolding is_on_share_server distinct
all_share_servers libraries = distinct (server_names_of (keep is_on_share_server libraries))

-- The allowlisted titles that the shareable libraries do not cover, sorted.
unfoldable pub missing_titles : Tier → List WizarrLibrary → List String
unfolding tier_rule library_title sorted
missing_titles tier shareable = sorted (
    keep (λ title. not (contains (map library_title shareable) title))
      (or_else (tier_rule tier).titles []))

insert_id : ℕ → List ℕ → List ℕ
insert_id n [] = n ∷ []
insert_id n (m ∷ ms) =
    if nat_eq n m then m ∷ ms else if ltb n m then n ∷ m ∷ ms else m ∷ insert_id n ms

-- `[...new Set(ids)].toSorted((a, b) => a - b)`
unfoldable pub sorted_ids : List ℕ → List ℕ
unfolding insert_id
sorted_ids [] = []
sorted_ids (n ∷ ns) = insert_id n (sorted_ids ns)

-- `resolveTierAccess`, with the rule handed in
unfoldable pub resolve_tier_access_by :
    (wants : Tier → WizarrLibrary → Bool) → Tier → List WizarrLibrary → TierScope
unfolding shareable_libraries sorted distinct sorted_ids tier_downloads
resolve_tier_access_by wants tier libraries =
    let shareable = shareable_libraries wants tier libraries in
    record {
      library_ids = map (λ l. l.id) shareable;
      server_ids = sorted_ids (map (λ l. l.server_id) shareable);
      server_names = sorted (distinct (server_names_of shareable));
      allow_downloads = tier_downloads tier;
    }

-- `resolveTierAccess` under the real rules
unfoldable pub resolve_tier_access : Tier → List WizarrLibrary → TierScope
unfolding resolve_tier_access_by tier_wants
resolve_tier_access = resolve_tier_access_by tier_wants

-- The two reasons that `tierScopeProblems` words: no library on any of the servers, or titles of
-- the allowlist that none carries.
pub data ScopeProblem : Type 0 where
  no_libraries : (servers : List String) → ScopeProblem
  missing_entries : (titles : List String) → ScopeProblem

-- The two tests of a tier: no shareable library, then titles that none carries.
unfoldable pub judge : List String → List WizarrLibrary → List String → Option ScopeProblem
judge servers shareable missing =
    if is_empty shareable
    then some (no_libraries servers)
    else if is_empty missing
    then none
    else some (missing_entries missing)

unfoldable pub tier_scope_problem : List WizarrLibrary → Tier → Option ScopeProblem
unfolding judge shareable_libraries tier_wants all_share_servers sorted missing_titles
tier_scope_problem libraries tier =
    let shareable = shareable_libraries tier_wants tier libraries in
    judge (sorted (all_share_servers libraries)) shareable (missing_titles tier shareable)

-- `tierScopeProblems`: the broken tiers with their reasons
unfoldable pub tier_scope_problems : List WizarrLibrary → List (Tier × ScopeProblem)
unfolding tier_scope_problem
tier_scope_problems libraries =
    flat_map
      (λ tier. map (λ problem. (tier, problem)) (to_list (tier_scope_problem libraries tier))) tiers

-- `tierServerLibraries`: the names that a tier grants on each server
unfoldable pub tier_server_libraries : Tier → List WizarrLibrary → List (String × List String)
unfolding shareable_libraries tier_wants distinct sorted
tier_server_libraries tier libraries =
    let shareable = shareable_libraries tier_wants tier libraries in
    map
      (λ server. (
        server,
        sorted (
            map (λ l. text_or_empty l.name)
              (keep (λ l. elim l.server_name [ none ↦ false | some s ↦ s == server ]) shareable)),
      ))
      (distinct (server_names_of shareable))
