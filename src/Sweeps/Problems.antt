-- ===== src/Sweeps/Problems.antt =====
-- The texts of tierScopeProblems and libraryCacheProblems (apps/stripe-bridge/src/tiers.ts), which an
-- alarm's key is made of.
use Prim.Native.String.{◌++◌ as append_text}
use wizteros.Common.{
  if◌then◌else◌, from_entries, truthy, text_or_empty, str_le, String, Bool, true, false, ◌&&◌, none,
  some, List, [], ◌∷◌, ◌++◌, map, ◌==◌,
}
use wizteros.Tiers.{Tier, tier_name, ScopeProblem, no_libraries, missing_entries, StaleLibrary}

-- `xs.join(separator)`
unfoldable pub join : (separator : String) → List String → String
join separator [] = ""
join separator (s ∷ []) = s
join separator (s ∷ r ∷ rest) = append_text s (append_text separator (join separator (r ∷ rest)))

unfoldable pub scope_reason : ScopeProblem → String
unfolding join
scope_reason (no_libraries servers) =
    append_text "no libraries resolved on "
      (append_text (join ", " servers) ": checkouts for this tier will fail and retry forever")
scope_reason (missing_entries titles) =
    append_text "allowlist entries missing across the fleet: " (join ", " titles)

unfoldable pub stale_text : StaleLibrary → String
stale_text row =
    let name = append_text "'" (append_text (text_or_empty row.library.name) "' is ") in
    elim (truthy row.live_name) [
      | none ↦ append_text name "gone from Plex"
      | some live ↦ append_text name (append_text "now '" (append_text live "' on Plex"))
    ]

unfoldable pub cache_reason : List StaleLibrary → String
unfolding join stale_text
cache_reason rows =
    append_text (join "; " (map stale_text rows))
      ". Plex rejects every invite carrying a stale name until the server's libraries are rescanned in Wizarr"

-- The entries sorted by their keys, as `canonicalKey` writes an object.
unfoldable pub insert_entry : String × String → List (String × String) → List (String × String)
insert_entry e [] = e ∷ []
insert_entry e (f ∷ fs) =
    let rest = insert_entry e fs in if str_le e.0 f.0 then e ∷ f ∷ fs else f ∷ rest

unfoldable pub sorted_entries : List (String × String) → List (String × String)
unfolding insert_entry
sorted_entries [] = []
sorted_entries (e ∷ es) = insert_entry e (sorted_entries es)

-- Every problem of the tiers and of the cache, with its text.
unfoldable pub problem_entries :
    List (Tier × ScopeProblem) → List (String × List StaleLibrary) → List (String × String)
unfolding from_entries scope_reason cache_reason
problem_entries scopes caches = from_entries (
    map (λ p. (tier_name p.0, scope_reason p.1)) scopes
    ++ map (λ c. (append_text "wizarr cache on " c.0, cache_reason c.1)) caches)

unfoldable pub same_texts : List String → List String → Bool
same_texts [] [] = true
same_texts (x ∷ xs) (y ∷ ys) = x == y && same_texts xs ys
same_texts _ _ = false

unfoldable pub same_entries : List (String × String) → List (String × String) → Bool
same_entries [] [] = true
same_entries (e ∷ es) (f ∷ fs) = e.0 == f.0 && e.1 == f.1 && same_entries es fs
same_entries _ _ = false
