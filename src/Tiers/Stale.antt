-- ===== src/Tiers/Stale.antt =====
-- Rows of Wizarr's library cache that Plex no longer answers to, and the records that an invite
-- cannot re-scope in place: lines 254 to 387 of tiers.ts.
use wizteros.Common.{
  if◌then◌else◌, or_else, and_then, to_list, keep, all, flat_map, contains, contains_id, distinct,
  lookup, truthy, decimal, ℕ, zero, suc, String, Bool, true, false, not, ◌&&◌, Option, none, some,
  List, [], ◌∷◌, map, ◌==◌,
}
use wizteros.Tiers.Rules.{
  ExternalId, text_id, number_id, WizarrLibrary, is_on_share_server, is_enabled,
}

-- Server name -> section id -> live title.
abbrev pub LiveSections : Type 0
LiveSections = List (String × List (String × String))

pub record StaleLibrary : Type 0 where
  pub library : WizarrLibrary
  pub live_name : Option String

-- The section id as a text, unless it is missing, empty or 0.
unfoldable pub external_key : Option ExternalId → Option String
external_key none = none
external_key (some (text_id s)) = truthy (some s)
external_key (some (number_id zero)) = none
external_key (some (number_id (suc n))) = some (decimal (suc n))

-- `a === b` where both may be null
abbrev pub same_name : Option String → Option String → Bool
same_name none none = true
same_name (some a) (some b) = a == b
same_name _ _ = false

-- The row with its live title, if Plex no longer answers to its name; `sections` are those of its
-- server.
unfoldable pub stale_in :
    WizarrLibrary → Option (List (String × String)) → Option String → Option StaleLibrary
stale_in l none key = none
stale_in l (some sections) none = none
stale_in l (some sections) (some key) =
    if same_name (lookup key sections) l.name
    then none
    else some (record { library = l; live_name = lookup key sections })

-- The body of the `flatMap` in `staleLibraries`.
unfoldable pub stale_row : LiveSections → WizarrLibrary → Option StaleLibrary
unfolding stale_in external_key is_on_share_server lookup decimal
stale_row live l =
    if is_enabled l && is_on_share_server l
    then stale_in l (and_then l.server_name (λ server. lookup server live))
        (external_key l.external_id)
    else none

-- `staleLibraries`; no live list, or an empty one, reports nothing.
unfoldable pub stale_libraries : List WizarrLibrary → Option LiveSections → List StaleLibrary
unfolding stale_row
stale_libraries libraries none = []
stale_libraries libraries (some []) = []
stale_libraries libraries (some (s ∷ live)) =
    flat_map (λ l. to_list (stale_row (s ∷ live) l)) libraries

unfoldable pub without_stale : List WizarrLibrary → Option LiveSections → List WizarrLibrary
unfolding stale_libraries
without_stale libraries live =
    let stale_ids = map (λ row. row.library.id) (stale_libraries libraries live) in
    keep (λ l. not (contains_id stale_ids l.id)) libraries

-- `serverOf`
abbrev pub server_of : StaleLibrary → String
server_of row = or_else (truthy row.library.server_name) "?"

-- `libraryCacheProblems`: the servers with stale rows, and those rows
unfoldable pub library_cache_problems :
    List WizarrLibrary → Option LiveSections → List (String × List StaleLibrary)
unfolding stale_libraries distinct
library_cache_problems libraries live =
    let stale = stale_libraries libraries live in
    map (λ server. (server, keep (λ row. server_of row == server) stale))
      (distinct (map server_of stale))

-- `ServerRecord`: one Wizarr user record, as `staleRecordIds` reads it.
pub record ServerRecord : Type 0 where
  pub id : ℕ
  pub server : Option String

abbrev pub is_covered : List String → ServerRecord → Bool
is_covered covered r = elim r.server [ none ↦ false | some server ↦ contains covered server ]

-- Every id, unless every record sits on a covered server.
unfoldable pub stale_record_ids : List ServerRecord → List String → List ℕ
stale_record_ids records covered =
    if all (is_covered covered) records then [] else map (λ r. r.id) records
