-- ===== src/Portal/Access.antt =====
-- apps/admin-portal/src/lib/libraryAccess.ts: what a member's tier grants beside what Plex shares. The
-- order that `localeCompare` gives is a parameter.
use wizteros.Common.{
  if◌then◌else◌, or_else, length, is_empty, keep, contains, distinct, lookup, sort_by, ℕ, String,
  Bool, false, not, ◌||◌, Option, none, some, List, [], ◌++◌, map,
}

-- `PlexServerAccess`
pub record PlexServerAccess : Type 0 where
  pub all_libraries : Bool
  pub allow_sync : Bool
  pub libraries : List String

-- `LibraryAccessState`
pub data LibraryAccessState : Type 0 where
  shared not_shared not_entitled unknown : LibraryAccessState

-- `LibraryAccess`
pub record LibraryAccess : Type 0 where
  pub library : String
  pub state : LibraryAccessState

-- `ServerAccess`
pub record ServerAccess : Type 0 where
  pub server : String
  pub entitled : Bool
  pub libraries : List LibraryAccess
  pub entitled_count : ℕ
  pub shared_count : ℕ

-- `resolveState`; whether a library is shared is none where Plex could not be read.
unfoldable pub resolve_state : (is_entitled : Bool) → (is_shared : Option Bool) → LibraryAccessState
resolve_state is_entitled none = unknown
resolve_state is_entitled (some is_shared) =
    if is_entitled then (if is_shared then shared else not_shared) else not_entitled

-- A library that is worked out, before its flag is dropped.
pub record Resolved : Type 0 where
  pub library : String
  pub is_shared : Option Bool
  pub state : LibraryAccessState

unfoldable pub shared_names :
    Option (List (String × PlexServerAccess)) → (server : String) → List String
unfolding lookup
shared_names none server = []
shared_names (some sharing) server = elim (lookup server sharing) [
  | none ↦ []
  | some share ↦ share.libraries
]

unfoldable pub shares_everything :
    Option (List (String × PlexServerAccess)) → (server : String) → Bool
unfolding lookup
shares_everything none server = false
shares_everything (some sharing) server = elim (lookup server sharing) [
  | none ↦ false
  | some share ↦ share.all_libraries
]

unfoldable pub is_shared_in :
    Option (List (String × PlexServerAccess)) → (server library : String) → Option Bool
unfolding shares_everything shared_names
is_shared_in none server library = none
is_shared_in (some sharing) server library = some (
    shares_everything (some sharing) server
    || contains (shared_names (some sharing) server) library)

module _ (before : String → String → Bool) where
  unfoldable pub resolved_libraries :
      (names : List String)
      → Option (List (String × PlexServerAccess))
      → (server : String) → List Resolved
  unfolding sort_by distinct shared_names is_shared_in resolve_state
  resolved_libraries names sharing server =
      map
        (λ library. record {
          library = library;
          is_shared = is_shared_in sharing server library;
          state = resolve_state (contains names library) (is_shared_in sharing server library);
        })
        (sort_by before (distinct (names ++ shared_names sharing server)))

  unfoldable pub server_access :
      (entitled : List (String × List String))
      → Option (List (String × PlexServerAccess))
      → (server : String) → ServerAccess
  unfolding lookup resolved_libraries
  server_access entitled sharing server =
      let names = or_else (lookup server entitled) [] in
      let resolved = resolved_libraries names sharing server in
      record {
        server = server;
        entitled = not (is_empty names);
        libraries = map (λ r. record { library = r.library; state = r.state }) resolved;
        entitled_count = length names;
        shared_count = length (keep (λ r. or_else r.is_shared false) resolved);
      }

  -- `buildServerAccess`
  unfoldable pub build_server_access :
      (entitled : List (String × List String))
      → Option (List (String × PlexServerAccess))
      → List ServerAccess
  unfolding server_access sort_by distinct
  build_server_access entitled sharing =
      map (server_access entitled sharing)
        (sort_by before (distinct (map (λ e. e.0) entitled ++ map (λ e. e.0) (or_else sharing []))))
