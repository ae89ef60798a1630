-- ===== src/Tiers/Rules.antt =====
-- The tiers, their rules, and the filters that no rule can pass: lines 1 to 150 of tiers.ts, and
-- the Wizarr library row of types.ts.
use text.Mathlib.Text.{starts_with}
use Prim.Native.Char.{code}
use wizteros.Common.{
  nat_eq, if◌then◌else◌, or_else, keep, find, contains, to_lower, is_digit, trim_start, trim,
  truthy, text_or_empty, ℕ, String, Bool, true, false, not, ◌&&◌, Option, none, some, List, [], ◌∷◌,
  ◌==◌,
}

pub data Tier : Type 0 where
  bronze silver gold youth : Tier

-- `TIERS`, in the order the tiers are checked and reported
abbrev pub tiers : List Tier
tiers = bronze ∷ silver ∷ gold ∷ youth ∷ []

abbrev pub tier_name : Tier → String
tier_name bronze = "bronze"
tier_name silver = "silver"
tier_name gold = "gold"
tier_name youth = "youth"

-- `isTier`, with the tier that the text names
unfoldable pub parse_tier : String → Option Tier
parse_tier value = find (λ tier. tier_name tier == value) tiers

-- The Plex section id that a row was cached under: a text or a number.
pub data ExternalId : Type 0 where
  text_id : String → ExternalId
  number_id : ℕ → ExternalId

-- One library row of Wizarr; what may be missing or null there is an option.
pub record WizarrLibrary : Type 0 where
  pub id : ℕ
  pub name : Option String
  pub server_id : ℕ
  pub server_name : Option String
  pub enabled : Option Bool
  pub external_id : Option ExternalId

-- What `replace` leaves of a text behind `\d*\.\s*`, if that matches.
after_digits : String → Option String
after_digits String.[] = none
after_digits (String.◌∷◌ c s) =
    let more = after_digits s in
    if is_digit (code c) then more else if nat_eq (code c) b'.' then some (trim_start s) else none

-- The same behind `\d+\.\s*`.
after_prefix : String → Option String
after_prefix String.[] = none
after_prefix (String.◌∷◌ c s) = if is_digit (code c) then after_digits s else none

-- A name with its "NN. " ordering prefix stripped.
unfoldable pub library_title : WizarrLibrary → String
unfolding after_prefix after_digits is_digit trim_start
library_title library = let name = text_or_empty library.name in or_else (after_prefix name) name

unfoldable pub is_4k : WizarrLibrary → Bool
unfolding library_title
is_4k library = starts_with (library_title library) "4K"

abbrev pub youth_library_titles : List String
youth_library_titles = "Family Movies" ∷ "4K Family Movies" ∷ "Kid Shows" ∷ []

abbrev pub retired_servers : List String
retired_servers = "Caraxes" ∷ []

-- What one tier grants; `titles` is none when the rule is not a list.
pub record TierRule : Type 0 where
  pub downloads : Bool
  pub titles : Option (List String)
  pub wants : WizarrLibrary → Bool

unfoldable pub tier_rule : Tier → TierRule
unfolding is_4k
tier_rule bronze = record { downloads = false; titles = none; wants = λ l. not (is_4k l) }
tier_rule silver = record { downloads = false; titles = none; wants = λ l. true }
tier_rule gold = record { downloads = true; titles = none; wants = λ l. true }
tier_rule youth = record {
  downloads = true;
  titles = some youth_library_titles;
  wants = λ l. contains youth_library_titles (library_title l);
}

unfoldable pub tier_downloads : Tier → Bool
unfolding tier_rule
tier_downloads tier = (tier_rule tier).downloads

-- A stored tier, read through the legacy alias; none when it names no tier.
unfoldable pub canonical_tier : Option String → Option Tier
unfolding parse_tier
canonical_tier none = none
canonical_tier (some raw) = if raw == "kids" then some youth else parse_tier raw

-- `normalizeTier` of a metadata value: a text, or something that is none (`none`).
unfoldable pub normalize_tier : Option String → Tier
unfolding canonical_tier trim
normalize_tier none = bronze
normalize_tier (some raw) = or_else (canonical_tier (some (to_lower (trim raw)))) bronze

-- `/^9\d\./` on a text
private_name : String → Bool
private_name (String.◌∷◌ a (String.◌∷◌ b (String.◌∷◌ c s))) =
    nat_eq (code a) b'9' && is_digit (code b) && nat_eq (code c) b'.'
private_name _ = false

unfoldable pub is_private : WizarrLibrary → Bool
unfolding private_name is_digit
is_private library = private_name (text_or_empty library.name)

-- A missing or empty server name, or a retired server, fails.
unfoldable pub is_on_share_server : WizarrLibrary → Bool
is_on_share_server library = elim (truthy library.server_name) [
  | none ↦ false
  | some server ↦ not (contains retired_servers server)
]

unfoldable pub tier_wants : Tier → WizarrLibrary → Bool
unfolding tier_rule
tier_wants tier library = (tier_rule tier).wants library

-- `!!library.enabled`
abbrev pub is_enabled : WizarrLibrary → Bool
is_enabled library = or_else library.enabled false

-- The server and private filters run last, whatever rule is handed in.
unfoldable pub shareable_libraries :
    (wants : Tier → WizarrLibrary → Bool) → Tier → List WizarrLibrary → List WizarrLibrary
unfolding is_on_share_server is_private
shareable_libraries wants tier libraries =
    keep (λ l. is_on_share_server l && not (is_private l))
      (keep (λ l. is_enabled l && wants tier l) libraries)
