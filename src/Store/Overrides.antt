-- ===== src/Store/Overrides.antt =====
-- overrides.ts: the admin's overrides, each a table keyed by a lowercased address.
use wizteros.Common.{
  nat_eq, and_then, lookup, insert, erase, to_lower, text_or_empty, ℕ, String, Bool, true, false,
  not, Option, none, some, List, [], ◌∷◌, ◌++◌,
}
use wizteros.Standing.{MemberTag, tag_name, member_tag}
use wizteros.Store.Tables.{Store}

-- `addressKeyed`: the three operations of one table, over how a value is written to the column and
-- read back. A stored value that `decode` does not know reads as absent.
module _ {T C : Type 0} (encode : T → C) (decode : C → Option T) where
  unfoldable pub get_keyed : (address : String) → List (String × C) → Option T
  unfolding lookup to_lower
  get_keyed address table = and_then (lookup (to_lower address) table) decode

  unfoldable pub set_keyed : (address : String) → Option T → List (String × C) → List (String × C)
  unfolding erase insert to_lower
  set_keyed address none table = erase (to_lower address) table
  set_keyed address (some value) table = insert (to_lower address) (encode value) table

  unfoldable pub all_keyed : List (String × C) → List (String × T)
  all_keyed [] = []
  all_keyed ((key, column) ∷ table) =
      elim (decode column) [ none ↦ [] | some value ↦ (key, value) ∷ [] ] ++ all_keyed table

abbrev flag : Bool → ℕ
flag true = 1
flag false = 0

abbrev pub same : String → String
same text = text

-- `''` when none is saved
unfoldable pub get_member_notes : String → Store → String
unfolding get_keyed
get_member_notes email s = text_or_empty (get_keyed same some email s.notes)

unfoldable pub set_member_notes : String → String → Store → Store
unfolding set_keyed
set_member_notes email notes s = record s { notes = set_keyed same some email (some notes) s.notes }

unfoldable pub get_member_tag : String → Store → Option MemberTag
unfolding get_keyed member_tag
get_member_tag email s = get_keyed tag_name member_tag email s.tags

unfoldable pub set_member_tag : String → Option MemberTag → Store → Store
unfolding set_keyed
set_member_tag email tag s = record s { tags = set_keyed tag_name member_tag email tag s.tags }

-- `new Map` over the decoded rows, whose keys are distinct
unfoldable pub all_member_tags : Store → List (String × MemberTag)
unfolding all_keyed member_tag
all_member_tags s = all_keyed tag_name member_tag s.tags

-- `!!number`
abbrev pub nonzero : ℕ → Option Bool
nonzero n = some (not (nat_eq n 0))

unfoldable pub get_member_downloads : String → Store → Option Bool
unfolding get_keyed
get_member_downloads email s = get_keyed flag nonzero email s.downloads

unfoldable pub set_member_downloads : String → Bool → Store → Store
unfolding set_keyed
set_member_downloads email allow s = record s {
  downloads = set_keyed flag nonzero email (some allow) s.downloads;
}

unfoldable pub get_member_link : String → Store → Option String
unfolding get_keyed
get_member_link stripe_email s = get_keyed to_lower some stripe_email s.links

unfoldable pub set_member_link : String → Option String → Store → Store
unfolding set_keyed
set_member_link stripe_email plex_email s = record s {
  links = set_keyed to_lower some stripe_email plex_email s.links;
}

unfoldable pub all_member_links : Store → List (String × String)
unfolding all_keyed
all_member_links s = all_keyed to_lower some s.links
