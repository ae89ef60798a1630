-- ===== src/Links.antt =====
-- apps/stripe-bridge/src/memberLinks.ts: manual links form stars, many payers to one account.
pub mod Stars
use wizteros.Common.{
  if◌then◌else◌, is_some, find, lookup, insert, text_or_empty, String, Bool, Option, none, some,
  List, ◌==◌,
}

-- Why a link is refused: an address cannot link to itself, or the destination already pays.
pub data LinkConflict : Type 0 where
  self_link : LinkConflict
  already_pays : (destination under : String) → LinkConflict

-- `proposed.has(destination)`
abbrev pub chains : List (String × String) → String × String → Bool
chains links l = is_some (lookup l.1 links)

-- `memberLinkConflict`
unfoldable pub member_link_conflict :
    List (String × String)
    → (stripe_email : String) → (plex_email : Option String) → Option LinkConflict
unfolding insert lookup
member_link_conflict links stripe_email none = none
member_link_conflict links stripe_email (some plex_email) =
    let proposed = insert stripe_email plex_email links in
    if stripe_email == plex_email then some self_link else elim (find (chains proposed) proposed) [
      | none ↦ none
      | some chain ↦ some (already_pays chain.1 (text_or_empty (lookup chain.1 proposed)))
    ]
