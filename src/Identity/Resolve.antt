-- ===== src/Identity/Resolve.antt =====
-- identity.ts. A set of addresses is the list of its members in insertion order.
use wizteros.Common.{
  if◌then◌else◌, or_else, first_some, and_then, is_empty, keep, find, flat_map, contains,
  contains_id, distinct, lookup, insert_all, from_entries, to_lower, trim, truthy, text_or_empty,
  address_of, String, not, ◌&&◌, Option, none, some, List, [], ◌∷◌, ◌++◌, map, ◌==◌,
}
use wizteros.Identity.Wizarr.{WizarrUser, WizarrInvitation, redeemer_record}

pub record IdentitySnapshot : Type 0 where
  pub users : List WizarrUser
  pub invitations : List WizarrInvitation
  pub links : List (String × String)
  pub invites : List (String × String)

pub data IdentityVia : Type 0 where
  by_email by_link by_invite by_nothing : IdentityVia

pub record Identity : Type 0 where
  pub primary_address : Option String
  pub addresses : List String
  pub records : List WizarrUser
  pub via : IdentityVia

-- A record's email lowercased, `''` when it has none.
unfoldable pub email_of : WizarrUser → String
unfolding trim to_lower
email_of user = address_of user.email

unfoldable pub records_at : List WizarrUser → String → List WizarrUser
unfolding email_of
records_at users address = keep (λ u. email_of u == address) users

unfoldable pub redeemer_of : IdentitySnapshot → Option String → Option WizarrUser
unfolding redeemer_record to_lower
redeemer_of snapshot invite_code = elim (truthy invite_code) [
  | none ↦ none
  | some code ↦
      and_then
        (find (λ row. to_lower (text_or_empty row.code) == to_lower code) snapshot.invitations)
        (λ invitation. redeemer_record invitation snapshot.users)
]

-- The redeemer's records on every server; the one record of a redeemer with no email.
unfoldable pub redeemer_records : List WizarrUser → Option WizarrUser → List WizarrUser
unfolding records_at
redeemer_records users none = []
redeemer_records users (some redeemer) =
    if email_of redeemer == "" then redeemer ∷ [] else records_at users (email_of redeemer)

-- The address of the redeemer, `''` when there is none.
abbrev pub redeemer_address : Option WizarrUser → String
redeemer_address none = ""
redeemer_address (some user) = email_of user

-- `impliedLinks`
unfoldable pub implied_links : IdentitySnapshot → List (String × String)
unfolding redeemer_of from_entries
implied_links snapshot = from_entries (
    flat_map
      (λ entry.
        let plex = redeemer_address (redeemer_of snapshot (some entry.1)) in
        if not (plex == "") && not (plex == entry.0) then (entry.0, plex) ∷ [] else [])
      snapshot.invites)

-- `links.get(address) ?? address`
abbrev pub owner_in : List (String × String) → String → String
owner_in links address = or_else (lookup address links) address

-- The addresses that pay for one of the owners.
abbrev pub payers_of : List (String × String) → List String → List String
payers_of links owners = map (λ l. l.0) (keep (λ l. contains owners l.1) links)

-- `linkedTo`
unfoldable pub linked_to : List (String × String) → List String → List String
unfolding distinct lookup
linked_to links seeds =
    let owners = distinct (map (owner_in links) seeds) in
    distinct (seeds ++ (owners ++ payers_of links owners))

unfoldable pub every_record : IdentitySnapshot → Identity → List WizarrUser
unfolding email_of
every_record snapshot identity =
    identity.records
    ++ keep
        (λ u.
          not (contains_id (map (λ r. r.id) identity.records) u.id)
          && contains identity.addresses (email_of u))
        snapshot.users

-- `email ? email.trim().toLowerCase() : null`
abbrev pub asked_address : Option String → Option String
asked_address email = elim (truthy email) [ none ↦ none | some e ↦ some (to_lower (trim e)) ]

-- The links of the snapshot, over those that redemptions imply.
unfoldable pub all_links : IdentitySnapshot → List (String × String)
unfolding implied_links insert_all
all_links snapshot =
    insert_all (implied_links snapshot) (keep (λ l. not (l.1 == "")) snapshot.links)

-- The records at an address, if there is one.
unfoldable pub records_of : List WizarrUser → Option String → List WizarrUser
unfolding records_at
records_of users none = []
records_of users (some a) = if a == "" then [] else records_at users a

-- The first evidence that answers: the address, the stated link, then the invite.
unfoldable pub find_records :
    IdentitySnapshot → Option String → Option WizarrUser → List WizarrUser × IdentityVia
unfolding records_of redeemer_records lookup
find_records snapshot address redeemer =
    let own = records_of snapshot.users address in
    let linked = and_then (truthy address) (λ a. lookup a snapshot.links) in
    let at_link = records_of snapshot.users linked in
    let redeemed = redeemer_records snapshot.users redeemer in
    if not (is_empty own)
    then (own, by_email)
    else if not (is_empty at_link)
    then (at_link, by_link)
    else (redeemed, (if is_empty redeemed then by_nothing else by_invite))

-- `identityFor`
unfoldable pub identity_for : IdentitySnapshot → Option String → Option String → Identity
unfolding redeemer_of all_links linked_to find_records lookup trim to_lower
identity_for snapshot email invite_code =
    let address = asked_address email in
    let redeemer = redeemer_of snapshot invite_code in
    let redeemed = redeemer_address redeemer in
    let seeds = keep (λ s. not (s == "")) (text_or_empty address ∷ redeemed ∷ []) in
    let links = all_links snapshot in
    let found = find_records snapshot address redeemer in
    record {
      primary_address = elim (first_some address (truthy (some redeemed))) [
        | none ↦ none
        | some seed ↦ some (owner_in links seed)
      ];
      addresses = linked_to links seeds;
      records = found.0;
      via = found.1;
    }
