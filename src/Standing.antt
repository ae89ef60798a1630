-- ===== src/Standing.antt =====
-- apps/stripe-bridge/src/standing.ts: the manual tag an admin puts on a member.
pub mod Strength
use wizteros.Common.{
  ltb, if◌then◌else◌, reduce, lookup, ℕ, String, Bool, true, false, not, ◌&&◌, Option, none, some,
  List, map, ◌==◌,
}

pub data MemberTag : Type 0 where
  vip hvu banned : MemberTag

-- The text that the column holds.
abbrev pub tag_name : MemberTag → String
tag_name vip = "vip"
tag_name hvu = "hvu"
tag_name banned = "banned"

-- `isMemberTag`, with the tag that the text names.
unfoldable pub member_tag : String → Option MemberTag
member_tag value =
    if value == "vip"
    then some vip
    else if value == "hvu"
    then some hvu
    else if value == "banned"
    then some banned
    else none

unfoldable pub is_banned : Option MemberTag → Bool
is_banned (some banned) = true
is_banned _ = false

unfoldable pub holds_standing_grant : Option MemberTag → Bool
holds_standing_grant (some vip) = true
holds_standing_grant _ = false

unfoldable pub is_time_boxed : Option MemberTag → Bool
unfolding is_banned holds_standing_grant
is_time_boxed tag = not (is_banned tag) && not (holds_standing_grant tag)

abbrev pub tag_strength : MemberTag → ℕ
tag_strength banned = 3
tag_strength vip = 2
tag_strength hvu = 1

-- One round of the `reduce` in `strongestTag`.
abbrev pub stronger : Option MemberTag → Option MemberTag → Option MemberTag
stronger strongest none = strongest
stronger none (some tag) = some tag
stronger (some held) (some tag) =
    if ltb (tag_strength held) (tag_strength tag) then some tag else some held

unfoldable pub strongest_tag : List (Option MemberTag) → Option MemberTag
strongest_tag tags = reduce stronger none tags

-- The tags of a map are read for each address.
unfoldable pub strongest_across : List (String × MemberTag) → List String → Option MemberTag
unfolding strongest_tag
strongest_across tags addresses = strongest_tag (map (λ address. lookup address tags) addresses)
