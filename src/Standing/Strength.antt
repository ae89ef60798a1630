-- ===== src/Standing/Strength.antt =====
-- Which tag governs a person: a ban outranks a standing grant, and both outrank the rest.
use wizteros.Common.{
  any, reduce, any-map, lookup, String, ◌≡◌, not, ◌&&◌, ◌||◌, Option, none, List, [], ◌∷◌, map,
  arith,
}
use wizteros.Standing.{MemberTag, is_banned, holds_standing_grant, stronger, strongest_across}

-- A reduction from a held tag is banned exactly when that tag or some tag of the list is.
reduce-banned :
    (held : Option MemberTag) (tags : List (Option MemberTag))
    → is_banned (reduce stronger held tags) ≡ (is_banned held || any is_banned tags)
unfolding is_banned
reduce-banned held [] = ground arith
reduce-banned held (t ∷ ts) = ground (arith, reduce-banned (stronger held t) ts)

reduce-vip :
    (held : Option MemberTag) (tags : List (Option MemberTag))
    → holds_standing_grant (reduce stronger held tags) ≡ (
        (holds_standing_grant held || any holds_standing_grant tags)
        && not (is_banned held || any is_banned tags))
unfolding is_banned holds_standing_grant
reduce-vip held [] = ground arith
reduce-vip held (t ∷ ts) = ground (arith, reduce-vip (stronger held t) ts)

-- A person is banned exactly when one of their addresses is tagged banned, and holds a standing
-- grant exactly when one is tagged vip and none is tagged banned, in whatever order they stand.
pub strongest_across_lem :
    (tags : List (String × MemberTag)) (addresses : List String)
    → (is_banned (strongest_across tags addresses) ≡ any (λ a. is_banned (lookup a tags)) addresses)
      × (holds_standing_grant (strongest_across tags addresses) ≡ (
          any (λ a. holds_standing_grant (lookup a tags)) addresses
          && not (any (λ a. is_banned (lookup a tags)) addresses)))
unfolding strongest_across is_banned holds_standing_grant
strongest_across_lem tags addresses =
    let found = map (λ a. lookup a tags) addresses in
    rw
      (
        ← any-map is_banned (λ a. lookup a tags) addresses,
        ← any-map holds_standing_grant (λ a. lookup a tags) addresses,
      )
      (reduce-banned none found, reduce-vip none found)
