-- ===== src/Tests/People.antt =====
-- Runs of the identity of a member, and of the links between addresses.
use wizteros.Common.{All, insert, String, ◌≡◌, ◌≢◌, ◌↔◌, none, some}
use wizteros.Identity.{identity_for}
use wizteros.Links.{member_link_conflict}
use wizteros.Identity.Own.{IsOwn, identity_for-IsOwn}
use wizteros.Links.Stars.{IsStar, member_link_conflict_iff}
use wizteros.Tests.Fixtures.{ann_links, ann_snapshot}

identity_for-IsOwn_example :
    All
      (IsOwn (identity_for ann_snapshot (some "Ann@x.io") (some "abc")).addresses)
      (identity_for ann_snapshot (some "Ann@x.io") (some "abc")).records
identity_for-IsOwn_example = identity_for-IsOwn ann_snapshot (some "Ann@x.io") (some "abc") (tt, tt)

abbrev bob : String
bob = "bob@x.io"

member_link_conflict_iff_example :
    ((member_link_conflict ann_links "bob@x.io" (some "ann@plex.tv") ≡ none)
      ↔ ((bob ≢ "ann@plex.tv") × IsStar (insert "bob@x.io" "ann@plex.tv" ann_links)))
    × (member_link_conflict ann_links "bob@x.io" none ≡ none)
member_link_conflict_iff_example = member_link_conflict_iff ann_links "bob@x.io" "ann@plex.tv"
