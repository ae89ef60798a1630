-- ===== src/Tests/Offices.antt =====
-- Runs of the admin actions.
use wizteros.Common.{to_lower, String, refl, none, some, List, [], ◌∷◌}
use wizteros.Json.{no_more, truthy_text}
use wizteros.Standing.{banned}
use wizteros.Store.{set_member_tag, all_member_links}
use wizteros.Identity.{IdentitySnapshot, Identity}
use wizteros.Bridge.{Bridge}
use wizteros.Bridge.Frame.{Within, Stays}
use wizteros.Members.{snapshot_over, resolve_identity}
use wizteros.Links.Stars.{IsStar}
use wizteros.Webhook.{resolve_live, checkout_for}
use wizteros.Webhook.Tags.{may_tell, but_history}
use wizteros.Admin.{link_address, ban_member, reissue_invite}
use wizteros.Admin.Bans.{may_ban, but_log, ban_member-Within, ban_member-checkout_for}
use wizteros.Admin.Links.{link_address-IsStar}
use wizteros.Admin.Mints.{Refuses, may_ask, whole, reissue_invite-Refuses}
use wizteros.Sweeps.{problem_entries, check_payment_states, rotate_baseline_invites}
use wizteros.Sweeps.Harmless.{but_states, check_payment_states-Stays}
use wizteros.Sweeps.Minted.{MintsWhole, rotate_baseline_invites-MintsWhole}
use wizteros.Bridge.Ensures.{MadeSince}
use wizteros.Tiers.{tier_scope_problems, library_cache_problems}
use wizteros.Tests.Fixtures.{catalog, ann_user, ann_invitation, willing, ann_world}

ban_member-Within_example :
    Within may_ban but_log
      (record ann_world { store = set_member_tag "ann@x.io" (some banned) ann_world.store })
      (ban_member willing "ann@x.io" ann_world).1
ban_member-Within_example = ban_member-Within willing "ann@x.io" ann_world

link_address-IsStar_example :
    IsStar
      (all_member_links (link_address willing "Ann@x.io" (some "ann@plex.tv") ann_world).1.store)
unfolding all_member_links
link_address-IsStar_example =
    link_address-IsStar willing "Ann@x.io" (some "ann@plex.tv") ann_world tt

-- Wizarr answers everything but the creating of an invite.
abbrev reluctant : Bridge
reluctant = record willing { created_code = λ request t. none }

reissue_invite-Refuses_example : Refuses may_ask whole (reissue_invite reluctant "ann@x.io" "gold")
reissue_invite-Refuses_example =
    reissue_invite-Refuses reluctant "ann@x.io" "gold" (λ request t. refl)

-- Ann as a checkout after her ban finds her.
abbrev banned_ann : IdentitySnapshot × Identity
banned_ann =
    let s = set_member_tag "ann@x.io" (some banned) ann_world.store in
    let snapshot = snapshot_over (ann_user ∷ []) (ann_invitation ∷ []) s in
    (snapshot, resolve_identity snapshot none (some "ann@x.io") s)

ban_member-checkout_for_example :
    Within may_tell but_history
      (ban_member willing "ann@x.io" ann_world).1
      (checkout_for willing no_more "ann@x.io" (ban_member willing "ann@x.io" ann_world).1).1
unfolding ban_member resolve_live truthy_text snapshot_over resolve_identity to_lower set_member_tag
ban_member-checkout_for_example =
    ban_member-checkout_for willing "ann@x.io" ann_world no_more "ann@x.io" banned_ann refl refl

check_payment_states-Stays_example : Stays may_tell but_states (check_payment_states willing)
check_payment_states-Stays_example = check_payment_states-Stays willing

rotate_baseline_invites-MintsWhole_example :
    MadeSince (MintsWhole willing) ann_world (rotate_baseline_invites willing 5 ann_world).1
rotate_baseline_invites-MintsWhole_example = rotate_baseline_invites-MintsWhole willing 5 ann_world

-- What the catalog lacks, as the first check of the tiers finds it.
abbrev lacking : List (String × String)
lacking = problem_entries (tier_scope_problems catalog) (library_cache_problems catalog none)
