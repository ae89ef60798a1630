-- ===== src/Admin/Actions.antt =====
-- admin/actions.ts: the labels, the links, the cancellation, the ban and the resets.
use wizteros.Common.{
  ltb, if◌then◌else◌, length, is_empty, keep, to_lower, trim, truthy, sorted, ℕ, ◌-◌, ◌*◌, String,
  Bool, not, ◌&&◌, ◌||◌, Option, none, some, List, ◌∷◌, ◌++◌, map, ◌==◌,
}
use wizteros.Standing.{MemberTag, banned, member_tag}
use wizteros.Tiers.{parse_tier}
use wizteros.Store.{
  Days, ahead, back, tag_changed, downloads_toggled, address_linked, billing_address,
  address_unlinked, tier_reset, member_banned, cancellation_scheduled, set_tier, set_member_notes,
  set_member_tag, set_member_downloads, set_member_link, all_member_links,
}
use wizteros.Identity.{WizarrUser, WizarrInvitation, IdentitySnapshot, Identity, every_record}
use wizteros.Links.{member_link_conflict}
use wizteros.Bridge.{
  Bridge, http, M, pure, raise, gets, modify, ◌>>=◌, ◌>>◌, each_in_order, given, disable_user,
  log_event, add_days,
}
use wizteros.Members.{snapshot_over, stored_snapshot, person_at, identity_snapshot}
use wizteros.Admin.Billing.{
  Flagged, cancel_at_of, flag_subscriptions, BillingStatus, billing_status, ban_billing_line,
}

-- The person's addresses, the one asked about first.
unfoldable pub addresses_of : (email : String) → Identity → List String
unfolding sorted to_lower
addresses_of email identity =
    let asked = to_lower email in asked ∷ sorted (keep (λ a. not (a == asked)) identity.addresses)

pub record CancelResult : Type 0 where
  pub canceled : ℕ
  pub cancel_at : Option ℕ

-- `BanResult`
pub record BanResult : Type 0 where
  pub disabled : ℕ
  pub billing : BillingStatus
  pub canceled : ℕ
  pub cancel_at : Option ℕ

-- The first instant after year 9999.
abbrev end_of_years : ℕ
end_of_years = 315_537_897_600_000

unfoldable pub normal_address : Option String → Option String
unfolding to_lower trim
normal_address none = none
normal_address (some email) = some (to_lower (trim email))

-- `daysFromNow`: none when the date leaves the years 1 to 9999
unfoldable pub days_from : (at : ℕ) → Days → Option ℕ
days_from at (ahead n) =
    let instant = add_days at n in if ltb instant end_of_years then some instant else none
days_from at (back n) =
    let span = n * 86_400_000 in
    if ltb at span then none else if ltb (at - span) end_of_years then some (at - span) else none

module _ (b : Bridge) where
  -- `saveNotes`
  unfoldable pub save_notes : (email notes : String) → M (Unit {0})
  unfolding modify set_member_notes
  save_notes email notes = modify (set_member_notes email notes)

  unfoldable pub put_tag : (email : String) → Option MemberTag → M (Unit {0})
  unfolding modify set_member_tag log_event ◌>>=◌
  put_tag email tag = do modify (set_member_tag email tag); log_event b email (tag_changed tag)

  -- `setTag`
  unfoldable pub set_tag : (email : String) → (tag : Option String) → M (Unit {0})
  unfolding put_tag member_tag raise
  set_tag email none = put_tag email none
  set_tag email (some text) =
      given (member_tag text) (raise (http 400)) (λ tag. put_tag email (some tag))

  -- `setDownloads`
  unfoldable pub set_downloads : (email : String) → Bool → M (Unit {0})
  unfolding modify set_member_downloads log_event ◌>>=◌
  set_downloads email allow = do
    modify (set_member_downloads email allow)
    log_event b email (downloads_toggled allow)

  -- What is recorded of a link; an empty address counts as none.
  unfoldable pub log_link : (stripe_email : String) → (plex_email : Option String) → M (Unit {0})
  unfolding log_event ◌>>=◌
  log_link stripe_email none = log_event b stripe_email address_unlinked
  log_link stripe_email (some plex_email) = do
    log_event b plex_email (address_linked stripe_email)
    log_event b stripe_email (billing_address plex_email)

  -- The link of two addresses, lowercased and trimmed.
  unfoldable pub put_link : (stripe_email : String) → (plex_email : Option String) → M (Unit {0})
  unfolding gets all_member_links member_link_conflict raise modify set_member_link log_link ◌>>=◌
  put_link stripe_email plex_email = do
    links ← gets all_member_links
    given (member_link_conflict links stripe_email plex_email)
        (modify (set_member_link stripe_email plex_email)
          >> log_link stripe_email (truthy plex_email))
        (λ conflict. raise (http 400))

  -- `linkAddress`
  unfoldable pub link_address :
      (stripe_email : String) → (plex_email : Option String) → M (Unit {0})
  unfolding to_lower trim raise normal_address put_link
  link_address stripe_email plex_email =
      let payer = to_lower (trim stripe_email) in
      if payer == "" then raise (http 400) else put_link payer (normal_address (truthy plex_email))

  unfoldable pub log_cancellation : (email : String) → Flagged → M CancelResult
  unfolding log_event pure cancel_at_of ◌>>=◌
  log_cancellation email f =
      let at = cancel_at_of (f.flagged ++ f.already) in
      let result = pure (record { canceled = length f.flagged; cancel_at = at }) in
      if is_empty f.flagged
      then result
      else (log_event b email (cancellation_scheduled at) >> result)

  -- `cancelSubscription`, over Wizarr's users and invitations when they are in hand
  unfoldable pub cancel_subscription :
      (email : String) → Option (List WizarrUser × List WizarrInvitation) → M CancelResult
  unfolding gets snapshot_over stored_snapshot person_at addresses_of flag_subscriptions raise
      log_cancellation ◌>>=◌
  cancel_subscription email seen = do
    snapshot ←
        gets (λ s. elim seen [
          | none ↦ stored_snapshot s
          | some lists ↦ snapshot_over lists.0 lists.1 s
        ])
    f ← flag_subscriptions b (addresses_of email (person_at snapshot email))
    if ltb 0 f.failures
        then raise (http 502)
        else if not f.found || (is_empty f.flagged && is_empty f.already)
        then raise (http 404)
        else log_cancellation email f

  -- What follows once the records of a banned person are disabled.
  unfoldable pub settle_ban : (email : String) → Identity → (disabled : ℕ) → M BanResult
  unfolding flag_subscriptions addresses_of billing_status cancel_at_of log_event ban_billing_line
      pure ◌>>=◌
  settle_ban email identity disabled = do
    f ← flag_subscriptions b (addresses_of email identity)
    let at = cancel_at_of (f.flagged ++ f.already)
    log_event b email (member_banned disabled (ban_billing_line (billing_status f) at))
    pure (record {
      disabled = disabled;
      billing = billing_status f;
      canceled = length f.flagged;
      cancel_at = at;
    })

  -- The person as Wizarr has them now: every record disabled, then the ban settled.
  unfoldable pub revoke_person : (email : String) → IdentitySnapshot → M BanResult
  unfolding person_at every_record each_in_order disable_user settle_ban ◌>>=◌
  revoke_person email snapshot = do
    let identity = person_at snapshot email
    let ids = map (λ u. u.id) (every_record snapshot identity)
    each_in_order ids (disable_user b)
    settle_ban email identity (length ids)

  -- What a ban does once the tag is set.
  unfoldable pub revoke_live : (email : String) → M BanResult
  unfolding identity_snapshot revoke_person ◌>>=◌
  revoke_live email = do snapshot ← identity_snapshot b; revoke_person email snapshot

  -- `banMember`
  unfoldable pub ban_member : (email : String) → M BanResult
  unfolding modify set_member_tag revoke_live ◌>>=◌
  ban_member email = modify (set_member_tag email (some banned)) >> revoke_live email

  -- `resetTier`
  unfoldable pub reset_tier : (email tier : String) → M (Unit {0})
  unfolding parse_tier raise modify set_tier log_event ◌>>=◌
  reset_tier email tier =
      given (parse_tier tier) (raise (http 400))
        (λ t. modify (set_tier email t) >> log_event b email (tier_reset t))
