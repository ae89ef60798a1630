-- ===== src/Admin/Grants.antt =====
-- admin/actions.ts: the expiry of a member's records and a reissued invite.
use wizteros.Common.{
  if◌then◌else◌, is_some, length, is_empty, to_lower, ℕ, String, Bool, true, false, Option, none,
  some, List, map, ◌==◌,
}
use wizteros.Standing.{is_banned}
use wizteros.Tiers.{Tier, parse_tier, TierScope}
use wizteros.Store.{
  Days, ExpiryChange, to_instant, in_days, cleared, invite_issued, expiry_reset,
  get_member_downloads,
}
use wizteros.Identity.{WizarrUser, records_at}
use wizteros.Bridge.{
  Bridge, Error, tier_scope_empty, out_of_range, http, M, pure, raise, gets, catch, ◌>>=◌, ◌>>◌,
  each_in_order, given, find_users_by_email, set_expiry, send_invite, now, log_event,
}
use wizteros.Invites.{Issue, live_scope, issue_invite, rescope_records}
use wizteros.Members.{person_at, standing_of, identity_snapshot}
use wizteros.Admin.Actions.{days_from}
use wizteros.Admin.Billing.{attempt}

-- `ExpiryResult`
pub record ExpiryResult : Type 0 where
  pub updated : ℕ
  pub expires : Option ℕ

-- `ReissueResult`, its tier aside.
pub record ReissueResult : Type 0 where
  pub url : String
  pub code : String
  pub disabled : ℕ
  pub emailed : Bool

-- An empty scope is answered 502; any other error is thrown on.
unfoldable pub scope_error : Error → Error
scope_error tier_scope_empty = http 502
scope_error e = e

-- The invite that a reissue asks for.
unfoldable pub reissue :
    (email : String) → Tier → TierScope → (allow_downloads : Option Bool) → Issue
reissue email tier scope allow_downloads = record {
  email = email;
  tier = tier;
  scope = scope;
  customer_id = none;
  allow_downloads = allow_downloads;
  operation = none;
  settles_payment = false;
}

-- `absoluteExpiry` parses with a library: `parse_expiry` is its answer, none for what is no instant.
module _ (b : Bridge) (parse_expiry : String → Option ℕ) where
  expiry_in : Option Days → M (Option ℕ × ExpiryChange)
  unfolding pure raise now days_from ◌>>=◌
  expiry_in none = pure (none, cleared)
  expiry_in (some days) = do
    at ← now b
    given (days_from at days) (raise out_of_range) (λ e. pure (some e, in_days days))

  -- `expiryFor`: an instant wins over a number of days, and without either the expiry is cleared
  unfoldable pub expiry_for :
      (days : Option Days) → (expires_at : Option String) → M (Option ℕ × ExpiryChange)
  unfolding pure raise expiry_in
  expiry_for days none = expiry_in days
  expiry_for days (some text) =
      given (parse_expiry text) (raise (http 400)) (λ e. pure (some e, to_instant e))

  -- The records' new expiry, one record after the other.
  unfoldable pub set_all :
      (email : String) → (ids : List ℕ) → Option ℕ × ExpiryChange → M ExpiryResult
  unfolding each_in_order set_expiry log_event pure ◌>>=◌
  set_all email ids change = do
    each_in_order ids (λ id. set_expiry b id change.0)
    log_event b email (expiry_reset change.1)
    pure (record { updated = length ids; expires = change.0 })

  -- `resetExpiry`
  unfoldable pub reset_expiry :
      (email : String) → (days : Option Days) → (expires_at : Option String) → M ExpiryResult
  unfolding find_users_by_email raise expiry_for set_all ◌>>=◌
  reset_expiry email days expires_at = do
    users ← find_users_by_email b email
    if is_empty users
        then raise (http 404)
        else do change ← expiry_for days expires_at; set_all email (map (λ u. u.id) users) change

module _ (b : Bridge) where
  -- The scope of a reissue.
  unfoldable pub reissue_scope : Tier → M TierScope
  unfolding live_scope catch raise scope_error
  reissue_scope tier = catch (live_scope b tier) (λ e. raise (scope_error e))

  -- The invite comes before any record is disabled, and a failing mail fails nothing.
  unfoldable pub replace_access :
      (email : String) → Tier → (records : List WizarrUser) → TierScope → M ReissueResult
  unfolding gets get_member_downloads issue_invite reissue rescope_records attempt send_invite
      log_event pure ◌>>=◌
  replace_access email tier records scope = do
    override ← gets (get_member_downloads email)
    invite ← issue_invite b (reissue email tier scope override)
    rescoped ← rescope_records b records scope.server_names true
    sent ← attempt (send_invite b email invite.url)
    let emailed = is_some sent
    log_event b email (invite_issued tier emailed)
    pure (record {
      url = invite.url;
      code = invite.code;
      disabled = length rescoped.0;
      emailed = emailed;
    })

  unfoldable pub reissue_unless_banned : (email : String) → Tier → M ReissueResult
  unfolding identity_snapshot person_at standing_of is_banned raise reissue_scope records_at
      to_lower replace_access gets ◌>>=◌
  reissue_unless_banned email tier = do
    snapshot ← identity_snapshot b
    standing ← gets (λ s. standing_of s (person_at snapshot email))
    if is_banned standing then raise (http 409) else do
      scope ← reissue_scope tier
      replace_access email tier (records_at snapshot.users (to_lower email)) scope

  -- `reissueInvite`
  unfoldable pub reissue_invite : (email tier : String) → M ReissueResult
  unfolding parse_tier raise reissue_unless_banned
  reissue_invite email requested = given (parse_tier requested) (raise (http 400)) (λ tier.
      if b.settings.public_invite_base == ""
      then raise (http 500)
      else reissue_unless_banned email tier)
