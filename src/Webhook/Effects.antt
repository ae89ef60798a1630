-- ===== src/Webhook/Effects.antt =====
-- Lines 147 to 303 of webhook/handlers.ts: what the handlers do to a member's records.
use wizteros.Common.{or_else, length, ℕ, String, Bool, true, false, Option, none, some, List, map}
use wizteros.Tiers.{Tier, bronze, TierScope}
use wizteros.Store.{checkout_blocked, access_restored, recovery}
use wizteros.Identity.{IdentitySnapshot, IdentityVia, by_email, Identity}
use wizteros.Bridge.{
  banned_checkout, access_restored_alert, Bridge, M, pure, gets, ◌>>=◌, ◌>>◌, each_in_order,
  set_expiry, disable_user, send_alert, log_event,
}
use wizteros.Members.{resolve_identity}
use wizteros.Invites.{issue_invite, deliver_invite, rescope_records}
use wizteros.Webhook.Payer.{access_expiry, resolve_tier_scope}

module _ (b : Bridge) where
  -- What is told once the link of a restored access went out.
  unfoldable pub report_restored : (email : String) → Tier → Bool → M (Unit {0})
  unfolding pure log_event send_alert ◌>>=◌
  report_restored email tier false = pure tt
  report_restored email tier true = do
    log_event b email (access_restored tier)
    send_alert b (access_restored_alert email tier)

  -- `restoreAccess`
  unfoldable pub restore_access :
      (email : String)
      → (customer_id : Option String) → Option Tier
      → (invoice_id : String) → M (Unit {0})
  unfolding resolve_tier_scope issue_invite deliver_invite report_restored ◌>>=◌
  restore_access email customer_id tier invoice_id = do
    let resolved = or_else tier bronze
    scope ← resolve_tier_scope b resolved
    invite ← issue_invite b (record {
      email = email;
      tier = resolved;
      scope = scope;
      customer_id = customer_id;
      allow_downloads = none;
      operation = some (recovery invoice_id);
      settles_payment = false;
    })
    delivered ← deliver_invite b email invite
    report_restored email resolved delivered

  -- `blockBannedCheckout`
  unfoldable pub block_banned_checkout :
      (email : String) → Tier → (session_id customer_id : Option String) → M (Unit {0})
  unfolding log_event send_alert ◌>>=◌
  block_banned_checkout email tier session_id customer_id = do
    log_event b email (checkout_blocked tier)
    send_alert b (banned_checkout email tier session_id customer_id)

  -- The identity is found by the member's own address, so coverage can be judged.
  unfoldable pub is_by_email : IdentityVia → Bool
  is_by_email by_email = true
  is_by_email _ = false

  -- `resetExistingRecords`
  unfoldable pub reset_existing_records :
      IdentitySnapshot → (email : String) → (customer_id : Option String) → TierScope → M (Unit {0})
  unfolding gets resolve_identity rescope_records is_by_email access_expiry each_in_order set_expiry
      ◌>>=◌
  reset_existing_records snapshot email customer_id access = do
    identity ← gets (resolve_identity snapshot customer_id (some email))
    rescoped ← rescope_records b identity.records access.server_names (is_by_email identity.via)
    expires ← access_expiry b
    each_in_order rescoped.1 (λ r. set_expiry b r.id (some expires))

  -- `renewRecords`: the ids stamped, and the expiry
  unfoldable pub renew_records : Identity → M (List ℕ × ℕ)
  unfolding access_expiry each_in_order set_expiry pure ◌>>=◌
  renew_records identity = do
    let ids = map (λ r. r.id) identity.records
    expires ← access_expiry b
    each_in_order ids (λ id. set_expiry b id (some expires))
    pure (ids, expires)

  -- `disableRecords`: how many there were
  unfoldable pub disable_records : Identity → M ℕ
  unfolding each_in_order disable_user pure ◌>>=◌
  disable_records identity = do
    let ids = map (λ r. r.id) identity.records
    each_in_order ids (disable_user b)
    pure (length ids)
