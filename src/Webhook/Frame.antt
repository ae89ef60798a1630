-- ===== src/Webhook/Frame.antt =====
-- Which calls each part of a handler makes; none touches the processed events.
use wizteros.Common.{ℕ, String, ◌≡◌, refl, Bool, true, false, Option}
use wizteros.Json.{Fields}
use wizteros.Tiers.{Tier, TierScope}
use wizteros.Store.{Entry, Store}
use wizteros.Identity.{IdentitySnapshot, Identity}
use wizteros.Bridge.{
  InviteRequest, Alert, Call, creates_invite, sets_expiry, disables_user, sends_invite, sends_alert,
  reads_clock, Bridge, set_expiry, disable_user, customer_email_of, send_alert, now, log_event,
}
use wizteros.Bridge.Frame.{Stays, frame_rules, Stays-log_event}
use wizteros.Store.Processed.{processed_of, record_event-processed}
use wizteros.Members.Frame.{is_read, identity_snapshot-Stays}
use wizteros.Invites.Frame.{
  live_scope-Stays, issue_invite-Stays, deliver_invite-Stays, rescope_records-Stays,
}
use wizteros.Webhook.Payer.{
  required_text, customer_email, email_on_file, payer_email, access_expiry, resolve_tier_scope,
  resolve_live,
}
use wizteros.Webhook.Effects.{
  report_restored, restore_access, block_banned_checkout, reset_existing_records, renew_records,
  disable_records,
}

pub required_text-Stays :
    {V : Type 0} {may : Call → Bool} {view : Store → V} (key : String) (obj : Fields)
    → Stays may view (required_text key obj)
unfolding required_text
required_text-Stays key obj = search frame_rules

module _ {V : Type 0} {may : Call → Bool} {view : Store → V} (b : Bridge)
    (reads : (c : Call) → is_read c ≡ true → may c ≡ true) where
  pub payer_email-Stays :
      (obj : Fields) (customer_id : Option String) → Stays may view (payer_email b obj customer_id)
  unfolding payer_email email_on_file customer_email customer_email_of is_read
  payer_email-Stays obj customer_id = search (frame_rules, reads) depth 12

  pub access_expiry-Stays : Stays may view (access_expiry b)
  unfolding access_expiry now is_read
  access_expiry-Stays = search (frame_rules, reads)

  pub resolve_live-Stays :
      (customer_id email : Option String) → Stays may view (resolve_live b customer_id email)
  unfolding resolve_live
  resolve_live-Stays customer_id email = search (frame_rules, identity_snapshot-Stays)

  pub renew_records-Stays :
      (stamps : (id : ℕ) (expires : Option ℕ) → may (sets_expiry id expires) ≡ true)
      (identity : Identity)
      → Stays may view (renew_records b identity)
  unfolding renew_records set_expiry
  renew_records-Stays stamps identity = search (frame_rules, stamps, access_expiry-Stays) depth 12

pub disable_records-Stays :
    {V : Type 0} {may : Call → Bool} {view : Store → V} (b : Bridge)
    (disables : (id : ℕ) → may (disables_user id) ≡ true) (identity : Identity)
    → Stays may view (disable_records b identity)
unfolding disable_records disable_user
disable_records-Stays b disables identity = search (frame_rules, disables)

module _ {may : Call → Bool} (b : Bridge)
    (reads : (c : Call) → is_read c ≡ true → may c ≡ true) where
  pub logs-Stays :
      (email : String) (entry : Entry) → Stays may processed_of (log_event b email entry)
  unfolding is_read
  logs-Stays email entry =
      Stays-log_event may processed_of b email entry (reads reads_clock refl)
        (λ at s. record_event-processed at email entry s)

  report_restored-Stays :
      (alerts : (a : Alert) → may (sends_alert a) ≡ true) (email : String) (tier : Tier)
      (delivered : Bool)
      → Stays may processed_of (report_restored b email tier delivered)
  unfolding report_restored send_alert
  report_restored-Stays alerts email tier true = search (frame_rules, alerts, logs-Stays)
  report_restored-Stays alerts email tier false = search frame_rules

  pub restore_access-Stays :
      (creates : (request : InviteRequest) → may (creates_invite request) ≡ true)
      (sends : (to url : String) → may (sends_invite to url) ≡ true)
      (alerts : (a : Alert) → may (sends_alert a) ≡ true) (email : String)
      (customer_id : Option String) (tier : Option Tier) (invoice_id : String)
      → Stays may processed_of (restore_access b email customer_id tier invoice_id)
  unfolding restore_access resolve_tier_scope
  restore_access-Stays creates sends alerts email customer_id tier invoice_id =
      search
        (
          frame_rules,
          live_scope-Stays b reads,
          issue_invite-Stays b reads creates,
          deliver_invite-Stays b reads sends,
          report_restored-Stays alerts,
        )
        depth 12

  pub block_banned_checkout-Stays :
      (alerts : (a : Alert) → may (sends_alert a) ≡ true) (email : String) (tier : Tier)
      (session_id customer_id : Option String)
      → Stays may processed_of (block_banned_checkout b email tier session_id customer_id)
  unfolding block_banned_checkout send_alert
  block_banned_checkout-Stays alerts email tier session_id customer_id =
      search (frame_rules, alerts, logs-Stays)

  pub reset_existing_records-Stays :
      (disables : (id : ℕ) → may (disables_user id) ≡ true)
      (stamps : (id : ℕ) (expires : Option ℕ) → may (sets_expiry id expires) ≡ true)
      (snapshot : IdentitySnapshot) (email : String) (customer_id : Option String)
      (access : TierScope)
      → Stays may processed_of (reset_existing_records b snapshot email customer_id access)
  unfolding reset_existing_records set_expiry
  reset_existing_records-Stays disables stamps snapshot email customer_id access =
      search
        (frame_rules, stamps, access_expiry-Stays b reads, rescope_records-Stays b reads disables)
        depth 12
