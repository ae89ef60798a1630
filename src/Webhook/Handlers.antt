-- ===== src/Webhook/Handlers.antt =====
-- Lines 320 to 460 of webhook/handlers.ts: a completed checkout, and a paid invoice.
use wizteros.Common.{
  if◌then◌else◌, and_then, text_or_empty, ℕ, String, Bool, true, false, Option, none, some, List,
  [], ◌∷◌, ◌==◌,
}
use wizteros.Standing.{MemberTag, is_banned, holds_standing_grant}
use wizteros.Json.{Fields, get, as_text, truthy_text, nested}
use wizteros.Tiers.{Tier, normalize_tier}
use wizteros.Store.{
  signed_up, payment_received_banned, payment_received_vip, payment_received, set_subscribed,
  set_payment_state, customer_row, checkout,
}
use wizteros.Identity.{IdentitySnapshot, Identity}
use wizteros.Bridge.{
  signup_alert, duplicate_not_retired, Bridge, M, pure, gets, modify, ◌>>=◌, ◌>>◌, given,
  send_alert, log_event,
}
use wizteros.Members.{standing_of}
use wizteros.Invites.{issue_invite, deliver_invite, Retirement, retire_failed, retire_duplicates}
use wizteros.Webhook.Payer.{required_text, payer_email, resolve_tier_scope, resolve_live}
use wizteros.Webhook.Effects.{
  restore_access, block_banned_checkout, reset_existing_records, renew_records,
}

module _ (b : Bridge) where
  unfoldable pub report_signup :
      Fields
      → (email : String) → Tier
      → (customer_id : Option String) → (url : String) → Bool
      → M (Unit {0})
  unfolding pure log_event send_alert truthy_text ◌>>=◌
  report_signup obj email tier customer_id url false = pure tt
  report_signup obj email tier customer_id url true = do
    log_event b email (signed_up tier)
    send_alert b (signup_alert email tier obj (truthy_text "id" obj) customer_id url)

  -- The alert of a checkout whose duplicate could not be retired.
  unfoldable pub report_not_retired : (email paying_under : String) → Retirement → M (Unit {0})
  unfolding pure send_alert
  report_not_retired email paying_under retire_failed =
      send_alert b (duplicate_not_retired email paying_under none)
  report_not_retired email paying_under _ = pure tt

  unfoldable pub retire_after_checkout :
      (email : String) → (customer_id : Option String) → M (Unit {0})
  unfolding pure retire_duplicates report_not_retired ◌>>=◌
  retire_after_checkout email none = pure tt
  retire_after_checkout email (some customer_id) = do
    retirement ← retire_duplicates b email customer_id
    report_not_retired email customer_id retirement

  -- A checkout by somebody who is not banned.
  unfoldable pub complete_checkout :
      Fields
      → (email : String) → Tier
      → (customer_id : Option String) → IdentitySnapshot
      → Option MemberTag
      → M (Unit {0})
  unfolding pure truthy_text resolve_tier_scope issue_invite deliver_invite report_signup
      retire_after_checkout holds_standing_grant reset_existing_records ◌>>=◌
  complete_checkout obj email tier customer_id snapshot tag = do
    access ← resolve_tier_scope b tier
    invite ← issue_invite b (record {
      email = email;
      tier = tier;
      scope = access;
      customer_id = customer_id;
      allow_downloads = none;
      operation = elim (truthy_text "id" obj) [ none ↦ none | some id ↦ some (checkout id) ];
      settles_payment = true;
    })
    delivered ← deliver_invite b email invite
    report_signup obj email tier customer_id invite.url delivered
    retire_after_checkout email customer_id
    if holds_standing_grant tag
        then pure tt
        else reset_existing_records b snapshot email customer_id access

  -- A checkout at an address, whose tag is read before anything is minted or stored.
  unfoldable pub checkout_for : Fields → (email : String) → M (Unit {0})
  unfolding truthy_text nested as_text get normalize_tier resolve_live gets standing_of is_banned
      block_banned_checkout complete_checkout ◌>>=◌
  checkout_for obj email = do
    let customer_id = truthy_text "customer" obj
    let tier = normalize_tier (as_text (get "tier" (nested "metadata" obj)))
    live ← resolve_live b customer_id (some email)
    tag ← gets (λ s. standing_of s live.1)
    if is_banned tag
        then block_banned_checkout b email tier (truthy_text "id" obj) customer_id
        else complete_checkout obj email tier customer_id live.0 tag

  -- `onCheckoutCompleted`
  unfoldable pub on_checkout_completed : Fields → M (Unit {0})
  unfolding payer_email checkout_for pure ◌>>=◌
  on_checkout_completed obj = do
    email ← payer_email b obj none
    given email (pure tt) (checkout_for obj)

  -- What a renewal tells, and the restoring of one that found no records.
  unfoldable pub after_renewal : Fields → (email customer_id : String) → List ℕ × ℕ → M (Unit {0})
  unfolding log_event gets customer_row required_text restore_access ◌>>=◌
  after_renewal obj email customer_id (id ∷ ids, expires) =
      log_event b email (payment_received expires)
  after_renewal obj email customer_id ([], expires) = do
    row ← gets (customer_row email)
    invoice_id ← required_text "id" obj
    restore_access b email (some customer_id) (and_then row (λ r. r.tier)) invoice_id

  -- A paid invoice of somebody who is not banned.
  unfoldable pub renew :
      Fields → (email customer_id : String) → Identity → Option MemberTag → M (Unit {0})
  unfolding modify set_subscribed holds_standing_grant log_event renew_records after_renewal ◌>>=◌
  renew obj email customer_id identity tag = do
    modify (set_subscribed email true)
    if holds_standing_grant tag
        then log_event b email payment_received_vip
        else (renew_records b identity >>= after_renewal obj email customer_id)

  -- A paid invoice that is not a signup's, at an address.
  unfoldable pub renewal_for : Fields → (email customer_id : String) → M (Unit {0})
  unfolding resolve_live gets standing_of is_banned log_event renew ◌>>=◌
  renewal_for obj email customer_id = do
    live ← resolve_live b (some customer_id) (some email)
    tag ← gets (λ s. standing_of s live.1)
    if is_banned tag
        then log_event b email payment_received_banned
        else renew obj email customer_id live.1 tag

  -- The same with no address: the records of the customer's invite get their window.
  unfoldable pub renewal_of_nobody : (customer_id : String) → M (Unit {0})
  unfolding resolve_live renew_records pure ◌>>=◌
  renewal_of_nobody customer_id = do
    live ← resolve_live b (some customer_id) none
    renew_records b live.1
    pure tt

  is_signup_invoice : Fields → Bool
  unfolding as_text get
  is_signup_invoice obj =
      text_or_empty (as_text (get "billing_reason" obj)) == "subscription_create"

  unfoldable pub settle : (email : Option String) → M (Unit {0})
  unfolding pure modify set_payment_state
  settle none = pure tt
  settle (some email) = modify (set_payment_state email none)

  -- `onInvoicePaid`
  unfoldable pub on_invoice_paid : Fields → M (Unit {0})
  unfolding required_text payer_email settle is_signup_invoice pure renewal_of_nobody renewal_for
      ◌>>=◌
  on_invoice_paid obj = do
    customer_id ← required_text "customer" obj
    email ← payer_email b obj (some customer_id)
    settle email
    if is_signup_invoice obj
        then pure tt
        else given email (renewal_of_nobody customer_id) (λ e. renewal_for obj e customer_id)
