-- ===== src/Webhook/Dunning.antt =====
-- Lines 462 to 580 of webhook/handlers.ts: a failed charge, and a subscription that changed or ended.
use wizteros.Common.{
  if◌then◌else◌, first_some, truthy, text_or_empty, String, Bool, true, false, Option, none, some,
}
use wizteros.Standing.{holds_standing_grant}
use wizteros.Status.{past_due, StatusRule, status_rule}
use wizteros.Json.{Fields, truthy_text}
use wizteros.Store.{
  payment_failed, canceled_vip, canceled_still_paying, canceled, Store, set_subscribed,
  set_payment_state,
}
use wizteros.Identity.{Identity}
use wizteros.Bridge.{
  duplicate_not_retired, payment_failed_alert, Bridge, M, pure, gets, modify, ◌>>=◌, ◌>>◌, given,
  send_alert, send_payment_failed, log_event,
}
use wizteros.Members.{standing_of, still_subscribed_elsewhere, access_line, live_sibling_customer}
use wizteros.Invites.{Retirement, retired, retire_duplicates}
use wizteros.Webhook.Payer.{required_text, payer_email, resolve_live}
use wizteros.Webhook.Effects.{disable_records}

-- Whether a retirement cancelled something.
unfoldable pub is_retired : Retirement → Bool
is_retired (retired rs) = true
is_retired _ = false

module _ (b : Bridge) where
  -- `liveSiblingCustomer`, an empty id read as none
  unfoldable pub paying_sibling : (email customer_id : String) → M (Option String)
  unfolding live_sibling_customer pure ◌>>=◌
  paying_sibling email customer_id = do
    sibling ← live_sibling_customer b email customer_id
    pure (truthy sibling)

  -- A declined charge on a duplicate of a customer that pays.
  unfoldable pub retire_declined : Fields → (email paying_under : String) → M (Unit {0})
  unfolding retire_duplicates is_retired pure send_alert ◌>>=◌
  retire_declined obj email paying_under = do
    retirement ← retire_duplicates b email paying_under
    if is_retired retirement
        then pure tt
        else send_alert b (duplicate_not_retired email paying_under (some obj))

  -- The member is mailed where to fix the card, if there is a portal.
  unfoldable pub notify_payer : (email : String) → (portal : Option String) → M (Unit {0})
  unfolding pure send_payment_failed
  notify_payer email none = pure tt
  notify_payer email (some url) = send_payment_failed b email url

  -- A declined charge of somebody who does not pay otherwise.
  unfoldable pub flag_past_due :
      Fields → (email : String) → (customer_id : Option String) → M (Unit {0})
  unfolding modify set_payment_state log_event access_line send_alert notify_payer ◌>>=◌
  flag_past_due obj email customer_id = do
    modify (set_payment_state email (some past_due))
    log_event b email (payment_failed obj)
    line ← access_line b customer_id email
    send_alert b (payment_failed_alert email obj line)
    notify_payer email (truthy b.settings.billing_portal_url)

  unfoldable pub failed_charge :
      Fields → (customer_id : Option String) → (email : String) → M (Unit {0})
  unfolding pure paying_sibling retire_declined flag_past_due ◌>>=◌
  failed_charge obj customer_id email = do
    paying_under ← given customer_id (pure none) (paying_sibling email)
    given paying_under (flag_past_due obj email customer_id) (retire_declined obj email)

  -- `onPaymentFailed`
  unfoldable pub on_payment_failed : Fields → M (Unit {0})
  unfolding truthy_text payer_email pure failed_charge ◌>>=◌
  on_payment_failed obj = do
    email ← payer_email b obj (truthy_text "customer" obj)
    given email (pure tt) (failed_charge obj (truthy_text "customer" obj))

  -- The rule's state is written, if there is a rule.
  unfoldable pub mirror_status : Option StatusRule → (email : String) → M (Unit {0})
  unfolding pure modify set_payment_state
  mirror_status none email = pure tt
  mirror_status (some rule) email = modify (set_payment_state email rule.payment_state)

  -- `onSubscriptionUpdated`
  unfoldable pub on_subscription_updated : Fields → M (Unit {0})
  unfolding truthy_text payer_email pure status_rule mirror_status ◌>>=◌
  on_subscription_updated obj = do
    email ← payer_email b obj (truthy_text "customer" obj)
    given email (pure tt) (mirror_status (status_rule (text_or_empty (truthy_text "status" obj))))

  -- The flags of an address whose customer stopped: a sibling that pays settles the dunning.
  unfoldable pub stop_paying : (email : String) → (sibling : Option String) → Store → Store
  unfolding set_payment_state set_subscribed
  stop_paying email (some sibling) = set_payment_state email none
  stop_paying email none = set_subscribed email false

  unfoldable pub disable_all : (email : String) → Identity → M (Unit {0})
  unfolding disable_records log_event ◌>>=◌
  disable_all email identity = do
    disabled ← disable_records b identity
    log_event b email (canceled disabled)

  -- An ended subscription of somebody who is no VIP: access is kept while anything of theirs pays.
  unfoldable pub revoke_unless_paying :
      (email : String) → (sibling : Option String) → Identity → M (Unit {0})
  unfolding gets still_subscribed_elsewhere log_event disable_all ◌>>=◌
  revoke_unless_paying email sibling identity = do
    elsewhere ← gets (still_subscribed_elsewhere email identity)
    given (truthy (first_some sibling elsewhere)) (disable_all email identity)
        (λ paying. log_event b email (canceled_still_paying paying))

  -- An ended subscription at an address.
  unfoldable pub cancellation_for : (customer_id email : String) → M (Unit {0})
  unfolding paying_sibling modify stop_paying resolve_live gets standing_of holds_standing_grant
      log_event revoke_unless_paying ◌>>=◌
  cancellation_for customer_id email = do
    sibling ← paying_sibling email customer_id
    modify (stop_paying email sibling)
    live ← resolve_live b (some customer_id) (some email)
    tag ← gets (λ s. standing_of s live.1)
    if holds_standing_grant tag
        then log_event b email canceled_vip
        else revoke_unless_paying email sibling live.1

  -- The same with no address: the records of the customer's invite are still disabled.
  unfoldable pub cancellation_of_nobody : (customer_id : String) → M (Unit {0})
  unfolding resolve_live disable_records pure ◌>>=◌
  cancellation_of_nobody customer_id = do
    live ← resolve_live b (some customer_id) none
    disable_records b live.1
    pure tt

  -- `onSubscriptionDeleted`
  unfoldable pub on_subscription_deleted : Fields → M (Unit {0})
  unfolding required_text payer_email cancellation_of_nobody cancellation_for ◌>>=◌
  on_subscription_deleted obj = do
    customer_id ← required_text "customer" obj
    email ← payer_email b obj (some customer_id)
    given email (cancellation_of_nobody customer_id) (cancellation_for customer_id)
