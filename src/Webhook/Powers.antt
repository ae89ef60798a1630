-- ===== src/Webhook/Powers.antt =====
-- What a checkout and a paid invoice may do to the services, whatever they answer and whatever the
-- event holds.
use wizteros.Common.{ℕ, String, refl, Bool, true, false, Option, none, some, List, [], ◌∷◌}
use wizteros.Bridge.{Call, Bridge, send_alert}
use wizteros.Json.{Fields}
use wizteros.Standing.{MemberTag}
use wizteros.Tiers.{Tier}
use wizteros.Identity.{IdentitySnapshot}
use wizteros.Bridge.Frame.{Stays, Stays-modify, frame_rules}
use wizteros.Store.Processed.{processed_of, set_payment_state-processed, set_subscribed-processed}
use wizteros.Invites.{Retirement, retired, nothing_to_retire, retire_failed}
use wizteros.Invites.Frame.{
  live_scope-Stays, issue_invite-Stays, deliver_invite-Stays, retire_duplicates-Stays,
}
use wizteros.Webhook.Payer.{resolve_tier_scope}
use wizteros.Webhook.Frame.{
  required_text-Stays, payer_email-Stays, resolve_live-Stays, renew_records-Stays, logs-Stays,
  restore_access-Stays, block_banned_checkout-Stays, reset_existing_records-Stays,
}
use wizteros.Webhook.Handlers.{
  report_signup, report_not_retired, retire_after_checkout, complete_checkout, checkout_for,
  on_checkout_completed, after_renewal, renew, renewal_for, renewal_of_nobody, settle,
  on_invoice_paid,
}
use wizteros.Webhook.Bounds.{may_renew, may_check_out, reads_renew, reads_check_out}

module _ (b : Bridge) where
  report_signup-Stays :
      (obj : Fields) (email : String) (tier : Tier) (customer_id : Option String) (url : String)
      (delivered : Bool)
      → Stays may_check_out processed_of (report_signup b obj email tier customer_id url delivered)
  unfolding report_signup send_alert may_check_out
  report_signup-Stays obj email tier customer_id url true =
      search (frame_rules, logs-Stays b reads_check_out)
  report_signup-Stays obj email tier customer_id url false = search frame_rules

  report_not_retired-Stays :
      (email under : String) (r : Retirement)
      → Stays may_check_out processed_of (report_not_retired b email under r)
  unfolding report_not_retired send_alert may_check_out
  report_not_retired-Stays email under (retired rs) = search frame_rules
  report_not_retired-Stays email under nothing_to_retire = search frame_rules
  report_not_retired-Stays email under retire_failed = search frame_rules

  retire_after_checkout-Stays :
      (email : String) (customer_id : Option String)
      → Stays may_check_out processed_of (retire_after_checkout b email customer_id)
  unfolding retire_after_checkout may_check_out
  retire_after_checkout-Stays email none = search frame_rules
  retire_after_checkout-Stays email (some id) = search (
    frame_rules,
    report_not_retired-Stays,
    retire_duplicates-Stays b reads_check_out (λ id. refl) (λ id. refl) (λ a. refl),
  )

  complete_checkout-Stays :
      (obj : Fields) (email : String) (tier : Tier) (customer_id : Option String)
      (snapshot : IdentitySnapshot) (tag : Option MemberTag)
      → Stays may_check_out processed_of
          (complete_checkout b obj email tier customer_id snapshot tag)
  unfolding complete_checkout resolve_tier_scope may_check_out
  complete_checkout-Stays obj email tier customer_id snapshot tag =
      search
        (
          frame_rules,
          live_scope-Stays b reads_check_out,
          report_signup-Stays,
          issue_invite-Stays b reads_check_out (λ r. refl),
          retire_after_checkout-Stays,
          deliver_invite-Stays b reads_check_out (λ to url. refl),
          reset_existing_records-Stays b reads_check_out (λ id. refl) (λ id e. refl),
        )
        depth 16

  -- Whatever the session holds and the services answer, a checkout deletes no invitation, cancels no
  -- subscription at its period's end and mails no dunning notice, and the table of processed events
  -- stays as it was, whether the checkout returns or throws.
  pub on_checkout_completed-Stays :
      (obj : Fields) → Stays may_check_out processed_of (on_checkout_completed b obj)
  unfolding on_checkout_completed checkout_for may_check_out
  on_checkout_completed-Stays obj =
      search
        (
          frame_rules,
          payer_email-Stays b reads_check_out,
          resolve_live-Stays b reads_check_out,
          block_banned_checkout-Stays b reads_check_out (λ a. refl),
          complete_checkout-Stays,
        )
        depth 16

  after_renewal-Stays :
      (obj : Fields) (email customer_id : String) (renewed : List ℕ × ℕ)
      → Stays may_renew processed_of (after_renewal b obj email customer_id renewed)
  unfolding after_renewal may_renew
  after_renewal-Stays obj email customer_id (id ∷ ids, expires) = search (logs-Stays b reads_renew)
  after_renewal-Stays obj email customer_id ([], expires) =
      search
        (
          frame_rules,
          required_text-Stays,
          restore_access-Stays b reads_renew (λ r. refl) (λ to url. refl) (λ a. refl),
        )
        depth 12

  settle-Stays :
      {may : Call → Bool} (email : Option String) → Stays may processed_of (settle b email)
  unfolding settle
  settle-Stays none = search frame_rules
  settle-Stays (some email) = search (Stays-modify, set_payment_state-processed)

  renewal_for-Stays :
      (obj : Fields) (email customer_id : String)
      → Stays may_renew processed_of (renewal_for b obj email customer_id)
  unfolding renewal_for renew may_renew
  renewal_for-Stays obj email customer_id =
      search
        (
          frame_rules,
          resolve_live-Stays b reads_renew,
          logs-Stays b reads_renew,
          Stays-modify,
          set_subscribed-processed,
          renew_records-Stays b reads_renew (λ id e. refl),
          after_renewal-Stays,
        )
        depth 16

  -- Whatever the invoice holds and the services answer, a paid invoice makes reads, stamps expiries,
  -- mints and mails invites and alerts, and makes no other call: it disables no record and cancels
  -- nothing. The table of processed events stays as it was, whether it returns or throws.
  pub on_invoice_paid-Stays : (obj : Fields) → Stays may_renew processed_of (on_invoice_paid b obj)
  unfolding on_invoice_paid renewal_of_nobody may_renew
  on_invoice_paid-Stays obj =
      search
        (
          frame_rules,
          required_text-Stays,
          payer_email-Stays b reads_renew,
          settle-Stays,
          resolve_live-Stays b reads_renew,
          renew_records-Stays b reads_renew (λ id e. refl),
          renewal_for-Stays,
        )
        depth 16
