-- ===== src/Webhook/Revocations.antt =====
-- What a failed charge and a changed or ended subscription may do to the services, whatever they
-- answer and whatever the event holds.
use wizteros.Common.{String, ◌≡◌, refl, false, Option, none, some}
use wizteros.Bridge.{Bridge, send_alert, send_payment_failed}
use wizteros.Members.Frame.{is_read, access_line-Stays, live_sibling_customer-Stays}
use wizteros.Json.{Fields}
use wizteros.Status.{StatusRule}
use wizteros.Store.{Store}
use wizteros.Bridge.Frame.{Stays, Stays-modify, frame_rules}
use wizteros.Store.Processed.{processed_of, set_payment_state-processed, set_subscribed-processed}
use wizteros.Invites.Frame.{retire_duplicates-Stays}
use wizteros.Webhook.Frame.{
  required_text-Stays, payer_email-Stays, resolve_live-Stays, disable_records-Stays, logs-Stays,
}
use wizteros.Webhook.Dunning.{
  paying_sibling, retire_declined, notify_payer, flag_past_due, failed_charge, on_payment_failed,
  mirror_status, on_subscription_updated, stop_paying, disable_all, revoke_unless_paying,
  cancellation_for, cancellation_of_nobody, on_subscription_deleted,
}
use wizteros.Webhook.Bounds.{may_dun, may_disable, reads_dun, reads_disable}

module _ (b : Bridge) where
  notify_payer-Stays :
      (email : String) (portal : Option String)
      → Stays may_dun processed_of (notify_payer b email portal)
  unfolding notify_payer send_payment_failed may_dun
  notify_payer-Stays email none = search frame_rules
  notify_payer-Stays email (some url) = search frame_rules

  failed_charge-Stays :
      (obj : Fields) (customer_id : Option String) (email : String)
      → Stays may_dun processed_of (failed_charge b obj customer_id email)
  unfolding failed_charge paying_sibling retire_declined flag_past_due send_alert may_dun
  failed_charge-Stays obj customer_id email =
      search
        (
          frame_rules,
          live_sibling_customer-Stays b reads_dun,
          Stays-modify,
          logs-Stays b reads_dun,
          set_payment_state-processed,
          access_line-Stays b reads_dun,
          notify_payer-Stays,
          retire_duplicates-Stays b reads_dun (λ id. refl) (λ id. refl) (λ a. refl),
        )
        depth 16

  -- Whatever the invoice holds and the services answer, a failed charge makes reads, cancels
  -- subscriptions, voids invoices and mails, and makes no other call: it stamps and disables no
  -- record and mints no invite. The table of processed events stays as it was, whether it returns
  -- or throws.
  pub on_payment_failed-Stays :
      (obj : Fields) → Stays may_dun processed_of (on_payment_failed b obj)
  unfolding on_payment_failed
  on_payment_failed-Stays obj =
      search (frame_rules, payer_email-Stays b reads_dun, failed_charge-Stays) depth 12

  mirror_status-Stays :
      (rule : Option StatusRule) (email : String)
      → Stays is_read processed_of (mirror_status b rule email)
  unfolding mirror_status
  mirror_status-Stays none email = search frame_rules
  mirror_status-Stays (some rule) email = search (Stays-modify, set_payment_state-processed)

  -- Whatever the subscription holds and the services answer, a changed subscription makes reads
  -- alone, and the table of processed events stays as it was, whether it returns or throws.
  pub on_subscription_updated-Stays :
      (obj : Fields) → Stays is_read processed_of (on_subscription_updated b obj)
  unfolding on_subscription_updated
  on_subscription_updated-Stays obj =
      search (frame_rules, payer_email-Stays b (λ c h. h), mirror_status-Stays) depth 12

  pub stop_paying-processed :
      (email : String) (sibling : Option String) (s : Store)
      → processed_of (stop_paying b email sibling s) ≡ processed_of s
  unfolding stop_paying
  stop_paying-processed email none s = set_subscribed-processed email false s
  stop_paying-processed email (some sibling) s = set_payment_state-processed email none s

  cancellation_for-Stays :
      (customer_id email : String)
      → Stays may_disable processed_of (cancellation_for b customer_id email)
  unfolding cancellation_for revoke_unless_paying disable_all paying_sibling may_disable
  cancellation_for-Stays customer_id email =
      search
        (
          frame_rules,
          live_sibling_customer-Stays b reads_disable,
          Stays-modify,
          stop_paying-processed,
          resolve_live-Stays b reads_disable,
          logs-Stays b reads_disable,
          disable_records-Stays {may = may_disable} {view = processed_of} b (λ id. refl),
        )
        depth 20

  -- Whatever the subscription holds and the services answer, an ended subscription makes reads and
  -- disables records, and makes no other call. The table of processed events stays as it was,
  -- whether it returns or throws.
  pub on_subscription_deleted-Stays :
      (obj : Fields) → Stays may_disable processed_of (on_subscription_deleted b obj)
  unfolding on_subscription_deleted cancellation_of_nobody may_disable
  on_subscription_deleted-Stays obj =
      search
        (
          frame_rules,
          required_text-Stays,
          payer_email-Stays b reads_disable,
          resolve_live-Stays b reads_disable,
          disable_records-Stays {may = may_disable} {view = processed_of} b (λ id. refl),
          cancellation_for-Stays,
        )
        depth 16
