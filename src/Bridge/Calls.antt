-- ===== src/Bridge/Calls.antt =====
-- One action for each operation of the service ports in types.ts, and of the store's event log.
use wizteros.Common.{ℕ, ◌+◌, ◌*◌, String, Option, some, List}
use wizteros.Status.{StripeSubscription}
use wizteros.Tiers.{WizarrLibrary, LiveSections}
use wizteros.Store.{Entry, record_event}
use wizteros.Identity.{WizarrUser, WizarrInvitation}
use wizteros.Bridge.Types.{
  InviteRequest, Alert, lists_libraries, lists_users, lists_invitations, creates_invite,
  deletes_invitation, finds_users, sets_expiry, disables_user, reads_live_sections,
  asks_customer_email, asks_customer_ids, asks_subscriptions, lists_subscriptions,
  cancels_at_period_end, cancels_now, asks_open_invoices, voids_invoice, sends_invite, sends_alert,
  sends_payment_failed, reads_clock, Bridge,
}
use wizteros.Bridge.Run.{M, perform, modify, ◌>>=◌}

module _ (b : Bridge) where
  unfoldable pub list_libraries : M (List WizarrLibrary)
  unfolding perform
  list_libraries = perform lists_libraries b.libraries

  unfoldable pub list_users : M (List WizarrUser)
  unfolding perform
  list_users = perform lists_users b.users

  unfoldable pub list_invitations : M (List WizarrInvitation)
  unfolding perform
  list_invitations = perform lists_invitations b.invitations

  -- The code of the invite created.
  unfoldable pub create_invite : InviteRequest → M String
  unfolding perform
  create_invite request = perform (creates_invite request) (b.created_code request)

  unfoldable pub delete_invitation : ℕ → M (Unit {0})
  unfolding perform
  delete_invitation id = perform (deletes_invitation id) (b.deleted id)

  unfoldable pub find_users_by_email : String → M (List WizarrUser)
  unfolding perform
  find_users_by_email email = perform (finds_users email) (b.users_found email)

  unfoldable pub set_expiry : ℕ → Option ℕ → M (Unit {0})
  unfolding perform
  set_expiry user_id expires = perform (sets_expiry user_id expires) (b.expiry_set user_id)

  unfoldable pub disable_user : ℕ → M (Unit {0})
  unfolding perform
  disable_user user_id = perform (disables_user user_id) (b.disabled user_id)

  unfoldable pub live_sections_or_none : M (Option LiveSections)
  unfolding perform
  live_sections_or_none = perform reads_live_sections (λ t. some (b.live_sections t))

  unfoldable pub customer_email_of : String → M (Option String)
  unfolding perform
  customer_email_of id = perform (asks_customer_email id) (b.customer_email id)

  unfoldable pub customer_ids_of : String → M (List String)
  unfolding perform
  customer_ids_of email = perform (asks_customer_ids email) (b.customer_ids email)

  unfoldable pub subscriptions_for : String → M (List StripeSubscription)
  unfolding perform
  subscriptions_for customer = perform (asks_subscriptions customer) (b.subscriptions customer)

  unfoldable pub list_subscriptions : M (List StripeSubscription)
  unfolding perform
  list_subscriptions = perform lists_subscriptions b.all_subscriptions

  unfoldable pub cancel_at_period_end : String → M StripeSubscription
  unfolding perform
  cancel_at_period_end id = perform (cancels_at_period_end id) (b.flagged id)

  unfoldable pub cancel_now : String → M (Unit {0})
  unfolding perform
  cancel_now id = perform (cancels_now id) (b.canceled id)

  unfoldable pub open_invoice_ids : String → M (List String)
  unfolding perform
  open_invoice_ids id = perform (asks_open_invoices id) (b.open_invoices id)

  unfoldable pub void_invoice : String → M (Unit {0})
  unfolding perform
  void_invoice id = perform (voids_invoice id) (b.voided id)

  unfoldable pub send_invite : (to invite_url : String) → M (Unit {0})
  unfolding perform
  send_invite to url = perform (sends_invite to url) b.invite_mailed

  -- Never throws.
  unfoldable pub send_alert : Alert → M (Unit {0})
  unfolding perform
  send_alert alert = perform (sends_alert alert) (λ _. some tt)

  -- Never throws.
  unfoldable pub send_payment_failed : (to portal_url : String) → M (Unit {0})
  unfolding perform
  send_payment_failed to url = perform (sends_payment_failed to url) (λ _. some tt)

  -- `new Date()`
  unfoldable pub now : M ℕ
  unfolding perform
  now = perform reads_clock (λ t. some (b.clock t))

  -- `store.recordEvent`, which stamps the instant of the call
  unfoldable pub log_event : (email : String) → Entry → M (Unit {0})
  unfolding now modify record_event ◌>>=◌
  log_event email entry = do at ← now; modify (record_event at email entry)

-- `addDays`, on milliseconds
abbrev pub add_days : ℕ → ℕ → ℕ
add_days at days = at + days * 86_400_000
