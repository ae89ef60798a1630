-- ===== src/Invites/Frame.antt =====
-- Which calls issuing, sending and re-scoping make; none touches the processed events.
use wizteros.Common.{
  truthy, ℕ, String, ◌≡◌, refl, Bool, true, false, Option, none, some, List, [], ◌∷◌, arith,
}
use wizteros.Store.{SessionInvite, Store, InviteOperation}
use wizteros.Tiers.{Tier, WizarrLibrary}
use wizteros.Identity.{WizarrUser}
use wizteros.Status.{StripeSubscription}
use wizteros.Bridge.{
  InviteRequest, RetiredSubscription, Alert, Call, creates_invite, disables_user, cancels_now,
  voids_invoice, sends_invite, sends_alert, Bridge, list_libraries, create_invite, disable_user,
  live_sections_or_none, customer_ids_of, subscriptions_for, cancel_now, open_invoice_ids,
  void_invoice, send_invite, send_alert, now,
}
use wizteros.Bridge.Frame.{Stays, Stays-modify, frame_rules, Stays-log_event}
use wizteros.Store.Processed.{
  processed_of, record_event-processed, upsert_pending-processed, upsert_pending_by_email-processed,
  set_payment_state-processed, record_invite_issuance-processed, mark_invite_emailed-processed,
}
use wizteros.Members.Frame.{is_read}
use wizteros.Invites.{
  tier_scope, IssuedInvite, Issue, write_pending, record_pending, bind_code, mark_operation,
  live_scope, mint, code_for, issue_invite, deliver_invite, rescope_records, cancel_one,
  cancel_and_void, report_retired, retire_duplicates,
}

bind_code-processed :
    (o : Option InviteOperation) (reused : Bool) (code : String) (s : Store)
    → processed_of (bind_code o reused code s) ≡ processed_of s
unfolding bind_code
bind_code-processed none reused code s = refl
bind_code-processed (some op) true code s = refl
bind_code-processed (some op) false code s = record_invite_issuance-processed op code s

write_pending-processed :
    (customer_id : Option String) (issue : Issue) (code : String) (at : ℕ) (s : Store)
    → processed_of (write_pending customer_id issue code at s) ≡ processed_of s
unfolding write_pending
write_pending-processed none issue code at s =
    upsert_pending_by_email-processed issue.email code (some issue.tier) at s
write_pending-processed (some id) issue code at s =
    upsert_pending-processed id issue.email code (some issue.tier) at s

record_pending-processed :
    (issue : Issue) (code : String) (at : ℕ) (s : Store)
    → processed_of (record_pending issue code at s) ≡ processed_of s
unfolding record_pending
record_pending-processed issue code at s = ground (
  arith,
  write_pending-processed (truthy issue.customer_id) issue code at s,
  set_payment_state-processed issue.email none
      (write_pending (truthy issue.customer_id) issue code at s),
)

mark_operation-processed :
    (o : Option InviteOperation) (s : Store) → processed_of (mark_operation o s) ≡ processed_of s
unfolding mark_operation
mark_operation-processed none s = refl
mark_operation-processed (some op) s = mark_invite_emailed-processed op s

module _ {may : Call → Bool} (b : Bridge)
    (reads : (c : Call) → is_read c ≡ true → may c ≡ true) where
  tier_scope-Stays :
      (tier : Tier) (libraries : List WizarrLibrary)
      → Stays may processed_of (tier_scope tier libraries)
  unfolding tier_scope
  tier_scope-Stays tier libraries = search frame_rules

  pub live_scope-Stays : (tier : Tier) → Stays may processed_of (live_scope b tier)
  unfolding live_scope list_libraries live_sections_or_none is_read
  live_scope-Stays tier = search (frame_rules, reads, tier_scope-Stays)

  code_for-Stays :
      (creates : (request : InviteRequest) → may (creates_invite request) ≡ true) (issue : Issue)
      (issued : Option SessionInvite)
      → Stays may processed_of (code_for b issue issued)
  unfolding code_for mint create_invite
  code_for-Stays creates issue none = search (frame_rules, creates)
  code_for-Stays creates issue (some row) = search frame_rules

  pub issue_invite-Stays :
      (creates : (request : InviteRequest) → may (creates_invite request) ≡ true) (issue : Issue)
      → Stays may processed_of (issue_invite b issue)
  unfolding issue_invite now is_read
  issue_invite-Stays creates issue =
      search
        (
          frame_rules,
          reads,
          Stays-modify,
          code_for-Stays creates,
          bind_code-processed,
          record_pending-processed,
        )
        depth 12

  pub deliver_invite-Stays :
      (sends : (to url : String) → may (sends_invite to url) ≡ true) (email : String)
      (invite : IssuedInvite)
      → Stays may processed_of (deliver_invite b email invite)
  unfolding deliver_invite send_invite
  deliver_invite-Stays sends email invite =
      search (frame_rules, sends, Stays-modify, mark_operation-processed)

  pub rescope_records-Stays :
      (disables : (id : ℕ) → may (disables_user id) ≡ true) (records : List WizarrUser)
      (covered : List String) (evaluable : Bool)
      → Stays may processed_of (rescope_records b records covered evaluable)
  unfolding rescope_records disable_user
  rescope_records-Stays disables records covered evaluable = search (frame_rules, disables)

  cancel_one-Stays :
      (cancels : (id : String) → may (cancels_now id) ≡ true)
      (voids : (id : String) → may (voids_invoice id) ≡ true) (s : StripeSubscription)
      → Stays may processed_of (cancel_one b s)
  unfolding cancel_one cancel_now open_invoice_ids void_invoice is_read
  cancel_one-Stays cancels voids s = search (frame_rules, reads, cancels, voids) depth 12

  report_retired-Stays :
      (alerts : (a : Alert) → may (sends_alert a) ≡ true) (email under : String)
      (rs : List RetiredSubscription)
      → Stays may processed_of (report_retired b email under rs)
  unfolding report_retired send_alert is_read
  report_retired-Stays alerts email under [] = search frame_rules
  report_retired-Stays alerts email under (r ∷ rs) =
      search (frame_rules, reads, alerts, Stays-log_event, record_event-processed)

  pub retire_duplicates-Stays :
      (cancels : (id : String) → may (cancels_now id) ≡ true)
      (voids : (id : String) → may (voids_invoice id) ≡ true)
      (alerts : (a : Alert) → may (sends_alert a) ≡ true) (email under : String)
      → Stays may processed_of (retire_duplicates b email under)
  unfolding retire_duplicates cancel_and_void customer_ids_of subscriptions_for is_read
  retire_duplicates-Stays cancels voids alerts email under =
      search (frame_rules, reads, cancel_one-Stays cancels voids, report_retired-Stays alerts) depth
        12
