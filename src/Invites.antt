-- ===== src/Invites.antt =====
-- apps/stripe-bridge/src/invites.ts and duplicates.ts: how an invite is scoped, minted and sent, and
-- how a duplicate subscription is retired.
pub mod Frame
pub mod Once
pub mod Spares
pub mod Rescope
use Prim.Native.String.{◌++◌ as append_text}
use wizteros.Common.{
  if◌then◌else◌, or_else, is_some, and_then, is_empty, keep, flat_map, contains_id, truthy, ℕ,
  String, Bool, true, false, not, Option, none, some, List, [], ◌∷◌, map, ◌==◌,
}
use wizteros.Status.{StripeSubscription, is_dunning_status}
use wizteros.Tiers.{
  Tier, WizarrLibrary, TierScope, resolve_tier_access, without_stale, stale_record_ids,
}
use wizteros.Store.{
  duplicate_cancelled, SessionInvite, Store, upsert_pending, upsert_pending_by_email,
  set_payment_state, InviteOperation, get_invite_issuance, record_invite_issuance,
  mark_invite_emailed,
}
use wizteros.Identity.{WizarrUser, server_record}
use wizteros.Bridge.{
  InviteRequest, RetiredSubscription, duplicates_retired, Settings, Bridge, tier_scope_empty, M,
  pure, raise, gets, catch, modify, ◌>>=◌, ◌>>◌, each_in_order, map_in_order, given, list_libraries,
  create_invite, disable_user, live_sections_or_none, customer_ids_of, subscriptions_for,
  cancel_now, open_invoice_ids, void_invoice, send_invite, send_alert, now, log_event,
}

-- `tierScope`
unfoldable pub tier_scope : Tier → List WizarrLibrary → M TierScope
unfolding resolve_tier_access pure raise
tier_scope tier libraries =
    let access = resolve_tier_access tier libraries in
    if is_empty access.library_ids then raise tier_scope_empty else pure access

-- `IssuedInvite`
pub record IssuedInvite : Type 0 where
  pub code : String
  pub url : String
  pub scope : TierScope
  pub emailed : Bool
  pub operation : Option InviteOperation

-- What `issueInvite` is asked for.
pub record Issue : Type 0 where
  pub email : String
  pub tier : Tier
  pub scope : TierScope
  pub customer_id : Option String
  pub allow_downloads : Option Bool
  pub operation : Option InviteOperation
  pub settles_payment : Bool

unfoldable pub invite_url : Settings → String → String
invite_url settings code = append_text settings.public_invite_base (append_text "/j/" code)

-- The arguments that `mint` calls `createInvite` with.
unfoldable pub invite_request :
    TierScope → Option Bool → (expires_in_days access_days : ℕ) → Bool → InviteRequest
invite_request scope allow_downloads expires_in_days access_days unlimited = record {
  server_ids = scope.server_ids;
  expires_in_days = expires_in_days;
  duration = access_days;
  library_ids = scope.library_ids;
  allow_downloads = or_else allow_downloads scope.allow_downloads;
  unlimited = unlimited;
}

-- The pending row, by the Stripe customer when there is one, else by the address.
unfoldable pub write_pending :
    (customer_id : Option String) → Issue → (code : String) → (at : ℕ) → Store → Store
unfolding upsert_pending upsert_pending_by_email
write_pending (some id) issue code at = upsert_pending id issue.email code (some issue.tier) at
write_pending none issue code at = upsert_pending_by_email issue.email code (some issue.tier) at

-- The transaction of `issueInvite`, at the instant `at`.
unfoldable pub record_pending : Issue → (code : String) → (at : ℕ) → Store → Store
unfolding write_pending set_payment_state
record_pending issue code at s =
    if issue.settles_payment
    then set_payment_state issue.email none
        (write_pending (truthy issue.customer_id) issue code at s)
    else write_pending (truthy issue.customer_id) issue code at s

-- Binds the code to the operation, unless it was bound before.
unfoldable pub bind_code : Option InviteOperation → Bool → (code : String) → Store → Store
unfolding record_invite_issuance
bind_code none reused code s = s
bind_code (some operation) reused code s =
    if reused then s else record_invite_issuance operation code s

-- What is recorded for the operation, if there is one.
unfoldable pub issuance_of : Option InviteOperation → Store → Option SessionInvite
unfolding get_invite_issuance
issuance_of operation s = and_then operation (λ o. get_invite_issuance o s)

unfoldable pub mark_operation : Option InviteOperation → Store → Store
unfolding mark_invite_emailed
mark_operation none s = s
mark_operation (some operation) s = mark_invite_emailed operation s

-- Every record, or no record, when coverage can be judged.
unfoldable pub to_disable : List WizarrUser → (covered_servers : List String) → Bool → List ℕ
unfolding stale_record_ids
to_disable records covered_servers evaluable =
    if evaluable
    then stale_record_ids (map server_record records) covered_servers
    else map (λ r. r.id) records

module _ (b : Bridge) where
  -- `liveScope`: stale rows are dropped first
  unfoldable pub live_scope : Tier → M TierScope
  unfolding list_libraries live_sections_or_none tier_scope without_stale ◌>>=◌
  live_scope tier = do
    libraries ← list_libraries b
    live ← live_sections_or_none b
    tier_scope tier (without_stale libraries live)

  unfoldable pub mint : TierScope → Option Bool → (expires_in_days : ℕ) → Bool → M String
  unfolding create_invite invite_request
  mint scope allow_downloads expires_in_days unlimited =
      create_invite b
        (invite_request scope allow_downloads expires_in_days b.settings.access_days unlimited)

  -- The code recorded for the operation, or a new one.
  unfoldable pub code_for : Issue → Option SessionInvite → M String
  unfolding pure mint
  code_for issue (some issued) = pure issued.invite_code
  code_for issue none = mint issue.scope issue.allow_downloads b.settings.invite_days false

  -- `issueInvite`
  unfoldable pub issue_invite : Issue → M IssuedInvite
  unfolding gets modify pure issuance_of code_for bind_code now record_pending invite_url ◌>>=◌
  issue_invite issue = do
    issued ← gets (issuance_of issue.operation)
    code ← code_for issue issued
    modify (bind_code issue.operation (is_some issued) code)
    at ← now b
    modify (record_pending issue code at)
    pure (record {
      code = code;
      url = invite_url b.settings code;
      scope = issue.scope;
      emailed = elim issued [ none ↦ false | some row ↦ row.emailed ];
      operation = issue.operation;
    })

  -- `deliverInvite`: true when the link was sent
  unfoldable pub deliver_invite : (email : String) → IssuedInvite → M Bool
  unfolding pure modify send_invite mark_operation ◌>>=◌
  deliver_invite email invite =
      if invite.emailed
      then pure false
      else do send_invite b email invite.url; modify (mark_operation invite.operation); pure true

  -- `rescopeRecords`: the ids disabled, and the records left
  unfoldable pub rescope_records :
      List WizarrUser
      → (covered_servers : List String) → (evaluable : Bool) → M (List ℕ × List WizarrUser)
  unfolding to_disable each_in_order disable_user pure ◌>>=◌
  rescope_records records covered_servers evaluable = do
    let disabled = to_disable records covered_servers evaluable
    each_in_order disabled (disable_user b)
    pure (disabled, keep (λ r. not (contains_id disabled r.id)) records)

-- `Retirement`
pub data Retirement : Type 0 where
  retired : List RetiredSubscription → Retirement
  nothing_to_retire retire_failed : Retirement

module _ (b : Bridge) where
  unfoldable pub cancel_one : StripeSubscription → M RetiredSubscription
  unfolding cancel_now open_invoice_ids void_invoice map_in_order pure ◌>>=◌
  cancel_one s = do
    cancel_now b s.id
    invoices ← open_invoice_ids b s.id
    map_in_order invoices (void_invoice b)
    pure (record { subscription = s.id; customer = s.customer; invoices = invoices })

  -- `cancelAndVoid`: the dunning subscriptions of the address's other customers
  unfoldable pub cancel_and_void : (email paying_under : String) → M (List RetiredSubscription)
  unfolding customer_ids_of subscriptions_for is_dunning_status map_in_order cancel_one ◌>>=◌
  cancel_and_void email paying_under = do
    customers ← customer_ids_of b email
    holdings ← map_in_order (keep (λ c. not (c == paying_under)) customers) (subscriptions_for b)
    map_in_order (keep (λ s. is_dunning_status s.status) (flat_map (λ s. s) holdings)) cancel_one

  -- What is told of a retirement that cancelled something.
  unfoldable pub report_retired :
      (email paying_under : String) → List RetiredSubscription → M Retirement
  unfolding log_event send_alert pure ◌>>=◌
  report_retired email paying_under [] = pure nothing_to_retire
  report_retired email paying_under (r ∷ rs) = do
    log_event b email (duplicate_cancelled (map (λ r. r.subscription) (r ∷ rs)) paying_under)
    send_alert b (duplicates_retired email paying_under (r ∷ rs))
    pure (retired (r ∷ rs))

  -- `retireDuplicates`, which does not throw
  unfoldable pub retire_duplicates : (email paying_under : String) → M Retirement
  unfolding cancel_and_void report_retired catch pure ◌>>=◌
  retire_duplicates email paying_under = do
    cancelled ← catch (do rs ← cancel_and_void email paying_under; pure (some rs)) (λ e. pure none)
    given cancelled (pure retire_failed) (report_retired email paying_under)
