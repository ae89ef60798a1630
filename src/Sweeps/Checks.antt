-- ===== src/Sweeps/Checks.antt =====
-- apps/stripe-bridge/src/sweeps.ts: the three checks, and the sweep of loops.ts that runs them.
use wizteros.Common.{
  if◌then◌else◌, and_then, to_list, is_empty, keep, flat_map, lookup, sorted, String, Bool, true,
  false, ◌&&◌, Option, none, some, List, [], ◌∷◌, map,
}
use wizteros.Standing.{MemberTag, holds_standing_grant, strongest_across}
use wizteros.Status.{PaymentState, past_due, status_rule, status_by_customer}
use wizteros.Tiers.{Tier, ScopeProblem, tier_scope_problems, StaleLibrary, library_cache_problems}
use wizteros.Store.{
  CustomerRow, payment_failed_sweep, payment_recovered, set_payment_state, all_customer_rows,
  all_member_tags,
}
use wizteros.Identity.{IdentitySnapshot}
use wizteros.Bridge.{
  DunningFinding, Alert, dunning_sweep, vips_without_access, tier_scopes, Bridge, M, pure, gets,
  catch, modify, ◌>>=◌, ◌>>◌, map_in_order, given, list_libraries, live_sections_or_none,
  list_subscriptions, send_alert, log_event,
}
use wizteros.Members.{person_at, identity_snapshot, access_line}
use wizteros.Reconcile.{reconcile_pending_expiries}
use wizteros.Sweeps.Alarm.{ChangeAlert, fire}
use wizteros.Sweeps.Problems.{sorted_entries, problem_entries, same_texts, same_entries}

-- A call that throws is answered with none.
unfoldable pub or_none : {A : Type 0} → M A → M (Option A)
unfolding catch pure ◌>>=◌
or_none m = catch (do a ← m; pure (some a)) (λ e. pure none)

-- What Stripe's status says of a row: its status, and the payment state that the row should have.
unfoldable pub row_rule :
    List (String × String) → CustomerRow → Option (String × Option PaymentState)
unfolding lookup status_rule
row_rule by_customer row =
    if row.subscribed
    then and_then row.customer_id (λ id.
      and_then (lookup id by_customer)
        (λ status. and_then (status_rule status) (λ rule. some (status, rule.payment_state))))
    else none

abbrev pub same_state : Option PaymentState → Option PaymentState → Bool
same_state none none = true
same_state (some past_due) (some past_due) = true
same_state _ _ = false

module _ (b : Bridge) where
  -- A row whose payment state changed.
  unfoldable pub mirror_state :
      (email : String)
      → CustomerRow
      → (status : String) → Option PaymentState
      → M (Option DunningFinding)
  unfolding modify set_payment_state log_event access_line pure ◌>>=◌
  mirror_state email row status none = do
    modify (set_payment_state email none)
    log_event b email payment_recovered
    pure none
  mirror_state email row status (some state) = do
    modify (set_payment_state email (some state))
    log_event b email (payment_failed_sweep status)
    line ← access_line b row.customer_id email
    pure (some (record { email = email; status = status; line = line }))

  unfoldable pub check_row :
      List (String × String) → String × CustomerRow → M (Option DunningFinding)
  unfolding row_rule mirror_state pure
  check_row by_customer entry = given (row_rule by_customer entry.1) (pure none) (λ rule.
      if same_state rule.1 entry.1.payment_state
      then pure none
      else mirror_state entry.0 entry.1 rule.0 rule.1)

  unfoldable pub report_findings : List DunningFinding → M (List String)
  unfolding pure send_alert ◌>>=◌
  report_findings [] = pure []
  report_findings (f ∷ fs) =
      send_alert b (dunning_sweep (f ∷ fs)) >> pure (map (λ g. g.email) (f ∷ fs))

  unfoldable pub check_rows : List (String × String) → M (List String)
  unfolding gets all_customer_rows map_in_order check_row report_findings ◌>>=◌
  check_rows by_customer = do
    rows ← gets all_customer_rows
    outcomes ← map_in_order rows (check_row by_customer)
    report_findings (flat_map to_list outcomes)

  -- `checkPaymentStates`
  unfoldable pub check_payment_states : M (List String)
  unfolding or_none list_subscriptions pure check_rows status_by_customer ◌>>=◌
  check_payment_states = do
    listed ← or_none (list_subscriptions b)
    given listed (pure []) (λ subscriptions. check_rows (status_by_customer subscriptions))

-- The addresses tagged as VIPs, in text order.
unfoldable pub vips_of : List (String × MemberTag) → List String
unfolding sorted holds_standing_grant
vips_of tags = sorted (map (λ t. t.0) (keep (λ t. holds_standing_grant (some t.1)) tags))

-- The VIPs whose person holds no record, unless a ban outranks the tag.
unfoldable pub stranded_vips :
    IdentitySnapshot → List (String × MemberTag) → List String → List String
unfolding person_at strongest_across holds_standing_grant
stranded_vips snapshot tags vips =
    keep
      (λ email.
        let identity = person_at snapshot email in
        holds_standing_grant (strongest_across tags identity.addresses)
        && is_empty identity.records)
      vips

module _ {A K : Type 0} (b : Bridge) (same : K → K → Bool) (key : List A → K) where
  -- A check's last step: what was found, and the alarm afterwards. Nothing found clears it.
  unfoldable pub report_found :
      ChangeAlert K → (found : List A) → Alert → M (List A × ChangeAlert K)
  unfolding pure fire ◌>>=◌
  report_found alarm [] alert = pure ([], none)
  report_found alarm (x ∷ xs) alert = do
    after ← fire same b alarm (key (x ∷ xs)) alert
    pure (x ∷ xs, after)

module _ (b : Bridge) where
  unfoldable pub report_stranded :
      ChangeAlert (List String) → List String → M (List String × ChangeAlert (List String))
  unfolding report_found same_texts
  report_stranded alarm vs = report_found b same_texts (λ v. v) alarm vs (vips_without_access vs)

  unfoldable pub check_vips :
      ChangeAlert (List String)
      → List (String × MemberTag)
      → List String
      → M (List String × ChangeAlert (List String))
  unfolding pure or_none identity_snapshot stranded_vips report_stranded ◌>>=◌
  check_vips alarm tags [] = pure ([], none)
  check_vips alarm tags (v ∷ vs) = do
    seen ← or_none (identity_snapshot b)
    given seen (pure ([], alarm))
        (λ snapshot. report_stranded alarm (stranded_vips snapshot tags (v ∷ vs)))

  -- `checkVipAccess`
  unfoldable pub check_vip_access :
      ChangeAlert (List String) → M (List String × ChangeAlert (List String))
  unfolding gets all_member_tags vips_of check_vips ◌>>=◌
  check_vip_access alarm = do tags ← gets all_member_tags; check_vips alarm tags (vips_of tags)

  unfoldable pub report_problems :
      ChangeAlert (List (String × String))
      → List (Tier × ScopeProblem)
      → List (String × List StaleLibrary)
      → M (List (String × String) × ChangeAlert (List (String × String)))
  unfolding problem_entries report_found sorted_entries same_entries
  report_problems alarm scopes caches =
      report_found b same_entries sorted_entries alarm (problem_entries scopes caches)
        (tier_scopes scopes caches)

  -- `checkTierScopes`
  unfoldable pub check_tier_scopes :
      ChangeAlert (List (String × String))
      → M (List (String × String) × ChangeAlert (List (String × String)))
  unfolding or_none list_libraries pure live_sections_or_none report_problems tier_scope_problems
      library_cache_problems ◌>>=◌
  check_tier_scopes alarm = do
    listed ← or_none (list_libraries b)
    given listed (pure ([], alarm)) (λ libraries. do
      live ← live_sections_or_none b
      report_problems alarm (tier_scope_problems libraries) (library_cache_problems libraries live))

-- `SweepAlerts`
pub record SweepAlerts : Type 0 where
  pub tier_scope : ChangeAlert (List (String × String))
  pub vip_access : ChangeAlert (List String)

-- `sweepAlerts`
abbrev pub sweep_alerts : SweepAlerts
sweep_alerts = record { tier_scope = none; vip_access = none }

module _ (b : Bridge) where
  -- `reconcileOnce`, each job guarded: the alarms afterwards
  unfoldable pub reconcile_once : SweepAlerts → M SweepAlerts
  unfolding or_none check_tier_scopes check_vip_access check_payment_states
      reconcile_pending_expiries pure ◌>>=◌
  reconcile_once alerts = do
    scopes ← or_none (check_tier_scopes b alerts.tier_scope)
    vips ← or_none (check_vip_access b alerts.vip_access)
    or_none (check_payment_states b)
    or_none (reconcile_pending_expiries b)
    pure (record {
      tier_scope = elim scopes [ none ↦ alerts.tier_scope | some r ↦ r.1 ];
      vip_access = elim vips [ none ↦ alerts.vip_access | some r ↦ r.1 ];
    })
