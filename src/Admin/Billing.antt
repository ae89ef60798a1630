-- ===== src/Admin/Billing.antt =====
-- admin/billing.ts: flagging every live subscription of a person to cancel at its period's end.
use wizteros.Common.{
  ltb, nat_eq, if◌then◌else◌, or_else, is_some, to_list, length, is_empty, keep, flat_map, reduce,
  distinct, ℕ, ◌+◌, ◌*◌, String, Bool, not, Option, none, some, List, [], ◌∷◌,
}
use wizteros.Status.{StripeSubscription}
use wizteros.Store.{
  BillingLine, by_hand, some_failed, no_subscription, scheduled_somewhen, stops,
  customer_ids_for_email,
}
use wizteros.Bridge.{
  Bridge, M, pure, gets, catch, ◌>>=◌, map_in_order, given, customer_ids_of, subscriptions_for,
  cancel_at_period_end,
}

-- `Flagged`
pub record Flagged : Type 0 where
  pub found : Bool
  pub flagged : List StripeSubscription
  pub already : List StripeSubscription
  pub failures : ℕ

-- `attempt`: none when the call throws
unfoldable pub attempt : {A : Type 0} → M A → M (Option A)
unfolding catch pure ◌>>=◌
attempt run = catch (do a ← run; pure (some a)) (λ e. pure none)

abbrev later_cancel : ℕ → StripeSubscription → ℕ
later_cancel latest s = let at = or_else s.cancel_at 0 in if ltb latest at then at else latest

-- The instant of a number of epoch seconds: the epoch begins 719,162 days after year 1 does.
abbrev pub epoch_instant : ℕ → ℕ
epoch_instant seconds = 62_135_596_800_000 + seconds * 1_000

-- `cancelAtOf`: the latest scheduled cancellation
unfoldable pub cancel_at_of : List StripeSubscription → Option ℕ
cancel_at_of subscriptions =
    let latest = reduce later_cancel 0 subscriptions in
    if nat_eq latest 0 then none else some (epoch_instant latest)

-- What one customer's subscriptions came to.
pub record CustomerOutcome : Type 0 where
  pub flagged : List StripeSubscription
  pub already : List StripeSubscription
  pub failures : ℕ

unfoldable pub outcome_of :
    List StripeSubscription → List (Option StripeSubscription) → CustomerOutcome
outcome_of already results = record {
  flagged = flat_map to_list results;
  already = already;
  failures = length (keep (λ r. not (is_some r)) results);
}

abbrev pub add_failures : ℕ → CustomerOutcome → ℕ
add_failures total outcome = total + outcome.failures

unfoldable pub flagged_of : List (Option (List String)) → List CustomerOutcome → Flagged
unfolding distinct
flagged_of per_address outcomes = record {
  found = not (is_empty (distinct (flat_map (λ ids. or_else ids []) per_address)));
  flagged = flat_map (λ o. o.flagged) outcomes;
  already = flat_map (λ o. o.already) outcomes;
  failures = length (keep (λ ids. not (is_some ids)) per_address) + reduce add_failures 0 outcomes;
}

module _ (b : Bridge) where
  -- The customers of one address: those of the store, and else those that Stripe finds.
  unfoldable pub ask_customers : (address : String) → List String → M (Option (List String))
  unfolding attempt customer_ids_of pure
  ask_customers address [] = attempt (customer_ids_of b address)
  ask_customers address (id ∷ ids) = pure (some (id ∷ ids))

  unfoldable pub customers_at : (address : String) → M (Option (List String))
  unfolding gets customer_ids_for_email ask_customers ◌>>=◌
  customers_at address = do
    mapped ← gets (customer_ids_for_email address)
    ask_customers address mapped

  -- The subscriptions that are not flagged yet are flagged, each on its own.
  unfoldable pub flag_each : List StripeSubscription → M CustomerOutcome
  unfolding map_in_order attempt cancel_at_period_end pure outcome_of ◌>>=◌
  flag_each subscriptions = do
    results ←
        map_in_order (keep (λ s. not s.cancel_at_period_end) subscriptions)
          (λ s. attempt (cancel_at_period_end b s.id))
    pure (outcome_of (keep (λ s. s.cancel_at_period_end) subscriptions) results)

  -- One customer; a failure to list its subscriptions counts as one.
  unfoldable pub flag_customer : (customer_id : String) → M CustomerOutcome
  unfolding attempt subscriptions_for pure flag_each ◌>>=◌
  flag_customer customer_id = do
    listed ← attempt (subscriptions_for b customer_id)
    given listed (pure (record { flagged = []; already = []; failures = 1 })) flag_each

  -- `flagSubscriptions`
  unfoldable pub flag_subscriptions : (addresses : List String) → M Flagged
  unfolding map_in_order customers_at distinct flag_customer flagged_of pure ◌>>=◌
  flag_subscriptions addresses = do
    per_address ← map_in_order addresses customers_at
    outcomes ← map_in_order (distinct (flat_map (λ ids. or_else ids []) per_address)) flag_customer
    pure (flagged_of per_address outcomes)

pub data BillingStatus : Type 0 where
  partial failed scheduled already_scheduled absent : BillingStatus

-- `banBillingOutcome`: the status of it
unfoldable pub billing_status : Flagged → BillingStatus
billing_status f =
    if ltb 0 f.failures
    then (if ltb 0 (length f.flagged + length f.already) then partial else failed)
    else if not (is_empty f.flagged)
    then scheduled
    else if not (is_empty f.already)
    then already_scheduled
    else absent

-- `banBillingLine`
unfoldable pub ban_billing_line : BillingStatus → (cancel_at : Option ℕ) → BillingLine
ban_billing_line failed at = by_hand
ban_billing_line partial at = some_failed
ban_billing_line absent at = no_subscription
ban_billing_line _ none = scheduled_somewhen
ban_billing_line _ (some at) = stops at
