-- ===== src/Status.antt =====
-- apps/stripe-bridge/src/subscriptionStatus.ts: what a Stripe subscription status means.
pub mod Best
use wizteros.Common.{
  ltb, if◌then◌else◌, keep, flat_map, reduce, distinct, from_entries, text_or_empty, ℕ, String,
  Bool, true, false, ◌||◌, Option, none, some, List, [], ◌∷◌, map, ◌==◌,
}

pub data PaymentState : Type 0 where
  past_due : PaymentState

pub record StatusRule : Type 0 where
  pub live : Bool
  pub rank : ℕ
  pub payment_state : Option PaymentState

-- The subscription fields the bridge reads; `cancel_at` in epoch seconds.
pub record StripeSubscription : Type 0 where
  pub id : String
  pub customer : String
  pub status : String
  pub cancel_at_period_end : Bool
  pub cancel_at : Option ℕ

abbrev paying_rule : StatusRule
paying_rule = record { live = true; rank = 2; payment_state = none }

abbrev dunning_rule : StatusRule
dunning_rule = record { live = false; rank = 1; payment_state = some past_due }

-- `STATUS_RULES.get(status)`
unfoldable pub status_rule : String → Option StatusRule
status_rule status =
    if status == "active" || status == "trialing"
    then some paying_rule
    else if status == "past_due" || status == "unpaid"
    then some dunning_rule
    else none

unfoldable pub is_live_status : String → Bool
unfolding status_rule
is_live_status status = elim (status_rule status) [ none ↦ false | some rule ↦ rule.live ]

abbrev pub is_past_due : Option PaymentState → Bool
is_past_due none = false
is_past_due (some past_due) = true

unfoldable pub is_dunning_status : String → Bool
unfolding status_rule
is_dunning_status status = elim (status_rule status) [
  | none ↦ false
  | some rule ↦ is_past_due rule.payment_state
]

-- `rank(status)`, 0 for a status that is missing or that no rule names
unfoldable pub rank_of : Option String → ℕ
unfolding status_rule
rank_of status = elim (status_rule (text_or_empty status)) [ none ↦ 0 | some rule ↦ rule.rank ]

-- One round of the `reduce` in `best`.
unfoldable pub better : Option String → StripeSubscription → Option String
unfolding rank_of
better current subscription =
    if ltb (rank_of current) (rank_of (some subscription.status))
    then some subscription.status
    else current

-- The customer's subscription status that counts, or none.
unfoldable pub best : List StripeSubscription → String → Option String
unfolding better
best subscriptions customer = reduce better none (keep (λ s. s.customer == customer) subscriptions)

-- `stripeStatusByCustomer`, over the list of subscriptions that Stripe answered with.
unfoldable pub status_by_customer : List StripeSubscription → List (String × String)
unfolding best distinct
status_by_customer subscriptions = from_entries (
    flat_map
      (λ customer. elim (best subscriptions customer) [
        | none ↦ []
        | some status ↦ (customer, status) ∷ []
      ])
      (distinct (map (λ s. s.customer) subscriptions)))
