-- ===== src/Admin/Succeeds.antt =====
-- A service that is down fails neither the billing half of a ban nor a retirement.
use wizteros.Common.{ℕ, String, List, [], ◌∷◌}
use wizteros.Status.{StripeSubscription}
use wizteros.Bridge.{Bridge, M, now, log_event}
use wizteros.Bridge.Succeeds.{Succeeds, succeeds_rules}
use wizteros.Identity.{Identity}
use wizteros.Store.{Entry}
use wizteros.Admin.{
  attempt, ask_customers, customers_at, flag_each, flag_customer, flag_subscriptions, settle_ban,
}

attempt-Succeeds : {A : Type 0} (m : M A) → Succeeds (attempt m)
unfolding attempt
attempt-Succeeds m = search succeeds_rules

module _ (b : Bridge) where
  ask_customers-Succeeds :
      (address : String) (mapped : List String) → Succeeds (ask_customers b address mapped)
  unfolding ask_customers
  ask_customers-Succeeds address [] = search (succeeds_rules, attempt-Succeeds)
  ask_customers-Succeeds address (id ∷ ids) = search succeeds_rules

  customers_at-Succeeds : (address : String) → Succeeds (customers_at b address)
  unfolding customers_at
  customers_at-Succeeds address = search (succeeds_rules, ask_customers-Succeeds)

  flag_each-Succeeds : (ss : List StripeSubscription) → Succeeds (flag_each b ss)
  unfolding flag_each
  flag_each-Succeeds ss = search (succeeds_rules, attempt-Succeeds)

  flag_customer-Succeeds : (id : String) → Succeeds (flag_customer b id)
  unfolding flag_customer
  flag_customer-Succeeds id = search (succeeds_rules, attempt-Succeeds, flag_each-Succeeds)

  log_event-Succeeds : (email : String) (entry : Entry) → Succeeds (log_event b email entry)
  unfolding log_event now
  log_event-Succeeds email entry = search succeeds_rules

-- Flagging the subscriptions of any addresses never throws.
pub flag_subscriptions-Succeeds :
    (b : Bridge) (addresses : List String) → Succeeds (flag_subscriptions b addresses)
unfolding flag_subscriptions
flag_subscriptions-Succeeds b addresses =
    search (succeeds_rules, customers_at-Succeeds, flag_customer-Succeeds)

-- Once the records of a banned person are disabled, no failing service keeps the ban from being
-- settled.
pub settle_ban-Succeeds :
    (b : Bridge) (email : String) (identity : Identity) (disabled : ℕ)
    → Succeeds (settle_ban b email identity disabled)
unfolding settle_ban
settle_ban-Succeeds b email identity disabled =
    search (succeeds_rules, flag_subscriptions-Succeeds, log_event-Succeeds)
