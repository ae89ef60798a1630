-- ===== src/Invites/Spares.antt =====
-- Which subscriptions a retirement cancels.
use wizteros.Common.{
  Bool-cases, keep, flat_map, All, All-append, Member, All-of_Member, String, ◌≡◌, refl, inl, inr,
  true, false, not, some, List, [], ◌∷◌, ◌==◌,
}
use wizteros.Status.{StripeSubscription, is_dunning_status}
use wizteros.Bridge.{
  RetiredSubscription, Call, asks_customer_ids, asks_subscriptions, cancels_now, Trace, Bridge,
  World, customer_ids_of, subscriptions_for, cancel_now, open_invoice_ids, void_invoice, send_alert,
  now, log_event,
}
use wizteros.Bridge.Ensures.{
  MadeSince, Ensures, Makes, Ensures-perform, Ensures-map_in_order, Makes-perform, Makes-bind_of,
  Makes-bind, Makes-map_in_order_of, makes_rules,
}
use wizteros.Invites.{cancel_one, cancel_and_void, report_retired, retire_duplicates}

module _ (b : Bridge) (paying_under : String) where
  -- Stripe listed the subscription for a customer other than the paying one.
  pub IsOthers : StripeSubscription → Type 0
  IsOthers s =
      (customer : String) × (t : Trace) × (ss : List StripeSubscription) × ((customer
          == paying_under)
        ≡ false)
      × (b.subscriptions customer t ≡ some ss)
      × Member s ss

  -- A cancelled subscription is in dunning, and Stripe listed it for another customer; any other call
  -- passes.
  pub CancelsDuplicate : Call → Type 0
  CancelsDuplicate (cancels_now id) =
      (s : StripeSubscription) × (s.id ≡ id) × (is_dunning_status s.status ≡ true) × IsOthers s
  CancelsDuplicate _ = Unit

  IsTarget : StripeSubscription → Type 0
  IsTarget s = (is_dunning_status s.status ≡ true) × IsOthers s

  cancels : (s : StripeSubscription) → IsTarget s → CancelsDuplicate (cancels_now s.id)
  unfolding CancelsDuplicate IsTarget
  cancels s (dunning, others) = (s, refl, dunning, others)

  cancel_one-Makes : (s : StripeSubscription) → IsTarget s → Makes CancelsDuplicate (cancel_one b s)
  unfolding cancel_one cancel_now open_invoice_ids void_invoice CancelsDuplicate
  cancel_one-Makes s target = search (makes_rules, cancels s target)

  subscriptions_for-Ensures :
      (customer : String)
      → (customer == paying_under) ≡ false
      → Ensures CancelsDuplicate (All IsOthers) (subscriptions_for b customer)
  unfolding subscriptions_for CancelsDuplicate IsOthers
  subscriptions_for-Ensures customer other =
      Ensures-perform (All IsOthers) (asks_subscriptions customer) (b.subscriptions customer) tt
        (λ t ss e. All-of_Member IsOthers ss (λ s m. (customer, t, ss, other, e, m)))

  All-flat :
      (sss : List (List StripeSubscription))
      → All (All IsOthers) sss
      → All IsOthers (flat_map (λ s. s) sss)
  All-flat [] h = tt
  All-flat (ss ∷ sss) (h, hs) = All-append IsOthers ss (flat_map (λ s. s) sss) h (All-flat sss hs)

  targets :
      (ss : List StripeSubscription)
      → All IsOthers ss
      → All IsTarget (keep (λ s. is_dunning_status s.status) ss)
  unfolding IsTarget
  targets [] h = tt
  targets (s ∷ ss) (h, hs) = elim (Bool-cases (is_dunning_status s.status)) [
    | inl e ↦ rw e ((e, h), targets ss hs)
    | inr e ↦ rw e (targets ss hs)
  ]

  others_of :
      (customers : List String)
      → All (λ c. (c == paying_under) ≡ false) (keep (λ c. not (c == paying_under)) customers)
  others_of [] = tt
  others_of (c ∷ cs) = elim (Bool-cases (c == paying_under)) [
    | inl e ↦ rw e (others_of cs)
    | inr e ↦ rw e (e, others_of cs)
  ]

  cancel_and_void-Makes :
      (email : String) → Makes CancelsDuplicate (cancel_and_void b email paying_under)
  unfolding cancel_and_void customer_ids_of CancelsDuplicate
  cancel_and_void-Makes email =
      Makes-bind _ _ (Makes-perform (asks_customer_ids email) (b.customer_ids email) tt)
        (λ customers.
          Makes-bind_of (All (All IsOthers)) _ _
            (Ensures-map_in_order (λ c. (c == paying_under) ≡ false) (All IsOthers)
              (subscriptions_for b) _ subscriptions_for-Ensures (others_of customers))
            (λ holdings h.
              Makes-map_in_order_of IsTarget _ (cancel_one b) cancel_one-Makes
                (targets _ (All-flat holdings h))))

  report_retired-Makes :
      (email : String) (rs : List RetiredSubscription)
      → Makes CancelsDuplicate (report_retired b email paying_under rs)
  unfolding report_retired log_event now send_alert CancelsDuplicate
  report_retired-Makes email [] = search makes_rules
  report_retired-Makes email (r ∷ rs) = search makes_rules depth 12

  retire_duplicates-Makes :
      (email : String) → Makes CancelsDuplicate (retire_duplicates b email paying_under)
  unfolding retire_duplicates
  retire_duplicates-Makes email =
      search (makes_rules, cancel_and_void-Makes, report_retired-Makes) depth 12

-- A retirement cancels no subscription but those in dunning that Stripe listed for a customer other
-- than the one that pays, whatever Stripe answers and wherever it fails.
pub retire_duplicates-spares :
    (b : Bridge) (email paying_under : String) (w : World)
    → MadeSince (CancelsDuplicate b paying_under) w (retire_duplicates b email paying_under w).1
retire_duplicates-spares b email paying_under =
    (retire_duplicates-Makes b paying_under email).ensured.since
