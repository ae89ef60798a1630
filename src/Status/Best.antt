-- ===== src/Status/Best.antt =====
-- Which of a customer's subscriptions answers for the customer.
use wizteros.Common.{
  if◌then◌else◌, Bool-cases, keep, any, flat_map, reduce, contains, distinct, contains-distinct,
  lookup, last_of, lookup-from_entries, String, ◌≡◌, refl, sym, inl, inr, Bool, false, ◌&&◌, ◌||◌,
  Option, none, some, List, [], ◌∷◌, map, arith, ◌==◌, eq_iff,
}
use wizteros.Status.{StripeSubscription, is_live_status, better, best, status_by_customer}

-- Whether the status, if there is one, is live.
abbrev pub is_live : Option String → Bool
is_live none = false
is_live (some status) = is_live_status status

better-live :
    (current : Option String) (s : StripeSubscription)
    → is_live (better current s) ≡ (is_live current || is_live_status s.status)
unfolding better is_live_status
better-live none s = ground (arith, eq_iff "" "active")
better-live (some c) s = ground arith

reduce-live :
    (current : Option String) (ss : List StripeSubscription)
    → is_live (reduce better current ss)
      ≡ (is_live current || any (λ s. is_live_status s.status) ss)
reduce-live current [] = ground arith
reduce-live current (s ∷ ss) =
    ground (arith, reduce-live (better current s) ss, better-live current s)

any-keep :
    (p q : StripeSubscription → Bool) (ss : List StripeSubscription)
    → any q (keep p ss) ≡ any (λ s. p s && q s) ss
any-keep p q [] = refl
any-keep p q (s ∷ ss) = ground (arith, any-keep p q ss)

keep_of_no_customer :
    (c : String) (ss : List StripeSubscription)
    → contains (map (λ s. s.customer) ss) c ≡ false
    → keep (λ s. s.customer == c) ss ≡ []
keep_of_no_customer c [] h = refl
keep_of_no_customer c (s ∷ ss) h = ground (arith, keep_of_no_customer c ss)

best_of_no_customer :
    (c : String) (ss : List StripeSubscription)
    → contains (map (λ s. s.customer) ss) c ≡ false
    → best ss c ≡ none
unfolding best
best_of_no_customer c ss h = rw (keep_of_no_customer c ss h) refl

-- The entries that the map is made of, one for each customer with a status.
entries : (String → Option String) → List String → List (String × String)
entries f cs = flat_map (λ c. elim (f c) [ none ↦ [] | some status ↦ (c, status) ∷ [] ]) cs

last_of-entries :
    (f : String → Option String) (cs : List String) (c : String)
    → last_of c (entries f cs) ≡ (if contains cs c then f c else none)
unfolding entries last_of
last_of-entries f [] c = refl
last_of-entries f (d ∷ cs) c = ground (arith, last_of-entries f cs c, eq_iff d c)

-- The map answers for each customer with the customer's best status, and with nothing for one
-- that Stripe lists no subscription of.
pub lookup-status_by_customer :
    (ss : List StripeSubscription) (c : String) → lookup c (status_by_customer ss) ≡ best ss c
unfolding status_by_customer entries
lookup-status_by_customer ss c =
    let customers = map (λ s. s.customer) ss in
    rw (lookup-from_entries c (entries (best ss) (distinct customers))) (
      rw (last_of-entries (best ss) (distinct customers) c, contains-distinct customers c)
        (elim (Bool-cases (contains customers c)) [
          | inl present ↦ rw present refl
          | inr absent ↦ rw absent (sym (best_of_no_customer c ss absent))
        ]))

-- A customer counts as paying exactly when at least one of their subscriptions is live, whatever
-- other subscriptions they hold and in whatever order Stripe lists them.
pub live_iff_any_live :
    (ss : List StripeSubscription) (c : String)
    → is_live (lookup c (status_by_customer ss))
      ≡ any (λ s. s.customer == c && is_live_status s.status) ss
unfolding best
live_iff_any_live ss c =
    rw (lookup-status_by_customer ss c, best, reduce-live none)
      (any-keep (λ s. s.customer == c) (λ s. is_live_status s.status) ss)
