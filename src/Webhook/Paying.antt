-- ===== src/Webhook/Paying.antt =====
-- Who still pays: what the two checks of an ended subscription find, from the rows and from Stripe's list.
use mathlib.Core.Path.{subst}
use wizteros.Common.{
  first_some, is_some, keep, any, find, Member, contains, contains-keep, lookup, to_lower, truthy,
  text_or_empty, sorted, contains-sorted, String, ◌≡◌, refl, sym, ap, ◌∙◌, inl, inr, Bool, true,
  false, not, ◌||◌, Option, none, some, List, [], ◌∷◌, arith, ◌==◌, eq_iff, eq_refl,
}
use wizteros.Status.{StripeSubscription, is_live_status, status_by_customer}
use wizteros.Status.Best.{is_live, live_iff_any_live}
use wizteros.Standing.{is_banned, holds_standing_grant}
use wizteros.Standing.Strength.{strongest_across_lem}
use wizteros.Store.{
  CustomerRow, Store, customer_ids_for_email, all_customer_rows, same, all_member_tags,
}
use wizteros.Identity.{Identity}
use wizteros.Bridge.{
  Bridge, World, Result, ok, err, pure, gets, continue, ◌>>=◌, list_subscriptions,
}
use wizteros.Members.{
  standing_of, sibling_customers, still_subscribed_elsewhere, first_live, ask_stripe,
  live_sibling_customer,
}
use wizteros.Webhook.Dunning.{paying_sibling}

-- One of the person's addresses is tagged vip, and none is tagged banned.
abbrev pub IsVip : Store → Identity → Type 0
IsVip s identity =
    (any (λ a. holds_standing_grant (lookup a (all_member_tags s))) identity.addresses ≡ true)
    × (any (λ a. is_banned (lookup a (all_member_tags s))) identity.addresses ≡ false)

-- Another address of the person has a row that is subscribed.
abbrev pub PaysElsewhere : (email : String) → Store → Identity → Type 0
PaysElsewhere email s identity =
    (address : String) × (row : CustomerRow) × (contains identity.addresses address ≡ true)
    × ((address == to_lower email) ≡ false)
    × (lookup address (all_customer_rows s) ≡ some row)
    × (row.subscribed ≡ true)

-- Of the customers at the address, another than the one that ended has a live subscription.
abbrev pub HasPayingSibling :
    (email customer_id : String) → Store → List StripeSubscription → Type 0
HasPayingSibling email customer_id s subscriptions =
    (subscription : StripeSubscription) × Member subscription subscriptions
    × (contains (customer_ids_for_email email s) subscription.customer ≡ true)
    × ((subscription.customer == customer_id) ≡ false)
    × (is_live_status subscription.status ≡ true)

find-is_some :
    (p : String → Bool) (xs : List String) (x : String)
    → contains xs x ≡ true
    → contains xs "" ≡ false
    → p x ≡ true
    → is_some (truthy (find p xs)) ≡ true
find-is_some p [] x h k e = absurd (cc h)
find-is_some p (y ∷ xs) x h k e = ground (arith, find-is_some p xs x, eq_iff y x)

pub standing_of-IsVip :
    (s : Store) (identity : Identity)
    → IsVip s identity
    → holds_standing_grant (standing_of s identity) ≡ true
unfolding standing_of
standing_of-IsVip s identity (v, n) =
    (strongest_across_lem (all_member_tags s) identity.addresses).1 ∙ rw (v, n) refl

pub still_subscribed_elsewhere-is_some :
    (email : String) (s : Store) (identity : Identity)
    → contains identity.addresses "" ≡ false
    → PaysElsewhere email s identity
    → is_some (truthy (still_subscribed_elsewhere email identity s)) ≡ true
unfolding still_subscribed_elsewhere
still_subscribed_elsewhere-is_some email s identity full
      (address, row, listed, other, stored, pays) =
    let others = keep (λ a. not (a == to_lower email)) identity.addresses in
    find-is_some _ (sorted others) address
      (contains-sorted others address
        ∙ contains-keep _ identity.addresses address
        ∙ rw (listed, other) refl)
      (contains-sorted others "" ∙ contains-keep _ identity.addresses "" ∙ rw full refl)
      (rw (stored, pays) refl)

any-Member :
    (p : StripeSubscription → Bool) (s : StripeSubscription) (ss : List StripeSubscription)
    → Member s ss
    → p s ≡ true
    → any p ss ≡ true
any-Member p s [] m e = absurd m
any-Member p s (t ∷ ss) (inl same) e = rw (same, e) refl
any-Member p s (t ∷ ss) (inr m) e = rw (any-Member p s ss m e) (ground arith)

live_text :
    (status : Option String) → is_live status ≡ true → is_live_status (text_or_empty status) ≡ true
live_text none e = absurd (cc e)
live_text (some status) e = e

first_live-is_some :
    (email customer_id : String) (s : Store) (subscriptions : List StripeSubscription)
    → contains (customer_ids_for_email email s) "" ≡ false
    → HasPayingSibling email customer_id s subscriptions
    → is_some (truthy (first_live (sibling_customers email customer_id s) subscriptions)) ≡ true
unfolding first_live sibling_customers
first_live-is_some email customer_id s subscriptions full (sub, listed, stored, other, live) =
    let ids = customer_ids_for_email email s in
    let pays : is_live (lookup sub.customer (status_by_customer subscriptions)) ≡ true =
      live_iff_any_live subscriptions sub.customer
      ∙ any-Member _ sub subscriptions listed (rw (eq_refl sub.customer, live) refl) in
    find-is_some _ (keep (λ id. not (id == customer_id)) ids) sub.customer
      (contains-keep _ ids sub.customer ∙ rw (stored, other) refl)
      (contains-keep _ ids "" ∙ rw full refl)
      (live_text (lookup sub.customer (status_by_customer subscriptions)) pays)

ask_stripe-answers :
    (b : Bridge) (ids : List String) (subscriptions : List StripeSubscription) (w : World)
    → (list_subscriptions b w).0 ≡ ok subscriptions
    → is_some (truthy (first_live ids subscriptions)) ≡ true
    → (ask_stripe b ids w).0 ≡ ok (first_live ids subscriptions)
unfolding ask_stripe pure first_live ◌>>=◌ continue
ask_stripe-answers b [] subscriptions w l names = absurd (cc names)
ask_stripe-answers b (i ∷ ids) subscriptions w l names = rw l refl

truthy_again : (o : Option String) → is_some (truthy o) ≡ true → is_some (truthy (truthy o)) ≡ true
truthy_again none h = h
truthy_again (some s) h = ground arith

-- The sibling check, when it succeeds, names a customer.
pub paying_sibling-names :
    (b : Bridge) (email customer_id : String) (sibling : Option String)
    (subscriptions : List StripeSubscription) (w v : World)
    → paying_sibling b email customer_id w ≡ (ok sibling, v)
    → (list_subscriptions b w).0 ≡ ok subscriptions
    → contains (customer_ids_for_email email w.store) "" ≡ false
    → HasPayingSibling email customer_id w.store subscriptions
    → is_some (truthy sibling) ≡ true
unfolding paying_sibling live_sibling_customer ask_stripe pure gets ◌>>=◌ continue
paying_sibling-names b email customer_id sibling subscriptions w v e l full pays =
    let names = first_live-is_some email customer_id w.store subscriptions full pays in
    let asked =
      ask_stripe-answers b (sibling_customers email customer_id w.store) subscriptions w l names in
    let found = first_live (sibling_customers email customer_id w.store) subscriptions in
    let same : truthy found ≡ sibling = ok_injective (sym (rw asked refl) ∙ ap (λ p. p.0) e) in
    subst (λ o. is_some (truthy o) ≡ true) same (truthy_again found names)
  where
    ok_injective : {x y : Option String} → ok x ≡ ok y → x ≡ y
    ok_injective h = cc

truthy_lem : (o : Option String) → truthy (truthy o) ≡ truthy o
truthy_lem none = refl
truthy_lem (some s) = ground arith

-- An empty id is read as none.
pub paying_sibling-truthy :
    (b : Bridge) (email customer_id : String) (sibling : Option String) (w v : World)
    → paying_sibling b email customer_id w ≡ (ok sibling, v)
    → truthy sibling ≡ sibling
unfolding paying_sibling ◌>>=◌ continue pure
paying_sibling-truthy b email customer_id sibling w v e =
    read (live_sibling_customer b email customer_id w) e
  where
    read :
        (r : Result (Option String) × World)
        → continue r.0 (λ o. pure (truthy o)) r.1 ≡ (ok sibling, v)
        → truthy sibling ≡ sibling
    read (ok o, u) h =
        let same : truthy o ≡ sibling = cc in subst (λ x. truthy x ≡ x) same (truthy_lem o)
    read (err _, u) h = absurd (cc h)

names_of : (o : Option String) → is_some o ≡ true → (under : String) × (o ≡ some under)
names_of none h = absurd (cc h)
names_of (some under) h = (under, refl)

-- A customer or an address that is named is one to keep the access for.
pub first_some-names :
    (sibling elsewhere : Option String)
    → truthy sibling ≡ sibling
    → (is_some (truthy sibling) || is_some (truthy elsewhere)) ≡ true
    → (under : String) × (truthy (first_some sibling elsewhere) ≡ some under)
first_some-names none elsewhere e h = names_of (truthy elsewhere) h
first_some-names (some id) elsewhere e h = (id, e)
