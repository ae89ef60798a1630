-- ===== src/Webhook/Tags.antt =====
-- What a ban or a VIP's standing grant does to the handling of an event.
use mathlib.Core.Path.{subst}
use mathlib.Core.Bool.{true≢false}
use wizteros.Webhook.Paying.{
  IsVip, PaysElsewhere, HasPayingSibling, standing_of-IsVip, still_subscribed_elsewhere-is_some,
  paying_sibling-names, paying_sibling-truthy, first_some-names,
}
use wizteros.Status.{StripeSubscription}
use wizteros.Common.{
  first_some, is_some, Bool-cases, contains, truthy, ℕ, String, ◌≡◌, refl, sym, ◌∙◌, ◌⊎◌, inl, inr,
  Bool, true, false, ◌||◌, Option, some, List, [], arith,
}
use wizteros.Json.{Fields, truthy_text}
use wizteros.Standing.{is_banned, holds_standing_grant}
use wizteros.Tiers.{Tier}
use wizteros.Store.{
  Entry, canceled_vip, canceled_still_paying, Store, customer_ids_for_email, record_event,
}
use wizteros.Identity.{IdentitySnapshot, Identity}
use wizteros.Bridge.{
  Call, sends_alert, Bridge, World, ok, gets, modify, continue, ◌>>=◌, list_subscriptions,
  send_alert, log_event,
}
use wizteros.Bridge.Frame.{
  Within, Within-trans, Stays, Stays-pure, Stays-modify, Stays-bind, frame_rules, Stays-log_event,
}
use wizteros.Store.Processed.{processed_of}
use wizteros.Members.{standing_of, still_subscribed_elsewhere}
use wizteros.Members.Frame.{is_read, live_sibling_customer-Stays}
use wizteros.Webhook.Payer.{resolve_live}
use wizteros.Webhook.Effects.{block_banned_checkout}
use wizteros.Webhook.Handlers.{checkout_for}
use wizteros.Webhook.Revocations.{stop_paying-processed}
use wizteros.Webhook.Frame.{resolve_live-Stays, logs-Stays}
use wizteros.Webhook.Dunning.{paying_sibling, stop_paying, revoke_unless_paying, cancellation_for}

-- Reads, and alerts to the operators.
unfoldable pub may_tell : Call → Bool
unfolding is_read
may_tell (sends_alert alert) = true
may_tell call = is_read call

reads_tell : (c : Call) → is_read c ≡ true → may_tell c ≡ true
unfolding may_tell
reads_tell c h = ground arith

-- The store less the action history.
abbrev pub but_history : Store → Store
but_history s = record s { events = [] }

record_event-but_history :
    (at : ℕ) (email : String) (entry : Entry) (s : Store)
    → but_history (record_event at email entry s) ≡ but_history s
unfolding record_event
record_event-but_history at email entry s = refl

module _ (b : Bridge) where
  tells-Stays :
      (email : String) (entry : Entry) → Stays may_tell but_history (log_event b email entry)
  unfolding may_tell
  tells-Stays email entry =
      Stays-log_event may_tell but_history b email entry refl
        (λ at s. record_event-but_history at email entry s)

  block-Stays :
      (email : String) (tier : Tier) (session_id customer_id : Option String)
      → Stays may_tell but_history (block_banned_checkout b email tier session_id customer_id)
  unfolding block_banned_checkout send_alert may_tell
  block-Stays email tier session_id customer_id = search (frame_rules, tells-Stays)

  -- Resolving a person leaves the whole store as it was.
  resolve_live-store :
      (customer_id email : Option String) (w : World)
      → (resolve_live b customer_id email w).1.store ≡ w.store
  resolve_live-store customer_id email w =
      ((resolve_live-Stays {may = is_read} {view = λ s. s} b (λ c h. h) customer_id email).at
        w).kept

-- A checkout by a person whom the handler resolves and finds banned makes read calls and alerts
-- alone: no invite is minted or mailed and no record is touched. The store keeps everything but its
-- history.
pub checkout_for-banned :
    (b : Bridge) (obj : Fields) (email : String) (live : IdentitySnapshot × Identity) (w : World)
    → (resolve_live b (truthy_text "customer" obj) (some email) w).0 ≡ ok live
    → is_banned (standing_of w.store live.1) ≡ true
    → Within may_tell but_history w (checkout_for b obj email w).1
unfolding checkout_for ◌>>=◌ continue gets
checkout_for-banned b obj email live w h ban =
    let (r, v) = resolve_live b (truthy_text "customer" obj) (some email) w in
    rw (h, resolve_live-store b (truthy_text "customer" obj) (some email) w, ban)
      (Within-trans
        ((resolve_live-Stays b reads_tell (truthy_text "customer" obj) (some email)).at w)
        ((block-Stays b email _ _ _).at v))

paying_sibling-Stays :
    (b : Bridge) (email customer_id : String)
    → Stays is_read processed_of (paying_sibling b email customer_id)
unfolding paying_sibling
paying_sibling-Stays b email customer_id =
    Stays-bind _ _ (live_sibling_customer-Stays b (λ c h. h) email customer_id)
      (λ sibling. Stays-pure (truthy sibling))

revoke_unless_paying-kept :
    (b : Bridge) (email : String) (sibling : Option String) (identity : Identity) (under : String)
    (w : World)
    → truthy (first_some sibling (still_subscribed_elsewhere email identity w.store)) ≡ some under
    → Within is_read processed_of w (revoke_unless_paying b email sibling identity w).1
unfolding revoke_unless_paying ◌>>=◌ continue gets
revoke_unless_paying-kept b email sibling identity under w h =
    rw h ((logs-Stays b (λ c h. h) email (canceled_still_paying under)).at w)

-- When a subscription ends, the sibling check and the resolving of the person succeed, neither the
-- person's addresses nor the customers at the address hold an empty text, and the person is a VIP (an
-- address is tagged vip and none banned), or another of their addresses has a subscribed row, or Stripe
-- lists a live subscription of another customer at the address, the handler makes read calls alone:
-- none of their records is disabled.
pub cancellation_for-keeps_access :
    (b : Bridge) (customer_id email : String) (sibling : Option String)
    (live : IdentitySnapshot × Identity) (subscriptions : List StripeSubscription) (w v : World)
    → paying_sibling b email customer_id w ≡ (ok sibling, v)
    → (resolve_live b
        (some customer_id)
        (some email)
        (record v { store = stop_paying b email sibling v.store })).0
      ≡ ok live
    → contains live.1.addresses "" ≡ false
    → contains (customer_ids_for_email email w.store) "" ≡ false
    → (IsVip (stop_paying b email sibling v.store) live.1
        ⊎ (PaysElsewhere email (stop_paying b email sibling v.store) live.1
            ⊎ (((list_subscriptions b w).0 ≡ ok subscriptions)
                × HasPayingSibling email customer_id w.store subscriptions)))
    → Within is_read processed_of w (cancellation_for b customer_id email w).1
unfolding cancellation_for ◌>>=◌ continue gets modify
cancellation_for-keeps_access b customer_id email sibling live subscriptions w v s h full ids
      keeps =
    elim (Bool-cases (holds_standing_grant (standing_of u.store live.1))) [
      | inl grant ↦
          rw (s, h, same, grant)
            (Within-trans before ((logs-Stays b (λ c h. h) email canceled_vip).at x))
      | inr other ↦
          rw (s, h, same, other)
            (Within-trans before (elim keeps [
              | inl granted ↦
                  absurd (true≢false (sym (standing_of-IsVip u.store live.1 granted) ∙ other))
              | inr pays ↦
                  let (under, e) = first_some-names sibling elsewhere settled (named pays) in
                  revoke_unless_paying-kept b email sibling live.1 under x (rw same e)
            ]))
    ]
  where
    elsewhere : Option String
    elsewhere = still_subscribed_elsewhere email live.1 (stop_paying b email sibling v.store)

    settled : truthy sibling ≡ sibling
    settled = paying_sibling-truthy b email customer_id sibling w v s

    named :
        PaysElsewhere email (stop_paying b email sibling v.store) live.1
          ⊎ (((list_subscriptions b w).0 ≡ ok subscriptions)
              × HasPayingSibling email customer_id w.store subscriptions)
        → (is_some (truthy sibling) || is_some (truthy elsewhere)) ≡ true
    named (inl address) =
        rw
          (still_subscribed_elsewhere-is_some email (stop_paying b email sibling v.store) live.1
            full address)
          (ground arith)
    named (inr (listed, customer)) =
        rw
          (paying_sibling-names b email customer_id sibling subscriptions w v s listed ids customer)
          refl

    u : World
    u = record v { store = stop_paying b email sibling v.store }

    x : World
    x = (resolve_live b (some customer_id) (some email) u).1

    same : x.store ≡ u.store
    same = resolve_live-store b (some customer_id) (some email) u

    asked : Within is_read processed_of w v
    asked =
        subst (λ p. Within is_read processed_of w p.1) s
          ((paying_sibling-Stays b email customer_id).at w)

    before : Within is_read processed_of w x
    before = Within-trans asked (
        Within-trans
          ((Stays-modify (stop_paying b email sibling) (stop_paying-processed b email sibling)).at
            v)
          ((resolve_live-Stays b (λ c h. h) (some customer_id) (some email)).at u))
