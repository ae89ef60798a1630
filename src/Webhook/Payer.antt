-- ===== src/Webhook/Payer.antt =====
-- Lines 66 to 145 of webhook/handlers.ts: whom an event is about.
use wizteros.Common.{first_some, and_then, truthy, ℕ, String, Option, none, some}
use wizteros.Json.{Fields, truthy_text, nested}
use wizteros.Tiers.{Tier, TierScope}
use wizteros.Store.{Store, get_mapping}
use wizteros.Identity.{IdentitySnapshot, Identity}
use wizteros.Bridge.{
  Bridge, missing_field, no_customer, M, pure, raise, gets, ◌>>=◌, given, customer_email_of, now,
  add_days,
}
use wizteros.Members.{resolve_identity, identity_snapshot}
use wizteros.Invites.{live_scope}

-- `requiredText`
unfoldable pub required_text : String → Fields → M String
unfolding truthy_text pure raise
required_text key obj = given (truthy_text key obj) (raise missing_field) pure

-- The object's own email: a session's, and then an invoice's.
unfoldable pub own_email : Fields → Option String
unfolding truthy_text nested
own_email obj =
    first_some (truthy_text "email" (nested "customer_details" obj))
      (truthy_text "customer_email" obj)

-- The address that the store has for a customer, none for an empty one.
unfoldable pub recorded_email : String → Store → Option String
unfolding get_mapping
recorded_email customer_id s = and_then (get_mapping customer_id s) (λ row. truthy row.email)

module _ (b : Bridge) where
  -- `customerEmail`
  unfoldable pub customer_email : (customer_id : Option String) → M (Option String)
  unfolding raise customer_email_of
  customer_email customer_id = given (truthy customer_id) (raise no_customer) (customer_email_of b)

  -- The recorded address, and then Stripe's; a handler reads an empty one of Stripe's as none.
  unfoldable pub email_on_file : (customer_id : String) → M (Option String)
  unfolding gets pure recorded_email customer_email ◌>>=◌
  email_on_file customer_id = do
    recorded ← gets (recorded_email customer_id)
    given recorded (customer_email (some customer_id) >>= λ found. pure (truthy found))
        (λ email. pure (some email))

  -- `payerEmail`; `customer_id` is not empty
  unfoldable pub payer_email : Fields → (customer_id : Option String) → M (Option String)
  unfolding pure own_email email_on_file
  payer_email obj customer_id =
      given (own_email obj) (given customer_id (pure none) email_on_file)
        (λ email. pure (some email))

  -- `accessExpiryIso`
  unfoldable pub access_expiry : M ℕ
  unfolding now pure ◌>>=◌
  access_expiry = do at ← now b; pure (add_days at b.settings.access_days)

  -- `resolveTierScope`
  unfoldable pub resolve_tier_scope : Tier → M TierScope
  unfolding live_scope
  resolve_tier_scope tier = live_scope b tier

  -- `resolveLive`
  unfoldable pub resolve_live :
      (customer_id email : Option String) → M (IdentitySnapshot × Identity)
  unfolding identity_snapshot gets resolve_identity ◌>>=◌
  resolve_live customer_id email = do
    snapshot ← identity_snapshot b
    gets (λ s. (snapshot, resolve_identity snapshot customer_id email s))
