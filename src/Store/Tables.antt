-- ===== src/Store/Tables.antt =====
-- The tables of schema.ts as records, and the rows the store hands out (types.ts).
use wizteros.Json.{Fields}
use wizteros.Common.{ℕ, String, Bool, Option, List, []}
use wizteros.Standing.{MemberTag}
use wizteros.Status.{PaymentState}
use wizteros.Tiers.{Tier}

-- A row of `customer_map`; `tier` and `payment_state` are texts there.
pub record CustomerMap : Type 0 where
  pub stripe_customer_id : String
  pub email : Option String
  pub invite_code : Option String
  pub tier : Option String
  pub invited_at : Option ℕ
  pub subscribed : Bool
  pub payment_state : Option PaymentState

-- `CustomerRow`
pub record CustomerRow : Type 0 where
  pub customer_id : Option String
  pub invite_code : Option String
  pub tier : Option Tier
  pub invited_at : Option ℕ
  pub subscribed : Bool
  pub payment_state : Option PaymentState

-- `banBillingLine`: what a ban says of the member's billing.
pub data BillingLine : Type 0 where
  by_hand some_failed no_subscription scheduled_somewhen : BillingLine
  stops : (at : ℕ) → BillingLine

-- A number of days from now, in either direction.
pub data Days : Type 0 where
  ahead back : ℕ → Days

-- How a reset of an expiry is worded.
pub data ExpiryChange : Type 0 where
  to_instant : ℕ → ExpiryChange
  in_days : Days → ExpiryChange
  cleared : ExpiryChange

-- What a row of `event_log` says. A constructor stands for one wording of `action` and `detail`,
-- with the values that the wording names.
pub data Entry : Type 0 where
  signed_up : Tier → Entry
  checkout_blocked : Tier → Entry
  access_restored : Tier → Entry
  payment_received_banned : Entry
  payment_received_vip : Entry
  payment_received : (expires : ℕ) → Entry
  payment_failed : (invoice : Fields) → Entry
  canceled_vip : Entry
  canceled_still_paying : (under : String) → Entry
  canceled : (disabled : ℕ) → Entry
  duplicate_cancelled : (subscriptions : List String) (under : String) → Entry
  payment_failed_sweep : (status : String) → Entry
  payment_recovered : Entry
  expiry_stamped : (lapsed : Bool) (expires : ℕ) → Entry
  tag_changed : Option MemberTag → Entry
  downloads_toggled : Bool → Entry
  address_linked : (pays_under : String) → Entry
  billing_address : (for : String) → Entry
  address_unlinked : Entry
  tier_reset : Tier → Entry
  invite_issued : Tier → (emailed : Bool) → Entry
  member_banned : (disabled : ℕ) → BillingLine → Entry
  expiry_reset : ExpiryChange → Entry
  cancellation_scheduled : (access_ends : Option ℕ) → Entry

pub record EventRow : Type 0 where
  pub id : ℕ
  pub at : ℕ
  pub email : String
  pub entry : Entry

-- A row of `session_invites`
pub record SessionInvite : Type 0 where
  pub session_id : String
  pub invite_code : String
  pub emailed : Bool

-- A row of `baseline_invites`
pub record BaselineInvite : Type 0 where
  pub code : String
  pub tier : String
  pub created_at : ℕ
  pub expires_at : ℕ

pub record Store : Type 0 where
  pub customers : List CustomerMap
  pub notes : List (String × String)
  pub tags : List (String × String)
  pub downloads : List (String × ℕ)
  pub links : List (String × String)
  pub processed : List String
  pub events : List EventRow
  pub session_invites : List SessionInvite
  pub baselines : List BaselineInvite

-- The tables that `initSchema` creates in a new file.
abbrev pub empty_store : Store
empty_store = record {
  customers = [];
  notes = [];
  tags = [];
  downloads = [];
  links = [];
  processed = [];
  events = [];
  session_invites = [];
  baselines = [];
}
