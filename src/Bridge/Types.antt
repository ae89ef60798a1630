-- ===== src/Bridge/Types.antt =====
-- What the services are asked, and what they may answer. A service is not modelled: its answer to a
-- call is any function of the calls made before, and `none` is a call that throws.
use wizteros.Common.{ℕ, String, Bool, Option, List}
use wizteros.Json.{Fields}
use wizteros.Status.{StripeSubscription}
use wizteros.Tiers.{Tier, WizarrLibrary, ScopeProblem, LiveSections, StaleLibrary}
use wizteros.Identity.{WizarrUser, WizarrInvitation}

-- The arguments of `createInvite`; `duration` in days.
pub record InviteRequest : Type 0 where
  pub server_ids : List ℕ
  pub expires_in_days : ℕ
  pub duration : ℕ
  pub library_ids : List ℕ
  pub allow_downloads : Bool
  pub unlimited : Bool

-- A subscription that was retired, with the invoices voided (alerts.ts).
pub record RetiredSubscription : Type 0 where
  pub subscription : String
  pub customer : String
  pub invoices : List String

pub data AccessLine : Type 0 where
  unchecked held not_held : AccessLine

pub record DunningFinding : Type 0 where
  pub email : String
  pub status : String
  pub line : AccessLine

-- One constructor for each alert of alerts.ts, with the values that its text is made from.
pub data Alert : Type 0 where
  banned_checkout : (email : String) → Tier → (session_id customer_id : Option String) → Alert
  access_restored_alert : (email : String) → Tier → Alert
  signup_alert :
      (email : String)
      → Tier
      → (session : Fields) → (session_id customer_id : Option String) → (invite_url : String)
      → Alert
  duplicate_not_retired : (email paying_under : String) → (invoice : Option Fields) → Alert
  duplicates_retired : (email paying_under : String) → List RetiredSubscription → Alert
  payment_failed_alert : (email : String) → (invoice : Fields) → AccessLine → Alert
  dunning_sweep : List DunningFinding → Alert
  vips_without_access : List String → Alert
  tier_scopes : List (Tier × ScopeProblem) → List (String × List StaleLibrary) → Alert

-- A call of a service, or a reading of the clock.
pub data Call : Type 0 where
  lists_libraries lists_users lists_invitations : Call
  creates_invite : InviteRequest → Call
  deletes_invitation : ℕ → Call
  finds_users : (email : String) → Call
  sets_expiry : (user_id : ℕ) → (expires : Option ℕ) → Call
  disables_user : (user_id : ℕ) → Call
  reads_live_sections : Call
  asks_customer_email : (customer_id : String) → Call
  asks_customer_ids : (email : String) → Call
  asks_subscriptions : (customer_id : String) → Call
  lists_subscriptions : Call
  cancels_at_period_end : (subscription_id : String) → Call
  cancels_now : (subscription_id : String) → Call
  asks_open_invoices : (subscription_id : String) → Call
  voids_invoice : (invoice_id : String) → Call
  sends_invite : (to invite_url : String) → Call
  sends_alert : Alert → Call
  sends_payment_failed : (to portal_url : String) → Call
  reads_clock : Call

-- The calls made so far, the newest first.
abbrev pub Trace : Type 0
Trace = List Call

pub record Settings : Type 0 where
  pub public_invite_base : String
  pub access_days : ℕ
  pub invite_days : ℕ
  pub baseline_expires_days : ℕ
  pub billing_portal_url : Option String

-- The services' answers. `live_sections` and the alerts never throw; the clock is in milliseconds.
pub record Bridge : Type 0 where
  pub settings : Settings
  pub libraries : Trace → Option (List WizarrLibrary)
  pub users : Trace → Option (List WizarrUser)
  pub invitations : Trace → Option (List WizarrInvitation)
  pub created_code : InviteRequest → Trace → Option String
  pub deleted : ℕ → Trace → Option (Unit {0})
  pub users_found : String → Trace → Option (List WizarrUser)
  pub expiry_set : ℕ → Trace → Option (Unit {0})
  pub disabled : ℕ → Trace → Option (Unit {0})
  pub live_sections : Trace → Option LiveSections
  pub customer_email : String → Trace → Option (Option String)
  pub customer_ids : String → Trace → Option (List String)
  pub subscriptions : String → Trace → Option (List StripeSubscription)
  pub all_subscriptions : Trace → Option (List StripeSubscription)
  pub flagged : String → Trace → Option StripeSubscription
  pub canceled : String → Trace → Option (Unit {0})
  pub open_invoices : String → Trace → Option (List String)
  pub voided : String → Trace → Option (Unit {0})
  pub invite_mailed : Trace → Option (Unit {0})
  pub clock : Trace → ℕ
