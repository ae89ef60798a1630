-- ===== src/Tests/Fixtures.antt =====
-- The members, libraries and rows that the tests run on.
use wizteros.Common.{String, true, false, none, some, List, [], ◌∷◌}
use wizteros.Status.{StripeSubscription}
use wizteros.Tiers.{gold, text_id, number_id, WizarrLibrary, LiveSections}
use wizteros.Store.{CustomerMap, Store, empty_store, checkout}
use wizteros.Identity.{WizarrUser, WizarrInvitation, IdentitySnapshot, by_nothing, Identity}
use wizteros.Json.{Json, text, object, Fields, no_more, field}
use wizteros.Bridge.{Bridge, World}
use wizteros.Invites.{Issue}
use wizteros.Standing.{MemberTag, tag_name}

abbrev pub movies : WizarrLibrary
movies = record {
  id = 1;
  name = some "01. Movies";
  server_id = 4;
  server_name = some "Balerion";
  enabled = some true;
  external_id = some (text_id "7");
}

abbrev pub movies_4k : WizarrLibrary
movies_4k = record movies { id = 2; name = some "4K Movies"; external_id = some (number_id 8) }

abbrev pub home_videos : WizarrLibrary
home_videos = record movies { id = 3; name = some "98. Home"; external_id = none }

abbrev pub catalog : List WizarrLibrary
catalog = movies ∷ movies_4k ∷ home_videos ∷ []

-- Plex has section 7 under a new name.
abbrev pub live_sections : LiveSections
live_sections = ("Balerion", ("7", "Films") ∷ ("8", "4K Movies") ∷ []) ∷ []

abbrev pub ann_row : CustomerMap
ann_row = record {
  stripe_customer_id = "cus_1";
  email = some "Ann@x.io";
  invite_code = some "ABC";
  tier = some "gold";
  invited_at = some 5;
  subscribed = true;
  payment_state = none;
}

abbrev pub ann_store : Store
ann_store = record empty_store { customers = ann_row ∷ [] }

abbrev pub ann_user : WizarrUser
ann_user = record {
  id = 10;
  username = some "ann";
  email = some "ann@plex.tv";
  server = some "Balerion";
  expires = none;
}

abbrev pub ann_invitation : WizarrInvitation
ann_invitation = record { id = 1; code = some "ABC"; used_by = some "<User 10>" }

-- Ann pays under one address and watches under another.
abbrev pub ann_links : List (String × String)
ann_links = ("ann@x.io", "ann@plex.tv") ∷ []

abbrev pub ann_snapshot : IdentitySnapshot
ann_snapshot = record {
  users = ann_user ∷ [];
  invitations = ann_invitation ∷ [];
  links = ann_links;
  invites = ("ann@x.io", "ABC") ∷ [];
}

abbrev pub ann_identity : Identity
ann_identity = record {
  primary_address = some "ann@plex.tv";
  addresses = "ann@x.io" ∷ "ann@plex.tv" ∷ [];
  records = [];
  via = by_nothing;
}

abbrev pub subscription : String → String → String → StripeSubscription
subscription id customer status = record {
  id = id;
  customer = customer;
  status = status;
  cancel_at_period_end = false;
  cancel_at = none;
}

-- Services that answer every call: Ann's one record and invitation, and an invite code.
abbrev pub willing : Bridge
willing = record {
  settings = record {
    public_invite_base = "https://join.x.io";
    access_days = 31;
    invite_days = 7;
    baseline_expires_days = 30;
    billing_portal_url = some "https://pay.x.io";
  };
  libraries = λ t. some catalog;
  users = λ t. some (ann_user ∷ []);
  invitations = λ t. some (ann_invitation ∷ []);
  created_code = λ request t. some "NEW";
  deleted = λ id t. some tt;
  users_found = λ email t. some [];
  expiry_set = λ id t. some tt;
  disabled = λ id t. some tt;
  live_sections = λ t. none;
  customer_email = λ id t. some none;
  customer_ids = λ email t. some [];
  subscriptions = λ id t. some [];
  all_subscriptions = λ t. some [];
  flagged = λ id t. none;
  canceled = λ id t. some tt;
  open_invoices = λ id t. some [];
  voided = λ id t. some tt;
  invite_mailed = λ t. some tt;
  clock = λ t. 1_000;
}

-- Ann's subscription went past due.
abbrev pub ann_subscription : Fields
ann_subscription = field "customer" (text "cus_1") (field "status" (text "past_due") no_more)

abbrev pub updated_event : Json
updated_event = object (
    field "id" (text "evt_1") (
      field "type" (text "customer.subscription.updated")
        (field "data" (object (field "object" (object ann_subscription) no_more)) no_more)))

abbrev pub ann_world : World
ann_world = record { store = ann_store; calls = [] }

-- Ann's store with a tag on the account that she watches under.
abbrev pub tagged_world : MemberTag → World
tagged_world tag = record {
  store = record ann_store { tags = ("ann@plex.tv", tag_name tag) ∷ []; links = ann_links };
  calls = [];
}

abbrev pub ann_issue : Issue
ann_issue = record {
  email = "ann@x.io";
  tier = gold;
  scope = record {
    library_ids = 1 ∷ [];
    server_ids = 4 ∷ [];
    server_names = "Balerion" ∷ [];
    allow_downloads = true;
  };
  customer_id = some "cus_1";
  allow_downloads = none;
  operation = some (checkout "cs_1");
  settles_payment = true;
}
