-- ===== src/Members/Frame.antt =====
-- Reading who a person is makes read calls alone, and changes nothing in the store.
use wizteros.Common.{String, ◌≡◌, Bool, true, false, Option, List, [], ◌∷◌}
use wizteros.Store.{Store}
use wizteros.Bridge.{
  Call, lists_libraries, lists_users, lists_invitations, finds_users, reads_live_sections,
  asks_customer_email, asks_customer_ids, asks_subscriptions, lists_subscriptions,
  asks_open_invoices, reads_clock, Bridge, list_users, list_invitations, list_subscriptions,
}
use wizteros.Bridge.Frame.{Stays, frame_rules}
use wizteros.Members.{
  identity_snapshot, resolve_user_ids, access_line, ask_stripe, live_sibling_customer,
}

-- The calls that change nothing outside.
unfoldable pub is_read : Call → Bool
is_read lists_libraries = true
is_read lists_users = true
is_read lists_invitations = true
is_read (finds_users email) = true
is_read reads_live_sections = true
is_read (asks_customer_email id) = true
is_read (asks_customer_ids email) = true
is_read (asks_subscriptions id) = true
is_read lists_subscriptions = true
is_read (asks_open_invoices id) = true
is_read reads_clock = true
is_read _ = false

module _ {V : Type 0} {may : Call → Bool} {view : Store → V} (b : Bridge)
    (reads : (c : Call) → is_read c ≡ true → may c ≡ true) where
  pub identity_snapshot-Stays : Stays may view (identity_snapshot b)
  unfolding identity_snapshot list_users list_invitations is_read
  identity_snapshot-Stays = search (frame_rules, reads)

  pub access_line-Stays :
      (customer_id : Option String) (email : String)
      → Stays may view (access_line b customer_id email)
  unfolding access_line resolve_user_ids
  access_line-Stays customer_id email = search (frame_rules, identity_snapshot-Stays)

  ask_stripe-Stays : (siblings : List String) → Stays may view (ask_stripe b siblings)
  unfolding ask_stripe list_subscriptions is_read
  ask_stripe-Stays [] = search frame_rules
  ask_stripe-Stays (s ∷ siblings) = search (frame_rules, reads)

  pub live_sibling_customer-Stays :
      (email dead_customer : String) → Stays may view (live_sibling_customer b email dead_customer)
  unfolding live_sibling_customer
  live_sibling_customer-Stays email dead_customer = search (frame_rules, ask_stripe-Stays)
