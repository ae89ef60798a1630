-- ===== src/Tests/Books.antt =====
-- A log of two members, and today's subscribers.
use Prim.Native.Nat.{◌/◌}
use wizteros.Common.{
  is_some, length, keep, all, last, distinct_from, distinct, lookup, insert_by, sort_by, to_lower,
  trim, str_le, ℕ, ◌+◌, ◌*◌, ◌≤◌, String, ◌≡◌, refl, ◌↔◌, true, false, ◌||◌, Option, none, some,
  List, [], ◌∷◌, arith, ◌==◌,
}
use wizteros.Tiers.{Tier, bronze, silver, gold, youth, parse_tier}
use wizteros.Status.{past_due}
use wizteros.Portal.{
  PortalMember, is_expired, is_paying, amount_of, tally, tier_price, priced_members, current_income,
  MemberEvent, words_from, tier_of_word, first_tier, tier_from_detail, IncomeEvent, empty_state,
  member_event, tier_change, moved_from, step_grant, step_tier, step_end, action_of, step_action,
  step_member, walk, replay, state_in, walk_all, to_income_events, is_about, month_row,
  monthly_series, last_at, text_take, text_drop, mailbox, canonicalize, is_one_edit_apart,
  candidates_of, matches_of, add_twins, find_duplicate_twins, PlexServerAccess, shared, not_shared,
  not_entitled, resolve_state, shared_names, shares_everything, is_shared_in, resolved_libraries,
  server_access,
}
use wizteros.Portal.Shares.{counts_as_shared, is_unknown, server_access-shared_count}
use wizteros.Portal.Edits.{OneEdit, is_one_edit_apart_iff}
use wizteros.Portal.Ledger.{
  value_of, is_accounted, are_accounted, total_gain, total_loss, walk-balances,
}
use wizteros.Portal.Replay.{follows, walk-replay}
use wizteros.Portal.Totals.{current_income_lem}
use wizteros.Portal.Months.{monthly_series-ends}
use wizteros.Portal.Members.{walk_all-walk}

abbrev row_of : (id at : ℕ) → (email action detail : String) → MemberEvent
row_of id at email action detail = record {
  id = id;
  at = at;
  email = email;
  action = action;
  detail = detail;
}

-- Sam signs up, moves up a tier and leaves; Ada's renewal comes between.
abbrev sams_rows : List MemberEvent
sams_rows =
    row_of 1 100 "Sam@x.com" "Signed up" "silver tier, invite emailed"
    ∷ row_of 3 300 "sam@x.com" "Tier reset" "hard reset to Gold"
    ∷ row_of 4 400 "sam@x.com" "Canceled" ""
    ∷ []

abbrev log_rows : List MemberEvent
log_rows =
    row_of 1 100 "Sam@x.com" "Signed up" "silver tier, invite emailed"
    ∷ row_of 2 200 "ada@x.com" "Payment received" ""
    ∷ row_of 3 300 "sam@x.com" "Tier reset" "hard reset to Gold"
    ∷ row_of 4 400 "sam@x.com" "Canceled" ""
    ∷ []

abbrev payer_of : (email : String) → Tier → PortalMember
payer_of email tier = record {
  email = email;
  tier = some tier;
  expires = none;
  servers = [];
  subscribed = true;
  payment_state = some past_due;
  invited_at = none;
  tag = none;
}

abbrev payers : List PortalMember
payers = payer_of "ada@x.com" gold ∷ payer_of "bo@x.com" bronze ∷ []

current_income_lem_example :
    ((current_income 9 payers).total
      ≡ ((current_income 9 payers).by_tier bronze).amount
        + ((current_income 9 payers).by_tier silver).amount
        + ((current_income 9 payers).by_tier gold).amount
        + ((current_income 9 payers).by_tier youth).amount)
    × ((current_income 9 payers).paying
        ≡ ((current_income 9 payers).by_tier bronze).count
          + ((current_income 9 payers).by_tier silver).count
          + ((current_income 9 payers).by_tier gold).count
          + ((current_income 9 payers).by_tier youth).count)
    × ((current_income 9 payers).at_risk.amount ≤ (current_income 9 payers).total)
    × ((current_income 9 payers).paying + (current_income 9 payers).untiered
        ≡ length (keep (is_paying 9) payers))
current_income_lem_example = current_income_lem 9 payers

-- Ada's 20 and Bo's 8.
income_example : (current_income 9 payers).total ≡ 28
unfolding current_income is_paying priced_members tally amount_of tier_price is_expired
income_example = refl

walk-balances_example :
    value_of (walk empty_state sams_rows).0 + total_loss (walk empty_state sams_rows).1
    ≡ value_of empty_state + total_gain (walk empty_state sams_rows).1
unfolding are_accounted is_accounted action_of tier_from_detail words_from first_tier tier_of_word
    to_lower parse_tier step_member step_action step_grant step_tier step_end
walk-balances_example = walk-balances empty_state sams_rows refl refl

-- Fourteen for the signup and six for the move.
gain_example : total_gain (walk empty_state sams_rows).1 ≡ 20
unfolding total_gain walk action_of tier_from_detail words_from first_tier tier_of_word to_lower
    parse_tier step_member step_action step_grant step_tier step_end member_event tier_change
    tier_price moved_from
gain_example = refl

walk-replay_example :
    follows (walk empty_state log_rows).0 (replay empty_state (walk empty_state log_rows).1) ≡ true
walk-replay_example = walk-replay empty_state empty_state log_rows refl

walk_all-walk_example :
    (state_in "sam@x.com" (walk_all [] log_rows).0
      ≡ (walk (state_in "sam@x.com" []) (keep (λ r. to_lower r.email == "sam@x.com") log_rows)).0)
    × (keep (is_about "sam@x.com") (walk_all [] log_rows).1
        ≡ (walk (state_in "sam@x.com" []) (keep (λ r. to_lower r.email == "sam@x.com") log_rows)).1)
walk_all-walk_example = walk_all-walk "sam@x.com" [] log_rows

-- A hundred units to the month.
abbrev month_number : ℕ → ℕ
month_number at = at / 100

abbrev month_limit : ℕ → ℕ
month_limit month = (month + 1) * 100

abbrev listed : List IncomeEvent
listed = to_income_events log_rows []

monthly_series-ends_example :
    last (monthly_series month_number month_limit 500 payers listed)
    ≡ some (
        month_row month_number month_limit
          (month_number 500)
          (current_income 500 payers).total
          (current_income 500 payers).paying
          listed)
monthly_series-ends_example =
    monthly_series-ends month_number month_limit 500 payers listed (omega arith)

-- A digit that was typed again.
is_one_edit_apart_iff_example :
    (is_one_edit_apart "sample767@x.com" "sample768@x.com" ≡ true)
    ↔ OneEdit "sample767@x.com" "sample768@x.com"
is_one_edit_apart_iff_example = is_one_edit_apart_iff "sample767@x.com" "sample768@x.com"

canonicalize_example : canonicalize " Sample.Mem+plex@Gmail.com" ≡ "samplemem@gmail.com"
unfolding canonicalize trim to_lower last_at text_take text_drop mailbox
canonicalize_example = refl

-- Ada at two addresses, one letter apart; her second row takes the place of her first.
twins_example :
    find_duplicate_twins (payer_of "Ada@x.com" gold ∷ payer_of "adda@x.com" gold ∷ payers)
    ≡ ("ada@x.com", "ada@x.com" ∷ "adda@x.com" ∷ [])
      ∷ ("adda@x.com", "ada@x.com" ∷ "ada@x.com" ∷ [])
      ∷ []
unfolding find_duplicate_twins candidates_of canonicalize trim to_lower add_twins matches_of
twins_example = refl

-- Plex shares one of the two films libraries of the tier, and one that no tier grants.
abbrev granted : List (String × List String)
granted = ("syrax", "Films" ∷ "Films 4K" ∷ []) ∷ []

abbrev shares : Option (List (String × PlexServerAccess))
shares = some (
    ("syrax", record { all_libraries = false; allow_sync = true; libraries = "Old" ∷ "Films" ∷ [] })
    ∷ [])

server_access-shared_count_example :
    ((server_access str_le granted shares "syrax").shared_count
      ≡ length (keep counts_as_shared (server_access str_le granted shares "syrax").libraries))
    × ((is_some shares || all is_unknown (server_access str_le granted shares "syrax").libraries)
        ≡ true)
server_access-shared_count_example = server_access-shared_count str_le granted shares "syrax"

states_example :
    (server_access str_le granted shares "syrax").libraries
    ≡ record { library = "Films"; state = shared }
      ∷ record { library = "Films 4K"; state = not_shared }
      ∷ record { library = "Old"; state = not_entitled }
      ∷ []
unfolding server_access resolved_libraries sort_by insert_by distinct distinct_from shared_names
    shares_everything is_shared_in resolve_state lookup
states_example = refl
