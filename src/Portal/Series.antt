-- ===== src/Portal/Series.antt =====
-- apps/admin-portal/src/lib/income.ts: the whole log as one list of events, and the months of the
-- series. A month is its number, twelve to the year.
use wizteros.Common.{
  ltb, leb, nat_eq, if◌then◌else◌, or_else, first_some, is_some, to_list, length, keep, any, last,
  flat_map, reduce, lookup, insert, from_entries, sort_by, to_lower, ℕ, zero, suc, ◌+◌, String,
  Bool, true, false, not, ◌&&◌, ◌||◌, Option, none, some, List, [], ◌∷◌, ◌++◌, map, ◌==◌,
}
use wizteros.Fleet.{Incident}
use wizteros.Portal.Walk.{
  MemberEvent, IncomeKind, signup, upgrade, downgrade, cancel, cancel_scheduled, payment_failure,
  outage, Delta, gain, loss, IncomeEvent, PayingState, empty_state, price_of, step_member,
  replay_event,
}
use wizteros.Tiers.{Tier}
use wizteros.Portal.Member.{PortalMember}
use wizteros.Portal.Income.{is_paying, tier_price, current_income}

abbrev pub state_in : (email : String) → List (String × PayingState) → PayingState
state_in key states = or_else (lookup key states) empty_state

-- The rows of all members, in their order, each stepping the member of its address.
unfoldable pub walk_all :
    List (String × PayingState) → List MemberEvent → List (String × PayingState) × List IncomeEvent
unfolding lookup insert to_lower step_member
walk_all states [] = (states, [])
walk_all states (row ∷ rows) =
    let key = to_lower row.email in
    let (after, event) = step_member (state_in key states) row in
    let (last, events) = walk_all (insert key after states) rows in (last, to_list event ++ events)

-- By the instant, then by the id.
abbrev before_row : MemberEvent → MemberEvent → Bool
before_row a b = ltb a.at b.at || (nat_eq a.at b.at && ltb a.id b.id)

-- `outageEvent`
unfoldable pub outage_event : Incident → IncomeEvent
outage_event incident = record {
  source = incident.id;
  at = incident.opened_at;
  kind = outage;
  email = none;
  tier = none;
  from_tier = none;
  delta = gain 0;
}

-- `toIncomeEvents`, the newest first
unfoldable pub to_income_events : List MemberEvent → (outages : List Incident) → List IncomeEvent
unfolding walk_all sort_by outage_event
to_income_events rows outages =
    sort_by (λ a b. ltb b.at a.at)
      ((walk_all [] (sort_by before_row rows)).1 ++ map outage_event outages)

-- The events of a member, by address.
abbrev pub is_about : (key : String) → IncomeEvent → Bool
is_about key e = elim e.email [ none ↦ false | some email ↦ to_lower email == key ]

-- The months from the first to the last, on at most `fuel` steps.
unfoldable pub months_from : (fuel first last : ℕ) → List ℕ
months_from zero first last = first ∷ []
months_from (suc fuel) first last =
    let rest = months_from fuel (suc first) last in
    if nat_eq first last then first ∷ [] else first ∷ rest

-- `monthsBetween`
unfoldable pub months_between : (first last : ℕ) → List ℕ
unfolding months_from
months_between first last = if leb last first then last ∷ [] else months_from 240 first last

abbrev kind_is : IncomeKind → IncomeKind → Bool
kind_is signup signup = true
kind_is upgrade upgrade = true
kind_is downgrade downgrade = true
kind_is cancel cancel = true
kind_is cancel_scheduled cancel_scheduled = true
kind_is payment_failure payment_failure = true
kind_is outage outage = true
kind_is _ _ = false

abbrev pub amount : Delta → ℕ
amount (gain n) = n
amount (loss n) = n

-- `sumWhere`, of sizes: the movements of one kind have one sign.
unfoldable pub sum_where : IncomeKind → List IncomeEvent → ℕ
sum_where kind [] = 0
sum_where kind (e ∷ events) =
    let rest = sum_where kind events in if kind_is e.kind kind then amount e.delta + rest else rest

-- `IncomeMonth`
pub record IncomeMonth : Type 0 where
  pub month : ℕ
  pub income : ℕ
  pub members : ℕ
  pub signups : ℕ
  pub upgrades : ℕ
  pub downgrades : ℕ
  pub churn : ℕ
  pub outages : ℕ
  pub payment_failures : ℕ

-- Somebody who pays today and has no signup on record.
pub record Unlogged : Type 0 where
  pub key : String
  pub tier : Tier
  pub since : Option ℕ

abbrev event_key : IncomeEvent → String
event_key e = elim e.email [ none ↦ "" | some email ↦ to_lower email ]

-- `statesBefore`
unfoldable pub states_before : List IncomeEvent → (boundary : ℕ) → List (String × PayingState)
unfolding sort_by replay_event lookup insert to_lower
states_before events boundary =
    reduce
      (λ states e. insert (event_key e) (replay_event (state_in (event_key e) states) e) states) []
      (sort_by (λ a b. ltb a.at b.at) (keep (λ e. is_some e.email && ltb e.at boundary) events))

unfoldable pub unlogged_members : (at : ℕ) → List IncomeEvent → List PortalMember → List Unlogged
unfolding is_paying to_lower
unlogged_members at events [] = []
unlogged_members at events (m ∷ members) =
    let rest = unlogged_members at events members in
    let key = to_lower m.email in
    if is_paying at m && not (any (λ e. kind_is e.kind signup && event_key e == key) events)
    then map (λ t. record { key = key; tier = t; since = m.invited_at }) (to_list m.tier) ++ rest
    else rest

abbrev smaller : ℕ → ℕ → ℕ
smaller a b = if ltb b a then b else a

abbrev sum_of : List ℕ → ℕ
sum_of [] = 0
sum_of (n ∷ ns) = n + sum_of ns

-- `Date` is no part of the repository: the month of an instant, and the first instant after a month.
module _ (month_of : ℕ → ℕ) (month_end : ℕ → ℕ) where
  unfoldable pub first_month : (this : ℕ) → List IncomeEvent → List Unlogged → ℕ
  first_month this events unlogged =
      reduce smaller this
        (map (λ e. month_of e.at) events ++ flat_map (λ u. map month_of (to_list u.since)) unlogged)

  -- A month that is over: what the log says was paid at its end.
  unfoldable pub past_amounts :
      List PortalMember → List IncomeEvent → List Unlogged → (boundary : ℕ) → List ℕ
  unfolding states_before from_entries tier_price lookup
  past_amounts members events unlogged boundary =
      let states = states_before events boundary in
      let current =
        from_entries (flat_map (λ m. map (λ t. (to_lower m.email, t)) (to_list m.tier)) members) in
      map (λ s. price_of (first_some s.1.tier (lookup s.0 current))) (keep (λ s. s.1.paying) states)
      ++ map (λ u. tier_price u.tier)
          (keep
            (λ u.
              not (is_some (lookup u.key states))
              && elim u.since [ none ↦ true | some since ↦ ltb since boundary ])
            unlogged)

  unfoldable pub month_row : (month income members : ℕ) → List IncomeEvent → IncomeMonth
  unfolding sum_where
  month_row month income members events =
      let moved = keep (λ e. nat_eq (month_of e.at) month) events in
      record {
        month = month;
        income = income;
        members = members;
        signups = sum_where signup moved;
        upgrades = sum_where upgrade moved;
        downgrades = sum_where downgrade moved;
        churn = sum_where cancel moved;
        outages = length (keep (λ e. kind_is e.kind outage) moved);
        payment_failures = length (keep (λ e. kind_is e.kind payment_failure) moved);
      }

  -- `monthlySeries`
  unfoldable pub monthly_series : (at : ℕ) → List PortalMember → List IncomeEvent → List IncomeMonth
  unfolding current_income unlogged_members first_month months_between past_amounts month_row
  monthly_series at members events =
      let current = current_income at members in
      let unlogged = unlogged_members at events members in
      let this = month_of at in
      map
        (λ month.
          if nat_eq month this
          then month_row month current.total current.paying events
          else (let amounts = past_amounts members events unlogged (month_end month) in
              month_row month (sum_of amounts) (length amounts) events))
        (months_between (first_month this events unlogged) this)
