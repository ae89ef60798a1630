-- ===== src/Portal/Ledger.antt =====
-- The listed amounts account for what a member pays.
use wizteros.Common.{
  if◌then◌else◌, is_some, to_list, ℕ, ◌+◌, ◌≡◌, refl, Bool, true, not, ◌&&◌, ◌||◌, Option, none,
  some, List, [], ◌∷◌, ◌++◌, arith,
}
use wizteros.Tiers.{Tier}
use wizteros.Portal.Income.{same_tier, tier_price}
use wizteros.Portal.Walk.{
  MemberEvent, tier_from_detail, Delta, gain, loss, IncomeEvent, PayingState, price_of,
  member_event, tier_change, moved_from, step_grant, step_tier, step_end, step_renewal, Action,
  grants, sets_tier, ends, schedules_end, fails_payment, renews, other_action, action_of,
  step_action, step_member, walk,
}

-- What a member pays per month.
abbrev pub value_of : PayingState → ℕ
value_of state = if state.paying then price_of state.tier else 0

-- A standing that the log has seen from its start, with a tier on record while it pays.
abbrev pub is_priced : PayingState → Bool
is_priced state = not state.inferred && (not state.paying || is_some state.tier)

-- A row that keeps it so: a grant has a tier, named or known, and a renewal follows a grant.
unfoldable pub is_accounted : PayingState → Action → (named : Option Tier) → Bool
is_accounted state (grants restored) named = is_some named || is_some state.tier
is_accounted state renews named = state.paying
is_accounted state _ named = true

abbrev gain_of : Delta → ℕ
gain_of (gain n) = n
gain_of (loss n) = 0

abbrev loss_of : Delta → ℕ
loss_of (gain n) = 0
loss_of (loss n) = n

abbrev pub gained : Option IncomeEvent → ℕ
gained none = 0
gained (some e) = gain_of e.delta

abbrev pub lost : Option IncomeEvent → ℕ
lost none = 0
lost (some e) = loss_of e.delta

same_tier-price : (a b : Tier) → same_tier a b ≡ true → tier_price a ≡ tier_price b
unfolding tier_price
same_tier-price a b h = ground arith

-- What a step leaves in the books.
abbrev Balances : PayingState → PayingState × Option IncomeEvent → Type 0
Balances state next =
    (value_of next.0 + lost next.1 ≡ value_of state + gained next.1) × (is_priced next.0 ≡ true)

tier_change-balance :
    (source : MemberEvent) (from to : Tier)
    → tier_price to + loss_of (tier_change source from to).delta
      ≡ tier_price from + gain_of (tier_change source from to).delta
unfolding tier_change member_event
tier_change-balance source from to = ground arith

step_tier-Balances :
    (state : PayingState) (source : MemberEvent) (named : Option Tier)
    → is_priced state ≡ true
    → Balances state (step_tier state source named)
unfolding step_tier moved_from tier_change member_event
step_tier-Balances state source none h = (refl, h)
step_tier-Balances state source (some t) h =
    ground (arith, same_tier-price t, tier_change-balance source)

step_end-Balances :
    (state : PayingState) (source : MemberEvent)
    → is_priced state ≡ true
    → Balances state (step_end state source)
unfolding step_end member_event
step_end-Balances state source h = ground arith

step_grant-Balances :
    (restored : Bool) (state : PayingState) (source : MemberEvent) (named : Option Tier)
    → is_priced state ≡ true
    → is_accounted state (grants restored) named ≡ true
    → Balances state (step_grant restored state source named)
unfolding step_grant moved_from is_accounted member_event tier_change
step_grant-Balances restored state source none h k = ground arith
step_grant-Balances restored state source (some t) h k = ground (arith, same_tier-price t)

step-Balances :
    (action : Action) (state : PayingState) (source : MemberEvent) (named : Option Tier)
    → is_priced state ≡ true
    → is_accounted state action named ≡ true
    → Balances state (step_action action state source named)
unfolding step_action is_accounted step_renewal member_event
step-Balances (grants restored) state source named h k =
    step_grant-Balances restored state source named h k
step-Balances sets_tier state source named h k = step_tier-Balances state source named h
step-Balances ends state source named h k = step_end-Balances state source h
step-Balances schedules_end state source named h k = (refl, h)
step-Balances fails_payment state source named h k = (refl, h)
step-Balances renews state source named h k = ground arith
step-Balances other_action state source named h k = (refl, h)

-- Every row of a member is such a row, where it stands.
unfoldable pub are_accounted : PayingState → List MemberEvent → Bool
unfolding is_accounted step_member action_of tier_from_detail
are_accounted state [] = true
are_accounted state (row ∷ rows) =
    is_accounted state (action_of row.action) (tier_from_detail row.detail)
    && are_accounted (step_member state row).0 rows

unfoldable pub total_gain : List IncomeEvent → ℕ
total_gain [] = 0
total_gain (e ∷ events) = gain_of e.delta + total_gain events

unfoldable pub total_loss : List IncomeEvent → ℕ
total_loss [] = 0
total_loss (e ∷ events) = loss_of e.delta + total_loss events

listed-totals :
    (o : Option IncomeEvent) (events : List IncomeEvent)
    → (total_gain (to_list o ++ events) ≡ gained o + total_gain events)
      × (total_loss (to_list o ++ events) ≡ lost o + total_loss events)
unfolding total_gain total_loss
listed-totals none events = (omega arith, omega arith)
listed-totals (some e) events = (refl, refl)

-- For a member whose standing is not inferred from a renewal and has a tier on record while it pays, and
-- whose rows keep it so (every grant names a tier or finds one on record, and renewals come only while
-- the member pays), the listed amounts account for what the member pays per month: what was paid before
-- and what was gained since is what was lost and what is paid now.
pub walk-balances :
    (state : PayingState) (rows : List MemberEvent)
    → is_priced state ≡ true
    → are_accounted state rows ≡ true
    → value_of (walk state rows).0 + total_loss (walk state rows).1
      ≡ value_of state + total_gain (walk state rows).1
unfolding walk are_accounted step_member total_gain total_loss
walk-balances state [] h k = refl
walk-balances state (row ∷ rows) h k =
    let named = tier_from_detail row.detail in
    let next = step_member state row in
    let here : is_accounted state (action_of row.action) named ≡ true = ground arith in
    let there : are_accounted next.0 rows ≡ true = ground arith in
    let (balance, priced) = step-Balances (action_of row.action) state row named h here in
    let rest = walk-balances next.0 rows priced there in
    let totals = listed-totals next.1 (walk next.0 rows).1 in rw (totals.0, totals.1) (omega arith)
