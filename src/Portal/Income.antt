-- ===== src/Portal/Income.antt =====
-- apps/admin-portal/src/lib/income.ts: what the subscribers of today add up to, in dollars per month.
use wizteros.Common.{
  to_list, length, keep, ℕ, ◌+◌, ◌-◌, Bool, true, false, not, ◌&&◌, List, [], ◌∷◌, ◌++◌, map,
}
use wizteros.Standing.{is_banned}
use wizteros.Tiers.{Tier, bronze, silver, gold, youth}
use wizteros.Portal.Member.{PortalMember, is_expired, is_declined}

-- `isPaying`
unfoldable pub is_paying : (at : ℕ) → PortalMember → Bool
unfolding is_expired is_banned
is_paying at member = member.subscribed && not (is_banned member.tag) && not (is_expired at member)

-- `PricedMember`
pub record PricedMember : Type 0 where
  pub member : PortalMember
  pub tier : Tier
  pub amount : ℕ

-- `TierTally`
pub record TierTally : Type 0 where
  pub count : ℕ
  pub amount : ℕ

unfoldable pub amount_of : List PricedMember → ℕ
amount_of [] = 0
amount_of (r ∷ rows) = r.amount + amount_of rows

unfoldable pub tally : List PricedMember → TierTally
unfolding amount_of
tally rows = record { count = length rows; amount = amount_of rows }

abbrev pub same_tier : Tier → Tier → Bool
same_tier bronze bronze = true
same_tier silver silver = true
same_tier gold gold = true
same_tier youth youth = true
same_tier _ _ = false

-- `CurrentIncome`
pub record CurrentIncome : Type 0 where
  pub total : ℕ
  pub paying : ℕ
  pub by_tier : Tier → TierTally
  pub at_risk : TierTally
  pub untiered : ℕ

-- `tierPrice`, of the prices in site.config.ts
unfoldable pub tier_price : Tier → ℕ
tier_price bronze = 8
tier_price silver = 14
tier_price gold = 20
tier_price youth = 10

-- The members whose tier is on record, with its price.
unfoldable pub priced_members : List PortalMember → List PricedMember
unfolding tier_price
priced_members [] = []
priced_members (m ∷ members) =
    map (λ t. record { member = m; tier = t; amount = tier_price t }) (to_list m.tier)
    ++ priced_members members

-- `currentIncome`
unfoldable pub current_income : (at : ℕ) → List PortalMember → CurrentIncome
unfolding is_paying priced_members tally
current_income at members =
    let paying = keep (is_paying at) members in
    let priced = priced_members paying in
    record {
      total = (tally priced).amount;
      paying = (tally priced).count;
      by_tier = λ t. tally (keep (λ r. same_tier r.tier t) priced);
      at_risk = tally (keep (λ r. is_declined r.member.payment_state) priced);
      untiered = length paying - length priced;
    }
