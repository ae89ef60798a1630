-- ===== src/Portal/Totals.antt =====
-- The figures of today's income add up.
use wizteros.Common.{length, keep, ℕ, ◌+◌, ◌≤◌, ◌≡◌, refl, Bool, List, [], ◌∷◌, arith}
use wizteros.Tiers.{bronze, silver, gold, youth}
use wizteros.Portal.Member.{PortalMember, is_declined}
use wizteros.Portal.Income.{
  is_paying, PricedMember, amount_of, tally, same_tier, priced_members, current_income,
}

amount-split :
    (rows : List PricedMember)
    → amount_of rows
      ≡ amount_of (keep (λ r. same_tier r.tier bronze) rows)
        + amount_of (keep (λ r. same_tier r.tier silver) rows)
        + amount_of (keep (λ r. same_tier r.tier gold) rows)
        + amount_of (keep (λ r. same_tier r.tier youth) rows)
unfolding amount_of
amount-split [] = refl
amount-split (r ∷ rows) = ground (arith, amount-split rows)

count-split :
    (rows : List PricedMember)
    → length rows
      ≡ length (keep (λ r. same_tier r.tier bronze) rows)
        + length (keep (λ r. same_tier r.tier silver) rows)
        + length (keep (λ r. same_tier r.tier gold) rows)
        + length (keep (λ r. same_tier r.tier youth) rows)
count-split [] = refl
count-split (r ∷ rows) = ground (arith, count-split rows)

amount-keep :
    (p : PricedMember → Bool) (rows : List PricedMember) → amount_of (keep p rows) ≤ amount_of rows
unfolding amount_of
amount-keep p [] = omega arith
amount-keep p (r ∷ rows) = ground (arith, amount-keep p rows)

priced-length : (members : List PortalMember) → length (priced_members members) ≤ length members
unfolding priced_members
priced-length [] = omega arith
priced-length (m ∷ members) = ground (arith, priced-length members)

-- The total of today is the sum over the four tiers, and so is the number of those who pay. What is at
-- risk is within the total, and every paying member is counted once, as priced or as without a tier.
pub current_income_lem :
    (at : ℕ) (members : List PortalMember)
    → let c = current_income at members in
      (c.total
        ≡ (c.by_tier bronze).amount
          + (c.by_tier silver).amount
          + (c.by_tier gold).amount
          + (c.by_tier youth).amount)
      × (c.paying
          ≡ (c.by_tier bronze).count
            + (c.by_tier silver).count
            + (c.by_tier gold).count
            + (c.by_tier youth).count)
      × (c.at_risk.amount ≤ c.total)
      × (c.paying + c.untiered ≡ length (keep (is_paying at) members))
unfolding current_income tally
current_income_lem at members =
    let priced = priced_members (keep (is_paying at) members) in
    let few = priced-length (keep (is_paying at) members) in
    (
      amount-split priced,
      count-split priced,
      amount-keep (λ r. is_declined r.member.payment_state) priced,
      omega arith,
    )
