-- ===== src/Tests/Tables.antt =====
-- Runs of the tiers, the subscription statuses and the store.
use wizteros.Common.{All, to_lower, String, ◌≡◌, refl, false, none, some, List, [], ◌∷◌}
use wizteros.Standing.{MemberTag, vip, banned}
use wizteros.Status.{StripeSubscription}
use wizteros.Tiers.{silver, gold, youth, resolve_tier_access, tier_scope_problem, ServerRecord}
use wizteros.Store.{Store, empty_store, upsert_pending, customer_row}
use wizteros.Tiers.Health.{is_uncarried, Judged, tier_scope_problem-Judged}
use wizteros.Store.Upsert.{IsWellFormed}
use wizteros.Store.Histories.{
  Write, pends, pends_by_email, perform_writes, HasStripeId, perform_writes-IsWellFormed,
}
use wizteros.Store.Checkout.{paid_row, customer_row-upsert_pending}
use wizteros.Tests.Fixtures.{catalog, ann_store, subscription}

abbrev ann_tags : List (String × MemberTag)
ann_tags = ("a@x.io", vip) ∷ ("b@x.io", banned) ∷ []

abbrev ann_addresses : List String
ann_addresses = "a@x.io" ∷ "b@x.io" ∷ []

abbrev two_subscriptions : List StripeSubscription
two_subscriptions =
    subscription "sub_1" "cus_1" "past_due" ∷ subscription "sub_2" "cus_1" "active" ∷ []

abbrev two_records : List ServerRecord
two_records =
    record { id = 10; server = some "Balerion" } ∷ record { id = 11; server = some "Vhagar" } ∷ []

abbrev two_writes : List Write
two_writes =
    pends_by_email "Bob@x.io" "DEF" (some silver) 3 ∷ pends "cus_9" "bob@x.io" "GHI" none 4 ∷ []

two_writes-HasStripeId : All HasStripeId two_writes
two_writes-HasStripeId = (tt, (refl, tt))

perform_writes-IsWellFormed_example : IsWellFormed (perform_writes two_writes empty_store).customers
perform_writes-IsWellFormed_example =
    perform_writes-IsWellFormed two_writes empty_store two_writes-HasStripeId
      (record { keys = tt; placeholders = tt })

customer_row-upsert_pending_example :
    customer_row "ann@x.io" (upsert_pending "cus_9" "ann@x.io" "GHI" (some gold) 7 ann_store)
    ≡ some (paid_row "cus_9" "GHI" gold 7)
customer_row-upsert_pending_example =
    customer_row-upsert_pending "cus_9" "ann@x.io" "GHI" gold 7 ann_store refl
      (unfold to_lower in refl) ((λ e. absurd (cc e)), tt)

abbrev bound_store : Store
bound_store = record empty_store {
  session_invites = record { session_id = "cs_1"; invite_code = "ABC"; emailed = false } ∷ [];
}

tier_scope_problem-Judged_example :
    Judged
      (resolve_tier_access youth catalog).library_ids
      (is_uncarried youth catalog)
      (tier_scope_problem catalog youth)
tier_scope_problem-Judged_example = tier_scope_problem-Judged catalog youth
