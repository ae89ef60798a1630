-- ===== src/Store/Checkout.antt =====
-- What the readers answer after a completed checkout was recorded.
use text.Mathlib.Text.{starts_with}
use mathlib.Core.List.{append_assoc}
use wizteros.Common.{
  is_some, keep, last, keep-append, All-keep, last-concat, to_lower, ℕ, String, ◌≡◌, refl, ap, ◌≢◌,
  true, not, none, some, List, [], ◌∷◌, ◌++◌, append-nil, arith, ◌==◌, eq_iff, eq_refl,
}
use wizteros.Tiers.{Tier, bronze, silver, gold, youth}
use wizteros.Store.Tables.{CustomerMap, CustomerRow, Store}
use wizteros.Store.Customers.{
  admin_key, is_for, is_real, in_order, customer_row_of, blank_row, upsert_by_key, pending,
  upsert_pending, customer_row,
}
use wizteros.Store.Upsert.{IsFresh}

upsert_by_key_fresh :
    (f : CustomerMap → CustomerMap) (row : CustomerMap) (rows : List CustomerMap)
    → IsFresh row.stripe_customer_id rows
    → upsert_by_key f row rows ≡ rows ++ row ∷ []
unfolding upsert_by_key
upsert_by_key_fresh f row [] h = refl
upsert_by_key_fresh f row (r ∷ rows) (p, h) =
    ground
      (arith, eq_iff r.stripe_customer_id row.stripe_customer_id, upsert_by_key_fresh f row rows h)

-- A real row at the end of the table is the last in order.
last-in_order :
    (rows : List CustomerMap) (r : CustomerMap)
    → is_some r.email ≡ true
    → is_real r ≡ true
    → last (in_order (rows ++ r ∷ [])) ≡ some r
unfolding in_order
last-in_order rows r p q =
    let with_email = λ (r : CustomerMap). is_some r.email in
    let placeholder = λ (r : CustomerMap). not (is_real r) in
    let kept = keep with_email rows in
    rw (keep-append with_email rows (r ∷ []), p)
      (rw (keep-append placeholder kept (r ∷ []), keep-append is_real kept (r ∷ []), q)
        (rw (append-nil (keep placeholder kept)) (
          rw (← append_assoc (keep placeholder kept) (keep is_real kept) (r ∷ []))
            (last-concat (keep placeholder kept ++ keep is_real kept) r))))

abbrev pub paid_row : String → String → Tier → ℕ → CustomerRow
paid_row id code tier at = record {
  customer_id = some id;
  invite_code = some code;
  tier = some tier;
  invited_at = some at;
  subscribed = true;
  payment_state = none;
}

customer_row_of-pending :
    (id email code : String) (tier : Tier) (at : ℕ)
    → starts_with id "cus_" ≡ true
    → customer_row_of (pending email code (some tier) at (blank_row id email))
      ≡ paid_row id code tier at
unfolding customer_row_of
customer_row_of-pending id email code bronze at p = rw p refl
customer_row_of-pending id email code silver at p = rw p refl
customer_row_of-pending id email code gold at p = rw p refl
customer_row_of-pending id email code youth at p = rw p refl

-- After a checkout of a customer that the map does not hold yet, the address is answered for by that
-- customer, its invite and its tier, confirmed as paying and with no payment problem, whatever other
-- rows the address has.
pub customer_row-upsert_pending :
    (id email code : String) (tier : Tier) (at : ℕ) (s : Store)
    → starts_with id "cus_" ≡ true
    → starts_with (to_lower id) "cus_" ≡ true
    → IsFresh id s.customers
    → customer_row email (upsert_pending id email code (some tier) at s)
      ≡ some (paid_row id code tier at)
unfolding customer_row upsert_pending
customer_row-upsert_pending id email code tier at s p q fresh =
    let left = λ (r : CustomerMap). not (r.stripe_customer_id == admin_key email) in
    let row = pending email code (some tier) at (blank_row id email) in
    let others = keep left s.customers in
    rw
      (
        customer_row,
        upsert_by_key_fresh (pending email code (some tier) at) row others
            (All-keep (λ r. r.stripe_customer_id ≢ id) left s.customers fresh),
      )
      (rw (customer_row, keep-append (is_for email) others (row ∷ []), eq_refl (to_lower email))
        (rw (customer_row, last-in_order (keep (is_for email) others) row refl q)
          (ap some (customer_row_of-pending id email code tier at p))))
