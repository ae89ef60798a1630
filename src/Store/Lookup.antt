-- ===== src/Store/Lookup.antt =====
-- The two readers of the customer map answer with the same row.
use wizteros.Common.{
  first_some, is_some, Bool-cases, Option-cases, keep, last, All, All-append, keep-append,
  keep_comm, All-keep_self, All-keep, lookup, last_of, lookup-from_entries, to_lower, text_or_empty,
  String, ◌≡◌, refl, inl, inr, Bool, true, not, Option, none, some, List, [], ◌∷◌, map, arith, ◌==◌,
}
use wizteros.Store.Tables.{CustomerMap, CustomerRow, Store}
use wizteros.Store.Customers.{
  is_for, is_real, in_order, customer_row_of, keyed_row, all_customer_rows, customer_row,
}

-- The last row, as the rest of the bridge reads it.
abbrev answer : List CustomerMap → Option CustomerRow
answer rows = elim (last rows) [ none ↦ none | some row ↦ some (customer_row_of row) ]

answer-cons :
    (r : CustomerMap) (rows : List CustomerMap)
    → answer (r ∷ rows) ≡ first_some (answer rows) (some (customer_row_of r))
answer-cons r [] = refl
answer-cons r (q ∷ rows) = ground (arith, answer-cons q rows)

key-eq :
    (email : String) (r : CustomerMap)
    → is_some r.email ≡ true
    → (to_lower (text_or_empty r.email) == to_lower email) ≡ is_for email r
unfolding is_for
key-eq email r h = elim (Option-cases r.email) [
  | inl e ↦ absurd (cc (rw e at h))
  | inr (a, e) ↦ rw (e, is_for) refl
]

-- The last entry with a key comes from the last of the rows for that address.
last_of-keyed :
    (email : String) (rows : List CustomerMap)
    → All (λ r. is_some r.email ≡ true) rows
    → last_of (to_lower email) (map keyed_row rows) ≡ answer (keep (is_for email) rows)
unfolding last_of
last_of-keyed email [] h = refl
last_of-keyed email (r ∷ rows) (p, h) = elim (Bool-cases (is_for email r)) [
  | inl e ↦
      rw (key-eq email r p, e, answer-cons r (keep (is_for email) rows))
        (rw (last_of-keyed email rows h) refl)
  | inr e ↦ rw (key-eq email r p, e) (rw (last_of-keyed email rows h) (ground arith))
]

keep-in_order :
    (p : CustomerMap → Bool) (rows : List CustomerMap)
    → keep p (in_order rows) ≡ in_order (keep p rows)
unfolding in_order
keep-in_order p rows =
    let real = λ (r : CustomerMap). is_real r in
    let placeholder = λ (r : CustomerMap). not (is_real r) in
    let with_email = λ (r : CustomerMap). is_some r.email in
    let kept = keep with_email rows in
    rw
      (
        keep-append p (keep placeholder kept) (keep real kept),
        keep_comm p placeholder kept,
        keep_comm p real kept,
        keep_comm p with_email rows,
      )
      refl

in_order-All : (rows : List CustomerMap) → All (λ r. is_some r.email ≡ true) (in_order rows)
unfolding in_order
in_order-All rows =
    let kept = keep (λ (r : CustomerMap). is_some r.email) rows in
    let all_kept = All-keep_self (λ r. is_some r.email) rows in
    All-append (λ r. is_some r.email ≡ true) (keep (λ r. not (is_real r)) kept) (keep is_real kept)
      (All-keep (λ r. is_some r.email ≡ true) (λ r. not (is_real r)) kept all_kept)
      (All-keep (λ r. is_some r.email ≡ true) is_real kept all_kept)

-- `customerRow` answers for an address, in whatever case, with the row that `allCustomerRows` holds
-- under the lowercased address, and with none when it holds none.
pub customer_row-eq-lookup :
    (email : String) (s : Store)
    → customer_row email s ≡ lookup (to_lower email) (all_customer_rows s)
unfolding customer_row all_customer_rows
customer_row-eq-lookup email s =
    rw (lookup-from_entries (to_lower email) (map keyed_row (in_order s.customers))) (
      rw (last_of-keyed email (in_order s.customers) (in_order-All s.customers))
        (rw (keep-in_order (is_for email) s.customers) refl))
