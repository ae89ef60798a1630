-- ===== src/Store/Updates.antt =====
-- What a write across every row of an address does to what the readers answer.
use wizteros.Common.{
  if◌then◌else◌, is_some, Bool-cases, Option-cases, keep, last, All, All-append, All-keep_self,
  All-keep, All-last, to_lower, String, ◌≡◌, refl, sym, ap, ◌∙◌, inl, inr, Bool, true, false, not,
  Option, none, some, List, [], ◌∷◌, ◌++◌, arith, ◌==◌, eq_iff,
}
use wizteros.Status.{PaymentState}
use wizteros.Store.Tables.{CustomerMap, CustomerRow, Store}
use wizteros.Store.Customers.{
  is_for, is_real, in_order, customer_row_of, update_rows, set_subscribed, set_payment_state,
  customer_row,
}

abbrev pub map_row : (CustomerRow → CustomerRow) → Option CustomerRow → Option CustomerRow
map_row g none = none
map_row g (some row) = some (g row)

-- A write that leaves the key and the address of a row alone, and what it does to the row as read.
pub record IsColumnWrite (f : CustomerMap → CustomerMap) (g : CustomerRow → CustomerRow)
    : Type 0 where
  pub key : (r : CustomerMap) → (f r).stripe_customer_id ≡ r.stripe_customer_id
  pub address : (r : CustomerMap) → (f r).email ≡ r.email
  pub read : (r : CustomerMap) → customer_row_of (f r) ≡ g (customer_row_of r)

in_order-All_of :
    (P : CustomerMap → Type 0) (rows : List CustomerMap) → All P rows → All P (in_order rows)
unfolding in_order
in_order-All_of P rows h =
    let with_email = λ (r : CustomerMap). is_some r.email in
    let placeholder = λ (r : CustomerMap). not (is_real r) in
    let kept = All-keep P with_email rows h in
    All-append P (keep placeholder (keep with_email rows)) (keep is_real (keep with_email rows))
      (All-keep P placeholder (keep with_email rows) kept)
      (All-keep P is_real (keep with_email rows) kept)

is_for_lem :
    (b : String) (r : CustomerMap)
    → is_for b r ≡ elim r.email [ none ↦ false | some e ↦ to_lower e == to_lower b ]
unfolding is_for
is_for_lem b r = refl

eq_sym : (a b : String) → (a == b) ≡ (b == a)
eq_sym a b = ground (arith, eq_iff a b, eq_iff b a)

module _ {f : CustomerMap → CustomerMap} {g : CustomerRow → CustomerRow}
    (w : IsColumnWrite f g) where
  abbrev rewritten : String → CustomerMap → CustomerMap
  rewritten email r = if is_for email r then f r else r

  is_for-rewritten : (a b : String) (r : CustomerMap) → is_for b (rewritten a r) ≡ is_for b r
  is_for-rewritten a b r = elim (Bool-cases (is_for a r)) [
    | inl e ↦ rw e (unfold is_for in rw (w.address r) refl)
    | inr e ↦ rw e refl
  ]

  is_real-rewritten : (a : String) (r : CustomerMap) → is_real (rewritten a r) ≡ is_real r
  is_real-rewritten a r = elim (Bool-cases (is_for a r)) [
    | inl e ↦ rw e (unfold is_real in rw (w.key r) refl)
    | inr e ↦ rw e refl
  ]

  address-rewritten : (a : String) (r : CustomerMap) → (rewritten a r).email ≡ r.email
  address-rewritten a r = elim (Bool-cases (is_for a r)) [
    | inl e ↦ rw e (w.address r)
    | inr e ↦ rw e refl
  ]

  -- A test that the write does not change keeps the same rows.
  keep-update_rows :
      (a : String) (p : CustomerMap → Bool) (rows : List CustomerMap)
      → ((r : CustomerMap) → p (rewritten a r) ≡ p r)
      → keep p (update_rows f a rows) ≡ update_rows f a (keep p rows)
  unfolding update_rows
  keep-update_rows a p [] same = refl
  keep-update_rows a p (r ∷ rows) same = elim (Bool-cases (p r)) [
    | inl e ↦ rw (same r, e) (rw (keep-update_rows a p rows same) refl)
    | inr e ↦ rw (same r, e) (keep-update_rows a p rows same)
  ]

  update_rows-append :
      (a : String) (xs ys : List CustomerMap)
      → update_rows f a (xs ++ ys) ≡ update_rows f a xs ++ update_rows f a ys
  unfolding update_rows
  update_rows-append a [] ys = refl
  update_rows-append a (x ∷ xs) ys = rw (update_rows-append a xs ys) refl

  in_order-update_rows :
      (a : String) (rows : List CustomerMap)
      → in_order (update_rows f a rows) ≡ update_rows f a (in_order rows)
  unfolding in_order
  in_order-update_rows a rows =
      let with_email = λ (r : CustomerMap). is_some r.email in
      let placeholder = λ (r : CustomerMap). not (is_real r) in
      let kept = keep with_email rows in
      rw (keep-update_rows a with_email rows (λ r. rw (address-rewritten a r) refl)) (
        rw
          (
            keep-update_rows a placeholder kept (λ r. rw (is_real-rewritten a r) refl),
            keep-update_rows a is_real kept (is_real-rewritten a),
          )
          (sym (update_rows-append a (keep placeholder kept) (keep is_real kept))))

  -- The last of rows that are all for the address is the rewritten one.
  last-update_rows :
      (a : String) (r : CustomerMap) (rows : List CustomerMap)
      → last (update_rows f a (r ∷ rows))
        ≡ elim (last (r ∷ rows)) [ none ↦ none | some q ↦ some (rewritten a q) ]
  unfolding update_rows
  last-update_rows a r [] = refl
  last-update_rows a r (q ∷ rows) = last-update_rows a q rows

  both_lem :
      (a b t : String)
      → (to_lower t == to_lower b) ≡ true
      → (to_lower t == to_lower a) ≡ (to_lower a == to_lower b)
  both_lem a b t h = rw ((eq_iff (to_lower t) (to_lower b)).0 h) (eq_sym (to_lower b) (to_lower a))

  is_for_both :
      (a b : String) (r : CustomerMap) → is_for b r ≡ true → is_for a r ≡ (to_lower a == to_lower b)
  is_for_both a b r h = elim (Option-cases r.email) [
    | inl e ↦ absurd (cc (rw (is_for_lem b r, e) at h))
    | inr (t, e) ↦ rw (is_for_lem a r, e) (both_lem a b t (rw (is_for_lem b r, e) at h))
  ]

  answer-update_rows :
      (a b : String) (rows : List CustomerMap)
      → All (λ r. is_for b r ≡ true) rows
      → elim (last (update_rows f a rows)) [ none ↦ none | some r ↦ some (customer_row_of r) ] ≡ (
          if to_lower a == to_lower b
          then map_row g (elim (last rows) [ none ↦ none | some r ↦ some (customer_row_of r) ])
          else elim (last rows) [ none ↦ none | some r ↦ some (customer_row_of r) ])
  answer-update_rows a b [] h = unfold update_rows in ground arith
  answer-update_rows a b (r ∷ rows) h = elim (Option-cases (last (r ∷ rows))) [
    | inl e ↦ rw (last-update_rows a r rows, e) (ground arith)
    | inr (q, e) ↦
        let at_q = is_for_both a b q (All-last (λ r. is_for b r ≡ true) (r ∷ rows) q h e) in
        rw (last-update_rows a r rows, e)
          (elim (Bool-cases (to_lower a == to_lower b)) [
            | inl same ↦ rw (same, at_q ∙ same) (ap some (w.read q))
            | inr other ↦ rw (other, at_q ∙ other) refl
          ])
  ]

  -- A write across the rows of one address changes what is read under that address, in whatever
  -- case it is spelled, and nothing that is read under another.
  pub customer_row-update_rows :
      (a b : String) (s : Store)
      → customer_row b (record s { customers = update_rows f a s.customers })
        ≡ (if to_lower a == to_lower b then map_row g (customer_row b s) else customer_row b s)
  unfolding customer_row
  customer_row-update_rows a b s =
      let selected = keep (is_for b) s.customers in
      rw (customer_row, keep-update_rows a (is_for b) s.customers (is_for-rewritten a b))
        (rw (customer_row, in_order-update_rows a selected)
          (answer-update_rows a b (in_order selected) (
            in_order-All_of (λ r. is_for b r ≡ true) selected
              (All-keep_self (is_for b) s.customers))))

payment_write :
    (state : Option PaymentState)
    → IsColumnWrite
        (λ r. record r { payment_state = state })
        (λ r. record r { payment_state = state })
unfolding customer_row_of
payment_write state = record { key = λ r. refl; address = λ r. refl; read = λ r. refl }

subscribed_write :
    (value : Bool)
    → IsColumnWrite (λ r. record r { subscribed = value }) (λ r. record r { subscribed = value })
unfolding customer_row_of
subscribed_write value = record { key = λ r. refl; address = λ r. refl; read = λ r. refl }

-- Recording or clearing a payment problem, and the confirmed-payment flag, changes that one field of
-- the row read under the address, in whatever case it is spelled, and no row under another address.
pub customer_row-flags :
    (a b : String) (state : Option PaymentState) (value : Bool) (s : Store)
    → (customer_row b (set_payment_state a state s) ≡ (
        if to_lower a == to_lower b
        then map_row (λ r. record r { payment_state = state }) (customer_row b s)
        else customer_row b s))
      × (customer_row b (set_subscribed a value s) ≡ (
          if to_lower a == to_lower b
          then map_row (λ r. record r { subscribed = value }) (customer_row b s)
          else customer_row b s))
unfolding set_payment_state set_subscribed
customer_row-flags a b state value s = (
  customer_row-update_rows (payment_write state) a b s,
  customer_row-update_rows (subscribed_write value) a b s,
)
