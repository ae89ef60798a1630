-- ===== src/Store/Histories.antt =====
-- Every history of writes leaves a well-formed customer map.
use text.Mathlib.Text.{starts_with}
use wizteros.Common.{
  Bool-cases, keep, any, All, All-append, All-keep, ℕ, String, ◌≡◌, refl, sym, ◌∙◌, ◌≢◌, inl, inr,
  Bool, false, not, Option, List, [], ◌∷◌, arith, ◌==◌, eq_iff,
}
use wizteros.Status.{PaymentState}
use wizteros.Tiers.{Tier}
use wizteros.Store.Tables.{CustomerMap, Store}
use wizteros.Store.Customers.{
  admin_key, is_for, blank_row, set_by_email_or_placeholder, upsert_by_key, pending, upsert_pending,
  upsert_pending_by_email, stamp_invited, set_tier, set_subscribed, set_payment_state,
}
use wizteros.Store.Upsert.{
  IsFresh, HasDistinctKeys, OwnsKey, IsWellFormed, IsWellFormed-update_rows, HasDistinctKeys-concat,
  IsFresh-admin_key,
}

-- The writes of customers.ts, with their arguments.
pub data Write : Type 0 where
  pends : (customer_id email invite_code : String) → Option Tier → ℕ → Write
  pends_by_email : (email invite_code : String) → Option Tier → ℕ → Write
  stamps : (email : String) → ℕ → Write
  tiers_as : (email : String) → Tier → Write
  subscribes : (email : String) → Bool → Write
  pays : (email : String) → Option PaymentState → Write

unfoldable pub perform_write : Write → Store → Store
unfolding upsert_pending upsert_pending_by_email stamp_invited set_tier set_subscribed
    set_payment_state
perform_write (pends id email code tier at) = upsert_pending id email code tier at
perform_write (pends_by_email email code tier at) = upsert_pending_by_email email code tier at
perform_write (stamps email at) = stamp_invited email at
perform_write (tiers_as email tier) = set_tier email tier
perform_write (subscribes email value) = set_subscribed email value
perform_write (pays email state) = set_payment_state email state

unfoldable pub perform_writes : List Write → Store → Store
perform_writes [] s = s
perform_writes (w ∷ ws) s = perform_writes ws (perform_write w s)

-- Stripe's customer ids are not in the placeholders' namespace.
abbrev pub HasStripeId : Write → Type 0
HasStripeId (pends id email code tier at) = starts_with id "admin:" ≡ false
HasStripeId _ = Unit

module _ (f : CustomerMap → CustomerMap)
    (key : (r : CustomerMap) → (f r).stripe_customer_id ≡ r.stripe_customer_id)
    (address : (r : CustomerMap) → (f r).email ≡ r.email) where
  IsWellFormed-placeholder :
      (email : String) (s : Store)
      → IsWellFormed s.customers
      → IsWellFormed (set_by_email_or_placeholder f email s).customers
  unfolding set_by_email_or_placeholder
  IsWellFormed-placeholder email s w = elim (Bool-cases (any (is_for email) s.customers)) [
    | inl found ↦ rw found (IsWellFormed-update_rows f key address email s.customers w)
    | inr missing ↦
        let new = blank_row (admin_key email) email in
        rw missing (record {
          keys =
              HasDistinctKeys-concat s.customers (f new) w.keys
                (rw (key new) (IsFresh-admin_key email s.customers w.placeholders missing));
          placeholders =
              All-append OwnsKey s.customers (f new ∷ []) w.placeholders
                (rw (key new, address new) (λ _. (email, refl, refl)), tt);
        })
  ]

module _ (f : CustomerMap → CustomerMap) (row : CustomerMap)
    (key : (r : CustomerMap) → (f r).stripe_customer_id ≡ r.stripe_customer_id) where
  IsFresh-upsert_by_key :
      (k : String) (rows : List CustomerMap)
      → IsFresh k rows
      → row.stripe_customer_id ≢ k
      → IsFresh k (upsert_by_key f row rows)
  unfolding upsert_by_key
  IsFresh-upsert_by_key k [] h p = (p, tt)
  IsFresh-upsert_by_key k (r ∷ rows) (q, h) p =
      elim (Bool-cases (r.stripe_customer_id == row.stripe_customer_id)) [
        | inl e ↦ rw e ((λ same. q (sym (key r) ∙ same)), h)
        | inr e ↦ rw e (q, IsFresh-upsert_by_key k rows h p)
      ]

  HasDistinctKeys-upsert_by_key :
      (rows : List CustomerMap) → HasDistinctKeys rows → HasDistinctKeys (upsert_by_key f row rows)
  unfolding upsert_by_key
  HasDistinctKeys-upsert_by_key [] h = (tt, tt)
  HasDistinctKeys-upsert_by_key (r ∷ rows) (fresh, h) =
      elim (Bool-cases (r.stripe_customer_id == row.stripe_customer_id)) [
        | inl e ↦ rw (e, key r) (fresh, h)
        | inr e ↦ rw e (
          IsFresh-upsert_by_key r.stripe_customer_id rows fresh (λ same.
              ground (arith, eq_iff r.stripe_customer_id row.stripe_customer_id, sym same)),
          HasDistinctKeys-upsert_by_key rows h,
        )
      ]

  OwnsKey-upsert_by_key :
      (rows : List CustomerMap)
      → starts_with row.stripe_customer_id "admin:" ≡ false
      → All OwnsKey rows
      → All OwnsKey (upsert_by_key f row rows)
  unfolding upsert_by_key
  OwnsKey-upsert_by_key [] p h = ((λ e. absurd (cc)), tt)
  OwnsKey-upsert_by_key (r ∷ rows) p (q, h) =
      elim (Bool-cases (r.stripe_customer_id == row.stripe_customer_id)) [
        | inl e ↦
            let same : (f r).stripe_customer_id ≡ row.stripe_customer_id =
              key r ∙ (eq_iff _ _).0 e in
            rw e ((λ own. absurd (cc)), h)
        | inr e ↦ rw e (q, OwnsKey-upsert_by_key rows p h)
      ]

HasDistinctKeys-keep :
    (p : CustomerMap → Bool) (rows : List CustomerMap)
    → HasDistinctKeys rows
    → HasDistinctKeys (keep p rows)
HasDistinctKeys-keep p [] h = tt
HasDistinctKeys-keep p (r ∷ rows) (fresh, h) = elim (Bool-cases (p r)) [
  | inl e ↦ rw e (All-keep _ p rows fresh, HasDistinctKeys-keep p rows h)
  | inr e ↦ rw e (HasDistinctKeys-keep p rows h)
]

IsWellFormed-upsert_pending :
    (id email code : String) (tier : Option Tier) (at : ℕ) (s : Store)
    → starts_with id "admin:" ≡ false
    → IsWellFormed s.customers
    → IsWellFormed (upsert_pending id email code tier at s).customers
unfolding upsert_pending
IsWellFormed-upsert_pending id email code tier at s p w =
    let write = pending email code tier at in
    let row = write (blank_row id email) in
    let left = λ (r : CustomerMap). not (r.stripe_customer_id == admin_key email) in
    record {
      keys =
          HasDistinctKeys-upsert_by_key write row (λ r. refl) (keep left s.customers)
            (HasDistinctKeys-keep left s.customers w.keys);
      placeholders =
          OwnsKey-upsert_by_key write row (λ r. refl) (keep left s.customers) p
            (All-keep OwnsKey left s.customers w.placeholders);
    }

perform_write-IsWellFormed :
    (w : Write) (s : Store)
    → HasStripeId w
    → IsWellFormed s.customers
    → IsWellFormed (perform_write w s).customers
unfolding perform_write
perform_write-IsWellFormed (pends id email code tier at) s p h =
    IsWellFormed-upsert_pending id email code tier at s p h
perform_write-IsWellFormed (pends_by_email email code tier at) s p h =
    IsWellFormed-placeholder _ (λ r. refl) (λ r. refl) email s h
perform_write-IsWellFormed (stamps email at) s p h =
    IsWellFormed-placeholder _ (λ r. refl) (λ r. refl) email s h
perform_write-IsWellFormed (tiers_as email tier) s p h =
    IsWellFormed-placeholder _ (λ r. refl) (λ r. refl) email s h
perform_write-IsWellFormed (subscribes email value) s p h =
    IsWellFormed-update_rows _ (λ r. refl) (λ r. refl) email s.customers h
perform_write-IsWellFormed (pays email state) s p h =
    IsWellFormed-update_rows _ (λ r. refl) (λ r. refl) email s.customers h

-- From a well-formed customer map, every history of writes whose checkouts carry ids outside the
-- "admin:" namespace leaves one: the keys stay distinct, so no insert runs into the primary key,
-- and a key in that namespace is the lowercased address of its own row.
pub perform_writes-IsWellFormed :
    (ws : List Write) (s : Store)
    → All HasStripeId ws
    → IsWellFormed s.customers
    → IsWellFormed (perform_writes ws s).customers
unfolding perform_writes
perform_writes-IsWellFormed [] s h w = w
perform_writes-IsWellFormed (x ∷ xs) s (p, h) w =
    perform_writes-IsWellFormed xs (perform_write x s) h (perform_write-IsWellFormed x s p w)
