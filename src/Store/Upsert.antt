-- ===== src/Store/Upsert.antt =====
-- The customer map keeps one row for each key, so no write runs into its primary key.
use text.Mathlib.Text.{starts_with}
use text.Mathlib.TextLemmas.{append_cancel_left}
use text.Mathlib.TextPositions.{starts_with-append}
use wizteros.Common.{
  Bool-cases, any, All, All-append, to_lower, String, ◌≡◌, sym, ◌∙◌, ◌≢◌, inl, inr, true, false,
  some, List, [], ◌∷◌, ◌++◌, arith, eq_refl,
}
use wizteros.Store.Tables.{CustomerMap}
use wizteros.Store.Customers.{admin_key, is_for, update_rows}

-- No row of the list has the key.
abbrev pub IsFresh : String → List CustomerMap → Type 0
IsFresh key rows = All (λ r. r.stripe_customer_id ≢ key) rows

abbrev pub HasDistinctKeys : List CustomerMap → Type 0
HasDistinctKeys [] = Unit
HasDistinctKeys (r ∷ rows) = IsFresh r.stripe_customer_id rows × HasDistinctKeys rows

-- A key in the placeholders' namespace is the key of the row's own address.
abbrev pub OwnsKey : CustomerMap → Type 0
OwnsKey r =
    starts_with r.stripe_customer_id "admin:" ≡ true
    → (e : String) × (r.email ≡ some e) × (r.stripe_customer_id ≡ admin_key e)

pub record IsWellFormed (rows : List CustomerMap) : Type 0 where
  pub keys : HasDistinctKeys rows
  pub placeholders : All OwnsKey rows

module _ (f : CustomerMap → CustomerMap)
    (key : (r : CustomerMap) → (f r).stripe_customer_id ≡ r.stripe_customer_id) where
  IsFresh-update_rows :
      (k email : String) (rows : List CustomerMap)
      → IsFresh k rows
      → IsFresh k (update_rows f email rows)
  unfolding update_rows
  IsFresh-update_rows k email [] h = tt
  IsFresh-update_rows k email (r ∷ rows) (p, h) = elim (Bool-cases (is_for email r)) [
    | inl e ↦ rw e ((λ same. p (sym (key r) ∙ same)), IsFresh-update_rows k email rows h)
    | inr e ↦ rw e (p, IsFresh-update_rows k email rows h)
  ]

  HasDistinctKeys-update_rows :
      (email : String) (rows : List CustomerMap)
      → HasDistinctKeys rows
      → HasDistinctKeys (update_rows f email rows)
  unfolding update_rows
  HasDistinctKeys-update_rows email [] h = tt
  HasDistinctKeys-update_rows email (r ∷ rows) (p, h) = elim (Bool-cases (is_for email r)) [
    | inl e ↦
        rw (e, key r)
          (
            IsFresh-update_rows r.stripe_customer_id email rows p,
            HasDistinctKeys-update_rows email rows h,
          )
    | inr e ↦ rw e (
      IsFresh-update_rows r.stripe_customer_id email rows p,
      HasDistinctKeys-update_rows email rows h,
    )
  ]

  module _ (address : (r : CustomerMap) → (f r).email ≡ r.email) where
    OwnsKey-of : (r : CustomerMap) → OwnsKey r → OwnsKey (f r)
    OwnsKey-of r p = rw (key r, address r) p

    OwnsKey-update_rows :
        (email : String) (rows : List CustomerMap)
        → All OwnsKey rows
        → All OwnsKey (update_rows f email rows)
    unfolding update_rows
    OwnsKey-update_rows email [] h = tt
    OwnsKey-update_rows email (r ∷ rows) (p, h) = elim (Bool-cases (is_for email r)) [
      | inl e ↦ rw e (OwnsKey-of r p, OwnsKey-update_rows email rows h)
      | inr e ↦ rw e (p, OwnsKey-update_rows email rows h)
    ]

    pub IsWellFormed-update_rows :
        (email : String) (rows : List CustomerMap)
        → IsWellFormed rows
        → IsWellFormed (update_rows f email rows)
    IsWellFormed-update_rows email rows w = record {
      keys = HasDistinctKeys-update_rows email rows w.keys;
      placeholders = OwnsKey-update_rows email rows w.placeholders;
    }

pub HasDistinctKeys-concat :
    (rows : List CustomerMap) (r : CustomerMap)
    → HasDistinctKeys rows
    → IsFresh r.stripe_customer_id rows
    → HasDistinctKeys (rows ++ r ∷ [])
HasDistinctKeys-concat [] r h p = (tt, tt)
HasDistinctKeys-concat (q ∷ rows) r (fresh, h) (p, ps) = (
  All-append _ rows (r ∷ []) fresh (λ same. p (sym same), tt),
  HasDistinctKeys-concat rows r h ps,
)

-- When no row is for the address, none has its placeholder key.
pub IsFresh-admin_key :
    (email : String) (rows : List CustomerMap)
    → All OwnsKey rows
    → any (is_for email) rows ≡ false
    → IsFresh (admin_key email) rows
unfolding admin_key is_for
IsFresh-admin_key email [] h e = tt
IsFresh-admin_key email (r ∷ rows) (p, h) e = (clash, IsFresh-admin_key email rows h (ground arith))
  where
    clash : r.stripe_customer_id ≡ admin_key email → ⊥
    clash same =
        let (a, held, own) =
          p (rw (same, admin_key) (starts_with-append "admin:" (to_lower email))) in
        let lowered : to_lower a ≡ to_lower email =
          append_cancel_left "admin:" _ _ (sym own ∙ same) in
        cc (rw (held, lowered, eq_refl (to_lower email)) at e)
